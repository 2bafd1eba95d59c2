-- ===== src/Guard/Exclusive.antt =====
-- At most one active binding for a Device and for a guard Companion.
use eidolon_data.Prelude.{
  ℕ, String, ◌≡◌, Bool, false, ◌&&◌, List, arith, if◌then◌else◌, ◌==◌, ==_symm, JsonDict, ok,
  Pairwise, All-imp, All-of_exists_where, Pairwise-append, Pairwise-update_where, string_eq,
}
use eidolon_data.Schema.{Db, GuardBindingRow, guard_active}
use eidolon_data.Guard.Bindings.{has_binding_id, conflicts_with, set_policy, set_target}
use eidolon_data.Guard.Effects.{bind-Bound, update_policy-Updated, already, done, disable-Disabled}
use eidolon_data.Guard.Calls.{
  GuardCall, call_bind, call_update_policy, call_disable, run_call, perform_all, perform_all_keeps,
}

abbrev both_active : GuardBindingRow → GuardBindingRow → Bool
both_active r s = guard_active r.state && guard_active s.state

-- Two rows have different ids, and if both are active, different Devices and Companions.
pub record Apart (r s : GuardBindingRow) : Type 0 where
  pub ids : (r.binding_id == s.binding_id) ≡ false
  pub devices : both_active r s && r.device_id == s.device_id ≡ false
  pub companions : both_active r s && r.guard_companion_id == s.guard_companion_id ≡ false

abbrev pub IsExclusive : Db → Type 0
IsExclusive db = Pairwise Apart db.guard_bindings

Apart-of_free : (r new : GuardBindingRow) → conflicts_with new r ≡ false → Apart r new
Apart-of_free r new h = ground (
  arith,
  ==_symm r.binding_id new.binding_id,
  ==_symm r.device_id new.device_id,
  ==_symm r.guard_companion_id new.guard_companion_id,
)

module _ (q : GuardBindingRow → Bool) (now : ℕ) where
  set_policy-Apart :
      (policy_id : String) (policy_json : JsonDict) (r s : GuardBindingRow)
      → Apart r s
      → Apart
          (if q r then set_policy now policy_id policy_json r else r)
          (if q s then set_policy now policy_id policy_json s else s)
  set_policy-Apart policy_id policy_json r s h = ground arith

  set_target-Apart :
      (revoke : Bool) (r s : GuardBindingRow)
      → Apart r s
      → Apart
          (if q r then set_target now revoke r else r)
          (if q s then set_target now revoke s else s)
  set_target-Apart revoke r s h = ground arith

run_call-IsExclusive :
    (c : GuardCall) (db db' : Db) (row : GuardBindingRow)
    → run_call c db ≡ ok (row, db')
    → IsExclusive db
    → IsExclusive db'
unfolding run_call
run_call-IsExclusive (call_bind env o g d p j i) db db' row ran h =
    let b = bind-Bound env o g d p j i db db' row ran in
    rw b.table (
      Pairwise-append Apart db.guard_bindings row
        (All-imp (λ r. conflicts_with row r ≡ false) (λ r. Apart r row) db.guard_bindings
          (λ r. Apart-of_free r row)
          (All-of_exists_where (conflicts_with row) db.guard_bindings b.free))
        h)
run_call-IsExclusive (call_update_policy env i e p j) db db' row ran h =
    let u = update_policy-Updated env i e p j db db' row ran in
    rw u.table (
      Pairwise-update_where Apart (has_binding_id i) (set_policy env.now p j) db.guard_bindings
        (set_policy-Apart (has_binding_id i) env.now p j) h)
run_call-IsExclusive (call_disable env i revoke) db db' row ran h =
    elim (disable-Disabled env i revoke db db' row ran) [
      | already f s e ↦ rw e h
      | done old f s r table fact ↦ rw table (
          Pairwise-update_where Apart (has_binding_id old.binding_id) (set_target env.now revoke)
            db.guard_bindings (set_target-Apart (has_binding_id old.binding_id) env.now revoke) h)
    ]

-- Whatever calls are made in whatever order, failing ones included, it stays so that no two bindings
-- have one id, and no two active bindings have one Device or one guard Companion.
pub perform_all-IsExclusive :
    (cs : List GuardCall) (db : Db) → IsExclusive db → IsExclusive (perform_all cs db)
perform_all-IsExclusive = perform_all_keeps IsExclusive run_call-IsExclusive
