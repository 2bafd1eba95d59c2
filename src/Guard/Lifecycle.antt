-- ===== src/Guard/Lifecycle.antt =====
-- The life of one binding under any calls.
use native.Mathlib.Nat.{le_refl}
use eidolon_data.Prelude.{
  ℕ, ◌≤◌, String, ◌≡◌, refl, sym, ap, ◌∙◌, Bool, true, false, some, List, [], ◌∷◌, arith,
  if◌then◌else◌, ◌==◌, ==→≡, JsonDict, find, find-update_where, find-append, find_sound, ok,
  string_eq,
}
use eidolon_data.Schema.{Db, GuardBindingRow, guard_active}
use eidolon_data.Guard.Bindings.{has_binding_id, set_policy, set_target}
use eidolon_data.Guard.Effects.{bind-Bound, update_policy-Updated, already, done, disable-Disabled}
use eidolon_data.Guard.Calls.{
  GuardCall, call_bind, call_update_policy, call_disable, run_call, perform_all, perform_all_keeps,
}

-- How a binding may change: never whom it binds, its policy revision only upwards, and nothing at
-- all once it is disabled or revoked.
pub record Evolves (r r' : GuardBindingRow) : Type 0 where
  pub id : r'.binding_id ≡ r.binding_id
  pub owner : r'.owner_id ≡ r.owner_id
  pub companion : r'.guard_companion_id ≡ r.guard_companion_id
  pub device : r'.device_id ≡ r.device_id
  pub revision : r.policy_revision ≤ r'.policy_revision
  pub terminal : guard_active r.state ≡ false → r' ≡ r

Evolves-refl : (r : GuardBindingRow) → Evolves r r
Evolves-refl r = record {
  id = refl;
  owner = refl;
  companion = refl;
  device = refl;
  revision = le_refl r.policy_revision;
  terminal = λ h. refl;
}

Evolves-trans : (r s t : GuardBindingRow) → Evolves r s → Evolves s t → Evolves r t
Evolves-trans r s t h k = record {
  id = k.id ∙ h.id;
  owner = k.owner ∙ h.owner;
  companion = k.companion ∙ h.companion;
  device = k.device ∙ h.device;
  revision = omega arith;
  terminal = λ e. let s_is_r = h.terminal e in k.terminal (rw s_is_r e) ∙ s_is_r;
}

-- The binding `i` has come from `r`.
abbrev pub CameFrom : String → GuardBindingRow → Db → Type 0
CameFrom i r db =
    (r' : GuardBindingRow) × (find (has_binding_id i) db.guard_bindings ≡ some r') × Evolves r r'

set_policy-Evolves :
    (q : Bool) (now : ℕ) (p : String) (j : JsonDict) (r : GuardBindingRow)
    → (q ≡ true → guard_active r.state ≡ true)
    → Evolves r (if q then set_policy now p j r else r)
set_policy-Evolves true now p j r h = record {
  id = refl;
  owner = refl;
  companion = refl;
  device = refl;
  revision = omega arith;
  terminal = λ e. cc (h refl);
}
set_policy-Evolves false now p j r h = Evolves-refl r

set_target-Evolves :
    (q : Bool) (now : ℕ) (revoke : Bool) (r : GuardBindingRow)
    → (q ≡ true → guard_active r.state ≡ true)
    → Evolves r (if q then set_target now revoke r else r)
set_target-Evolves true now true r h = record {
  id = refl;
  owner = refl;
  companion = refl;
  device = refl;
  revision = le_refl r.policy_revision;
  terminal = λ e. cc (h refl);
}
set_target-Evolves true now false r h = record {
  id = refl;
  owner = refl;
  companion = refl;
  device = refl;
  revision = le_refl r.policy_revision;
  terminal = λ e. cc (h refl);
}
set_target-Evolves false now revoke r h = Evolves-refl r

set_target-has_id :
    (i : String) (now : ℕ) (revoke : Bool) (r : GuardBindingRow)
    → has_binding_id i (set_target now revoke r) ≡ has_binding_id i r
set_target-has_id i now true r = refl
set_target-has_id i now false r = refl

module _ (i : String) (rows : List GuardBindingRow) (r : GuardBindingRow)
    (found : find (has_binding_id i) rows ≡ some r) where
  -- a call that names the binding's id has loaded this row
  same_row :
      (j : String) (old : GuardBindingRow)
      → find (has_binding_id j) rows ≡ some old
      → (r.binding_id == j) ≡ true
      → old ≡ r
  same_row j old f e =
      let same : i ≡ j =
        sym (==→≡ r.binding_id i (find_sound (has_binding_id i) rows r found))
        ∙ ==→≡ r.binding_id j e in
      cc (ap (λ k. find (has_binding_id k) rows) same)

run_call-CameFrom :
    (i : String) (r : GuardBindingRow) (c : GuardCall) (db db' : Db) (row : GuardBindingRow)
    → run_call c db ≡ ok (row, db')
    → CameFrom i r db
    → CameFrom i r db'
unfolding run_call
run_call-CameFrom i r (call_bind env o g d p j b) db db' row ran (s, found, ev) =
    let w = bind-Bound env o g d p j b db db' row ran in
    (s, rw w.table (find-append (has_binding_id i) db.guard_bindings (row ∷ []) s found), ev)
run_call-CameFrom i r (call_update_policy env j e p k) db db' row ran (s, found, ev) =
    let u = update_policy-Updated env j e p k db db' row ran in
    let f = set_policy env.now p k in
    let q = has_binding_id j s in
    (
      if q then f s else s,
      rw u.table (
          find-update_where (has_binding_id i) (has_binding_id j) f db.guard_bindings s (λ y. refl)
            found),
      Evolves-trans r s (if q then f s else s) ev (
          set_policy-Evolves q env.now p k s
            (λ e. rw (same_row i db.guard_bindings s found j u.old u.found e) at u.was_active)),
    )
run_call-CameFrom i r (call_disable env j revoke) db db' row ran (s, found, ev) =
    elim (disable-Disabled env j revoke db db' row ran) [
      | already f st e ↦ rw e (s, found, ev)
      | done old f st res table fact ↦
          let g = set_target env.now revoke in
          let q = has_binding_id old.binding_id s in
          let loaded =
            ==→≡ old.binding_id j (find_sound (has_binding_id j) db.guard_bindings old f) in
          (
            if q then g s else s,
            rw table (
                find-update_where (has_binding_id i) (has_binding_id old.binding_id) g
                  db.guard_bindings s (set_target-has_id i env.now revoke) found),
            Evolves-trans r s (if q then g s else s) ev (
                set_target-Evolves q env.now revoke s (λ e.
                  let same = same_row i db.guard_bindings s found j old f (rw loaded at e) in
                  ground arith)),
          )
    ]

-- Whatever calls are made: a binding stays in the table under its id, always binds the same Owner,
-- Companion and Device, never goes back in its policy revision, and once disabled or revoked is
-- never changed again.
pub perform_all-Evolves :
    (i : String) (r : GuardBindingRow) (cs : List GuardCall) (db : Db)
    → find (has_binding_id i) db.guard_bindings ≡ some r
    → CameFrom i r (perform_all cs db)
perform_all-Evolves i r cs db found =
    perform_all_keeps (CameFrom i r) (run_call-CameFrom i r) cs db (r, found, Evolves-refl r)
