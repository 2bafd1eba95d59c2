-- ===== src/Guard/Policy.antt =====
-- Optimistic concurrency of `update_policy`, and the binding that a Device can find.
use eidolon_data.Prelude.{
  ℕ, suc, String, ◌≡◌, refl, sym, ap, ◌∙◌, ◌≢◌, inl, inr, Bool, true, false, Option, none, some,
  List, [], ◌∷◌, arith, eq_iff, if◌then◌else◌, ==→≡, Bool-cases, All, ℤ, pos, pos_part, JsonDict,
  find, update_where, find-update_where, find_sound, find-append_none, find-none_of_exists,
  exists_where_imp, ok, Pairwise, All-imp, All-find, string_eq, nat_eq,
}
use eidolon_data.Guard.Exclusive.{Apart, IsExclusive}
use eidolon_data.Schema.{Db, Env, GuardBindingRow}
use eidolon_data.Guard.Bindings.{
  has_binding_id, conflicts_with, bind, set_policy, update_policy, set_target, disable, get,
  is_active_for_device, get_active_for_device,
}
use eidolon_data.Guard.Effects.{
  bind_row, bind-Bound, update_policy-Updated, already, done, disable-Disabled,
}
use eidolon_data.Guard.Calls.{GuardCall, perform_all}
use eidolon_data.Guard.Lifecycle.{perform_all-Evolves}

-- The row that a successful update leaves under the id.
updated_found :
    (env : Env) (i : String) (expected : ℤ) (p : String) (j : JsonDict) (db db' : Db)
    (row : GuardBindingRow)
    → update_policy env i expected p j db ≡ ok (row, db')
    → (find (has_binding_id i) db'.guard_bindings ≡ some row)
      × (pos row.policy_revision ≡ pos (suc (pos_part expected)))
updated_found env i expected p j db db' row ran =
    let u = update_policy-Updated env i expected p j db db' row ran in
    let hit = find_sound (has_binding_id i) db.guard_bindings u.old u.found in
    let f = set_policy env.now p j in
    (
      rw (u.table, u.result)
          (find-update_where (has_binding_id i) (has_binding_id i) f db.guard_bindings u.old
              (λ y. refl) u.found
            ∙ ap (λ b. some (if b then f u.old else u.old)) hit),
      ground (arith, u.result, u.at_revision),
    )

-- Of two updates that expect the same revision one wins: after a successful one, and any calls in
-- between, the other does not return.
pub update_policy_once :
    (env env' : Env) (i : String) (expected : ℤ) (p p' : String) (j j' : JsonDict)
    (cs : List GuardCall) (db db₁ db₂ : Db) (row row' : GuardBindingRow)
    → update_policy env i expected p j db ≡ ok (row, db₁)
    → update_policy env' i expected p' j' (perform_all cs db₁) ≢ ok (row', db₂)
update_policy_once env env' i expected p p' j j' cs db db₁ db₂ row row' first second =
    let (found, revision) = updated_found env i expected p j db db₁ row first in
    let (r, found', evolves) = perform_all-Evolves i row cs db₁ found in
    let u = update_policy-Updated env' i expected p' j' (perform_all cs db₁) db₂ row' second in
    let same : some u.old ≡ some r = sym u.found ∙ found' in
    ground (arith, same, u.at_revision, evolves.revision)

-- A device's binding, once made, is the one that `get_active_for_device` and `get` find.
pub get-bind :
    (env : Env) (owner_id guard_companion_id device_id policy_id : String)
    (policy_json : Option JsonDict) (requested_id : Option String) (db db' : Db)
    (row : GuardBindingRow)
    → bind env owner_id guard_companion_id device_id policy_id policy_json requested_id db
      ≡ ok (row, db')
    → (get_active_for_device device_id db' ≡ some row) × (get row.binding_id db' ≡ some row)
unfolding get_active_for_device get
get-bind env o g d p j b db db' row ran =
    let w = bind-Bound env o g d p j b db db' row ran in
    let made = bind_row env o g d p j b db db' row ran in
    let no_device = find-none_of_exists (is_active_for_device d) db.guard_bindings (
      exists_where_imp (conflicts_with row) (is_active_for_device d) db.guard_bindings
        (λ r e. ground (
          arith,
          made,
          eq_iff r.device_id d,
          eq_iff r.device_id row.device_id,
          eq_iff row.device_id r.device_id,
        ))
        w.free) in
    let no_id = find-none_of_exists (has_binding_id row.binding_id) db.guard_bindings (
      exists_where_imp (conflicts_with row) (has_binding_id row.binding_id) db.guard_bindings
        (λ r e.
          ground (arith, eq_iff r.binding_id row.binding_id, eq_iff row.binding_id r.binding_id))
        w.free) in
    (
      rw w.table (
          find-append_none (is_active_for_device d) db.guard_bindings (row ∷ []) no_device
          ∙ ground (arith, made, eq_iff row.device_id d)),
      rw w.table (
          find-append_none (has_binding_id row.binding_id) db.guard_bindings (row ∷ []) no_id
          ∙ ground (arith, eq_iff row.binding_id row.binding_id)),
    )

module _ (d i : String) (now : ℕ) (revoke : Bool) where
  abbrev after_disable : List GuardBindingRow → List GuardBindingRow
  after_disable = update_where (has_binding_id i) (set_target now revoke)

  stays_free :
      (rows : List GuardBindingRow)
      → All (λ y. is_active_for_device d y ≡ false) rows
      → find (is_active_for_device d) (after_disable rows) ≡ none
  stays_free [] h = refl
  stays_free (y ∷ ys) h = ground (arith, stays_free ys h.1)

  others_free :
      (x : GuardBindingRow) (rows : List GuardBindingRow)
      → is_active_for_device d x ≡ true
      → All (Apart x) rows
      → All (λ y. is_active_for_device d y ≡ false) rows
  others_free x rows e =
      All-imp (Apart x) (λ y. is_active_for_device d y ≡ false) rows
        (λ y a. ground (
          arith,
          a.devices,
          eq_iff x.device_id d,
          eq_iff y.device_id d,
          eq_iff x.device_id y.device_id,
        ))

  freed :
      (rows : List GuardBindingRow) (old : GuardBindingRow)
      → Pairwise Apart rows
      → find (is_active_for_device d) rows ≡ some old
      → old.binding_id ≡ i
      → find (is_active_for_device d) (after_disable rows) ≡ none
  freed [] old x found e = cc
  freed (y ∷ ys) old x found e = elim (Bool-cases (is_active_for_device d y)) [
    | inl hit ↦
        let rest = stays_free ys (others_free y ys hit x.0) in ground (arith, eq_iff y.binding_id i)
    | inr other ↦ ground (arith, freed ys old x.1)
  ]

found_by_id :
    (p : GuardBindingRow → Bool) (rows : List GuardBindingRow) (old : GuardBindingRow)
    → Pairwise Apart rows
    → find p rows ≡ some old
    → find (has_binding_id old.binding_id) rows ≡ some old
found_by_id p [] old x found = cc
found_by_id p (y ∷ ys) old x found = elim (Bool-cases (p y)) [
  | inl hit ↦ ground (arith, eq_iff y.binding_id old.binding_id)
  | inr other ↦
      let later : find p ys ≡ some old = ground arith in
      let apart = All-find (Apart y) p ys old x.0 later in
      ground (arith, apart.ids, found_by_id p ys old x.1)
]

-- Disabling or revoking the active binding of a Device leaves the Device with none, if no two active
-- bindings had one Device before.
pub disable_frees :
    (env : Env) (device_id : String) (revoke : Bool) (db db' : Db) (old row : GuardBindingRow)
    → IsExclusive db
    → get_active_for_device device_id db ≡ some old
    → disable env old.binding_id revoke db ≡ ok (row, db')
    → get_active_for_device device_id db' ≡ none
unfolding get_active_for_device
disable_frees env d revoke db db' old row x found ran =
    elim (disable-Disabled env old.binding_id revoke db db' row ran) [
      | already f st e ↦
          let same = sym f ∙ found_by_id (is_active_for_device d) db.guard_bindings old x found in
          let was_active = find_sound (is_active_for_device d) db.guard_bindings old found in
          absurd (ground arith)
      | done loaded f st res table fact ↦ rw table (
          freed d loaded.binding_id env.now revoke db.guard_bindings old x found (
            sym (
              ==→≡ loaded.binding_id old.binding_id
                (find_sound (has_binding_id old.binding_id) db.guard_bindings loaded f))))
    ]
