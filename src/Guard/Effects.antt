-- ===== src/Guard/Effects.antt =====
-- What each method of the repository has done when it returns.
use eidolon_data.Prelude.{
  ℕ, String, ◌≡◌, refl, inl, inr, Bool, true, false, Option, some, [], ◌∷◌, ◌++◌, arith, Bool-cases,
  Option-cases, ℤ, pos, str, JsonDict, find, update_where, exists_where, ok, ◌⧺◌, or_text, nat_eq,
  string_eq, option_eq,
}
use eidolon_data.Audit.Row.{governance_fact}
use eidolon_data.Schema.{Db, Env, AuditOutboxRow, GuardState, GuardBindingRow, guard_active}
use eidolon_data.Audit.Facts.{add_fact}
use eidolon_data.Guard.Bindings.{
  validate_opaque_id, validate_guard_companion, has_binding_id, conflicts_with, add_binding,
  new_binding, binding_fact, created_payload, bind, write_binding, load_binding, set_policy,
  updated_payload, update_policy, target_of, same_state, set_target, disable_action, disable_active,
  disable,
}

-- A new active row at the end of the table, one fact about it in the outbox, and nothing else.
pub record Bound (db : Db) (row : GuardBindingRow) (db' : Db) : Type 0 where
  pub free : exists_where (conflicts_with row) db.guard_bindings ≡ false
  pub active : row.state ≡ GuardState.active
  pub first_revision : row.policy_revision ≡ 1
  pub table : db'.guard_bindings ≡ db.guard_bindings ++ row ∷ []
  pub fact :
      (f : AuditOutboxRow) × (db'.audit_outbox ≡ db.audit_outbox ++ f ∷ [])
      × (f.subject_id ≡ row.binding_id)
      × (f.owner_id ≡ some row.owner_id)

module _ (env : Env) (owner_id guard_companion_id device_id policy_id : String)
    (policy_json : Option JsonDict) (requested_id : Option String) (db db' : Db)
    (row : GuardBindingRow)
    (ran : bind env owner_id guard_companion_id device_id policy_id policy_json requested_id db
      ≡ ok (row, db')) where
  pub bind_row :
      row
      ≡ new_binding env
          (or_text requested_id ("gb_" ⧺ env.uuid 1))
          owner_id
          guard_companion_id
          device_id
          policy_id
          policy_json
  unfolding bind validate_opaque_id validate_guard_companion add_binding add_fact
  bind_row = ground arith

  pub bind-Bound : Bound db row db'
  unfolding bind validate_opaque_id validate_guard_companion add_binding add_fact governance_fact
  bind-Bound = record {
    free = ground arith;
    active = ground arith;
    first_revision = ground arith;
    table = ground arith;
    fact = (
      binding_fact env row "guard.binding.created" (created_payload row),
      ground arith,
      refl,
      refl,
    );
  }

-- The row was there and active at the expected revision; every row with its id has the new policy
-- and the next revision, and one fact about it is in the outbox.
pub record Updated (db : Db) (binding_id : String) (expected : ℤ) (now : ℕ) (policy_id : String)
    (policy_json : JsonDict) (row : GuardBindingRow) (db' : Db) : Type 0 where
  pub old : GuardBindingRow
  pub found : find (has_binding_id binding_id) db.guard_bindings ≡ some old
  pub was_active : guard_active old.state ≡ true
  pub at_revision : expected ≡ pos old.policy_revision
  pub result : row ≡ set_policy now policy_id policy_json old
  pub table :
      db'.guard_bindings
      ≡ update_where
          (has_binding_id binding_id)
          (set_policy now policy_id policy_json)
          db.guard_bindings
  pub fact :
      (f : AuditOutboxRow) × (db'.audit_outbox ≡ db.audit_outbox ++ f ∷ [])
      × (f.subject_id ≡ old.binding_id)
      × (f.owner_id ≡ some old.owner_id)

module _ (env : Env) (binding_id : String) (expected : ℤ) (policy_id : String)
    (policy_json : JsonDict) (db db' : Db) (row old : GuardBindingRow)
    (ran : update_policy env binding_id expected policy_id policy_json db ≡ ok (row, db'))
    (found : find (has_binding_id binding_id) db.guard_bindings ≡ some old) where
  update_found : Updated db binding_id expected env.now policy_id policy_json row db'
  unfolding update_policy validate_opaque_id load_binding write_binding add_fact governance_fact
  update_found = record {
    old = old;
    found = found;
    was_active = ground arith;
    at_revision = ground arith;
    result = ground arith;
    table = ground arith;
    fact = (
      binding_fact env (set_policy env.now policy_id policy_json old) "guard.policy.updated"
          (updated_payload (set_policy env.now policy_id policy_json old)),
      ground arith,
      refl,
      refl,
    );
  }

pub update_policy-Updated :
    (env : Env) (binding_id : String) (expected : ℤ) (policy_id : String) (policy_json : JsonDict)
    (db db' : Db) (row : GuardBindingRow)
    → update_policy env binding_id expected policy_id policy_json db ≡ ok (row, db')
    → Updated db binding_id expected env.now policy_id policy_json row db'
unfolding update_policy validate_opaque_id load_binding
update_policy-Updated env binding_id expected policy_id policy_json db db' row ran =
    elim (Option-cases (find (has_binding_id binding_id) db.guard_bindings)) [
      | inl missing ↦ absurd (ground arith)
      | inr (old, found) ↦
          update_found env binding_id expected policy_id policy_json db db' row old ran found
    ]

-- `disable` found the row in the state that was asked for, and did nothing; or found it active, and
-- every row with its id is in that state now, with one fact in the outbox.
pub data Disabled (db : Db) (binding_id : String) (revoke : Bool) (now : ℕ) (row : GuardBindingRow)
    (db' : Db) : Type 0 where
  already :
      find (has_binding_id binding_id) db.guard_bindings ≡ some row
      → row.state ≡ target_of revoke
      → db' ≡ db
      → Disabled db binding_id revoke now row db'
  done :
      (old : GuardBindingRow)
      → find (has_binding_id binding_id) db.guard_bindings ≡ some old
      → old.state ≡ GuardState.active
      → row ≡ set_target now revoke old
      → db'.guard_bindings
        ≡ update_where (has_binding_id old.binding_id) (set_target now revoke) db.guard_bindings
      → ((f : AuditOutboxRow) × (db'.audit_outbox ≡ db.audit_outbox ++ f ∷ [])
          × (f.subject_id ≡ old.binding_id)
          × (f.owner_id ≡ some old.owner_id))
      → Disabled db binding_id revoke now row db'

same_state→≡ : (s t : GuardState) → same_state s t ≡ true → s ≡ t
same_state→≡ s t h = ground arith

module _ (env : Env) (binding_id : String) (revoke : Bool) (db db' : Db) (row old : GuardBindingRow)
    (found : find (has_binding_id binding_id) db.guard_bindings ≡ some old) where
  disable_active_done :
      disable_active env old revoke db ≡ ok (row, db')
      → Disabled db binding_id revoke env.now row db'
  unfolding disable_active write_binding add_fact governance_fact
  disable_active_done ran = done old found (ground arith) (ground arith) (ground arith) (
    binding_fact env (set_target env.now revoke old) (disable_action revoke)
        (("device_id", str old.device_id) ∷ []),
    ground arith,
    ground arith,
    ground arith,
  )

  disable_found :
      disable env binding_id revoke db ≡ ok (row, db')
      → Disabled db binding_id revoke env.now row db'
  unfolding disable load_binding
  disable_found ran = elim (Bool-cases (same_state old.state (target_of revoke))) [
    | inl same ↦
        already (ground arith) (ground (arith, same_state→≡ old.state (target_of revoke)))
          (ground arith)
    | inr other ↦ disable_active_done (ground arith)
  ]

pub disable-Disabled :
    (env : Env) (binding_id : String) (revoke : Bool) (db db' : Db) (row : GuardBindingRow)
    → disable env binding_id revoke db ≡ ok (row, db')
    → Disabled db binding_id revoke env.now row db'
unfolding disable load_binding
disable-Disabled env binding_id revoke db db' row ran =
    elim (Option-cases (find (has_binding_id binding_id) db.guard_bindings)) [
      | inl missing ↦ absurd (ground arith)
      | inr (old, found) ↦ disable_found env binding_id revoke db db' row old found ran
    ]
