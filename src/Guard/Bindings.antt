-- ===== src/Guard/Bindings.antt =====
-- `GuardBindingsRepository`: each method is one transaction, which a raise rolls back.
use eidolon_data.Prelude.{
  ℕ, ◌+◌, String, Bool, true, false, not, ◌&&◌, ◌||◌, Option, none, some, List, [], ◌∷◌, ◌++◌,
  if◌then◌else◌, ◌==◌, ◌!=◌, ℤ, pos_part, ltb_ℤ, num, str, JsonDict, find, select_where,
  update_where, exists_where, order_by, Tx, pure, raise, gets, or_raise, raise_if, modify, ◌>>=◌,
  ◌>>◌, ◌⧺◌, or_text, or_value, codes, nat_eq, string_eq, option_eq,
}
use eidolon_data.Schema.{
  Db, Env, AuditOutboxRow, CompanionRow, companion_active, is_guard, GuardState, GuardBindingRow,
  guard_active,
}
use eidolon_data.Audit.Row.{details, governance_fact}
use eidolon_data.Audit.Facts.{add_fact}
use eidolon_data.Guard.OpaqueId.{matches_opaque_id}

pub data GuardError : Type 0 where
  invalid_id : String → GuardError
  companion_not_found companion_not_active kind_not_guard : GuardError
  already_bound : GuardError
  invalid_revision : GuardError
  binding_not_found : GuardError
  binding_not_active : GuardError
  revision_conflict : ℕ → ℕ → GuardError
  bad_transition : GuardState → GuardState → GuardError
  integrity_error : GuardError

abbrev pub Call : Type 0 → Type 0
Call A = Tx Db GuardError A

-- `_validate_opaque_id`
unfoldable pub validate_opaque_id : String → String → Call (Unit {0})
validate_opaque_id label value = raise_if (not (matches_opaque_id (codes value))) (invalid_id label)

-- `_validate_guard_companion`
unfoldable pub validate_guard_companion : Option CompanionRow → String → Call (Unit {0})
validate_guard_companion none owner_id = raise companion_not_found
validate_guard_companion (some companion) owner_id = do
  raise_if (companion.owner_id != owner_id) companion_not_found
  raise_if (not (companion_active companion.lifecycle_state)) companion_not_active
  raise_if (not (is_guard companion.kind)) kind_not_guard

abbrev pub has_binding_id : String → GuardBindingRow → Bool
has_binding_id binding_id row = row.binding_id == binding_id

-- What schema/guard.py does not let stand beside an active row: its primary key, and the partial
-- unique indexes on the guard companion and the device.
abbrev pub conflicts_with : GuardBindingRow → GuardBindingRow → Bool
conflicts_with new row =
    row.binding_id == new.binding_id
    || guard_active row.state
      && (row.guard_companion_id == new.guard_companion_id || row.device_id == new.device_id)

-- `session.add` of an active row and its flush, with the foreign keys to the Owner and to the
-- Owner's Companion.
unfoldable pub add_binding : GuardBindingRow → Call (Unit {0})
add_binding new = do
  raise_if (← gets (λ db. exists_where (conflicts_with new) db.guard_bindings)) already_bound
  raise_if (← gets (λ db. not (exists_where (λ o. o.owner_id == new.owner_id) db.owners)))
      already_bound
  raise_if
      (← gets (λ db. not (
        exists_where (λ c. c.companion_id == new.guard_companion_id && c.owner_id == new.owner_id)
          db.companions)))
      already_bound
  modify (λ db. record db { guard_bindings = db.guard_bindings ++ new ∷ [] })

abbrev pub new_binding :
    Env → String → String → String → String → String → Option JsonDict → GuardBindingRow
new_binding env binding_id owner_id guard_companion_id device_id policy_id policy_json = record {
  binding_id = binding_id;
  owner_id = owner_id;
  guard_companion_id = guard_companion_id;
  device_id = device_id;
  state = GuardState.active;
  policy_id = policy_id;
  policy_revision = 1;
  policy_json = or_value policy_json [];
  activated_at = env.now;
  disabled_at = none;
  revoked_at = none;
  created_at = env.now;
  updated_at = env.now;
}

abbrev pub binding_fact : Env → GuardBindingRow → String → JsonDict → AuditOutboxRow
binding_fact env row action payload =
    governance_fact env 0 row.owner_id "guard_binding" row.binding_id action
      (record details { payload = some payload })

abbrev pub created_payload : GuardBindingRow → JsonDict
created_payload row =
    ("guard_companion_id", str row.guard_companion_id)
    ∷ ("device_id", str row.device_id)
    ∷ ("policy_id", str row.policy_id)
    ∷ ("policy_revision", num 1)
    ∷ []

-- `bind`. An IntegrityError of the flush, from the binding or from its audit row, is told as a
-- binding that exists already. The first uuid is the binding's, the second the event's.
unfoldable pub bind :
    Env → String → String → String → String → Option JsonDict → Option String → Call GuardBindingRow
bind env owner_id guard_companion_id device_id policy_id policy_json requested_id = do
  validate_opaque_id "device_id" device_id
  validate_opaque_id "policy_id" policy_id
  let binding_id = or_text requested_id ("gb_" ⧺ env.uuid 1)
  validate_opaque_id "binding_id" binding_id
  companion ← gets (λ db. find (λ c. c.companion_id == guard_companion_id) db.companions)
  validate_guard_companion companion owner_id
  let row = new_binding env binding_id owner_id guard_companion_id device_id policy_id policy_json
  add_binding row
  add_fact already_bound (binding_fact env row "guard.binding.created" (created_payload row))
  pure row

-- The attributes of a loaded row are set, and written at the flush.
unfoldable pub write_binding : String → (GuardBindingRow → GuardBindingRow) → Call (Unit {0})
write_binding binding_id f = modify (λ db. record db {
  guard_bindings = update_where (has_binding_id binding_id) f db.guard_bindings;
})

unfoldable pub load_binding : String → Call GuardBindingRow
load_binding binding_id = do
  row ← gets (λ db. find (has_binding_id binding_id) db.guard_bindings)
  or_raise row binding_not_found

abbrev pub set_policy : ℕ → String → JsonDict → GuardBindingRow → GuardBindingRow
set_policy now policy_id policy_json row = record row {
  policy_id = policy_id;
  policy_json = policy_json;
  policy_revision = row.policy_revision + 1;
  updated_at = now;
}

abbrev pub updated_payload : GuardBindingRow → JsonDict
updated_payload row =
    ("device_id", str row.device_id)
    ∷ ("policy_id", str row.policy_id)
    ∷ ("policy_revision", num row.policy_revision)
    ∷ []

unfoldable pub update_policy : Env → String → ℤ → String → JsonDict → Call GuardBindingRow
update_policy env binding_id expected_revision policy_id policy_json = do
  validate_opaque_id "policy_id" policy_id
  raise_if (ltb_ℤ expected_revision 1) invalid_revision
  row ← load_binding binding_id
  raise_if (not (guard_active row.state)) binding_not_active
  raise_if (row.policy_revision != pos_part expected_revision)
      (revision_conflict (pos_part expected_revision) row.policy_revision)
  let changed = set_policy env.now policy_id policy_json row
  write_binding binding_id (set_policy env.now policy_id policy_json)
  add_fact integrity_error
      (binding_fact env changed "guard.policy.updated" (updated_payload changed))
  pure changed

abbrev pub target_of : Bool → GuardState
target_of revoke = if revoke then GuardState.revoked else GuardState.disabled

abbrev pub same_state : GuardState → GuardState → Bool
same_state GuardState.active GuardState.active = true
same_state GuardState.disabled GuardState.disabled = true
same_state GuardState.revoked GuardState.revoked = true
same_state _ _ = false

abbrev pub set_target : ℕ → Bool → GuardBindingRow → GuardBindingRow
set_target now true row = record row {
  state = GuardState.revoked;
  updated_at = now;
  revoked_at = some now;
}
set_target now false row = record row {
  state = GuardState.disabled;
  updated_at = now;
  disabled_at = some now;
}

abbrev pub disable_action : Bool → String
disable_action revoke = if revoke then "guard.binding.revoked" else "guard.binding.disabled"

-- the part of `disable` after the early return
unfoldable pub disable_active : Env → GuardBindingRow → Bool → Call GuardBindingRow
disable_active env row revoke = do
  raise_if (not (guard_active row.state)) (bad_transition row.state (target_of revoke))
  let changed = set_target env.now revoke row
  write_binding row.binding_id (set_target env.now revoke)
  add_fact integrity_error
      (binding_fact env changed (disable_action revoke) (("device_id", str row.device_id) ∷ []))
  pure changed

unfoldable pub disable : Env → String → Bool → Call GuardBindingRow
disable env binding_id revoke = do
  row ← load_binding binding_id
  if same_state row.state (target_of revoke) then pure row else disable_active env row revoke

-- The reads.
unfoldable pub get : String → Db → Option GuardBindingRow
get binding_id db = find (has_binding_id binding_id) db.guard_bindings

abbrev pub is_active_for_device : String → GuardBindingRow → Bool
is_active_for_device device_id row = row.device_id == device_id && guard_active row.state

unfoldable pub get_active_for_device : String → Db → Option GuardBindingRow
get_active_for_device device_id db = find (is_active_for_device device_id) db.guard_bindings

unfoldable pub list_for_owner : String → Db → List GuardBindingRow
list_for_owner owner_id db =
    order_by (λ r. r.created_at) (select_where (λ r. r.owner_id == owner_id) db.guard_bindings)
