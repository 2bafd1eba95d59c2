-- ===== src/Tests/Guard.antt =====
-- Guard bindings.
use eidolon_data.Audit.Row.{governance_fact}
use eidolon_data.Guard.Policy.{get-bind, disable_frees, update_policy_once}
use eidolon_data.Guard.Lifecycle.{CameFrom, perform_all-Evolves}
use eidolon_data.Guard.Exclusive.{IsExclusive, perform_all-IsExclusive}
use eidolon_data.Guard.Calls.{GuardCall, perform_all, call_bind, call_disable}
use eidolon_data.Audit.Facts.{add_fact}
use eidolon_data.Prelude.{
  String, ◌≡◌, refl, ◌≢◌, ◌↔◌, true, false, none, some, List, [], ◌∷◌, pos, negsuc, find, ok, err,
  committed, codes, string_eq, nat_eq,
}
use eidolon_data.Schema.{Db, Env, GuardState, GuardBindingRow}
use eidolon_data.Guard.OpaqueId.{
  is_alnum, is_safe, matches_tail, matches_opaque_id, IsOpaqueId, matches_opaque_id_iff,
}
use eidolon_data.Guard.Bindings.{
  invalid_id, companion_not_found, kind_not_guard, already_bound, invalid_revision,
  binding_not_found, revision_conflict, bad_transition, Call, validate_opaque_id,
  validate_guard_companion, has_binding_id, add_binding, new_binding, bind, write_binding,
  load_binding, set_policy, update_policy, set_target, disable_active, disable, get,
  get_active_for_device,
}
use eidolon_data.Tests.Fixtures.{env_at, db_fixture}

-- what a run needs unfolded
guard_code : Unit {0}
unfolding bind validate_opaque_id validate_guard_companion add_binding add_fact governance_fact
    matches_opaque_id matches_tail is_safe is_alnum update_policy load_binding write_binding disable
    disable_active get_active_for_device get
guard_code = tt

ids :
    (matches_opaque_id (codes "dev:1.a") ≡ true)
    × (matches_opaque_id (codes "") ≡ false)
    × (matches_opaque_id (codes "-a") ≡ false)
    × (matches_opaque_id (codes "a b") ≡ false)
unfolding guard_code
ids = (refl, refl, refl, refl)

abbrev bind_a : Env → String → Call GuardBindingRow
bind_a env device = bind env "owner-a" "guard-a" device "silent_presence" none none

abbrev env_bind : Env
env_bind = env_at 5 "e1" "b1" 1

abbrev env_next : Env
env_next = env_at 6 "e2" "b2" 2

abbrev env_last : Env
env_last = env_at 7 "e3" "b3" 3

abbrev row_a : GuardBindingRow
row_a = new_binding env_bind "gb_b1" "owner-a" "guard-a" "dev-1" "silent_presence" none

abbrev db_bound : Db
db_bound = committed (bind_a env_bind "dev-1" db_fixture) db_fixture

bind_ok : bind_a env_bind "dev-1" db_fixture ≡ ok (row_a, db_bound)
unfolding guard_code
bind_ok = refl

bind_again : bind_a env_next "dev-1" db_bound ≡ err already_bound
unfolding guard_code
bind_again = refl

bind_refused :
    (bind env_bind "owner-b" "guard-a" "dev-1" "p" none none db_fixture ≡ err companion_not_found)
    × (bind env_bind "owner-a" "talker" "dev-1" "p" none none db_fixture ≡ err kind_not_guard)
    × (bind env_bind "owner-a" "guard-a" "" "p" none none db_fixture ≡ err (invalid_id "device_id"))
unfolding guard_code
bind_refused = (refl, refl, refl)

abbrev row_updated : GuardBindingRow
row_updated = set_policy 6 "strict" [] row_a

abbrev db_updated : Db
db_updated = committed (update_policy env_next "gb_b1" (pos 1) "strict" [] db_bound) db_bound

update_ok :
    update_policy env_next "gb_b1" (pos 1) "strict" [] db_bound ≡ ok (row_updated, db_updated)
unfolding guard_code
update_ok = refl

update_refused :
    (update_policy env_last "gb_b1" (pos 1) "strict" [] db_updated ≡ err (revision_conflict 1 2))
    × (update_policy env_last "gb_b1" (negsuc 0) "strict" [] db_updated ≡ err invalid_revision)
    × (update_policy env_last "gb_b9" (pos 1) "strict" [] db_updated ≡ err binding_not_found)
unfolding guard_code
update_refused = (refl, refl, refl)

abbrev db_disabled : Db
db_disabled = committed (disable env_next "gb_b1" true db_bound) db_bound

disable_ok : disable env_next "gb_b1" true db_bound ≡ ok (set_target 6 true row_a, db_disabled)
unfolding guard_code
disable_ok = refl

disable_again :
    (disable env_last "gb_b1" true db_disabled ≡ ok (set_target 6 true row_a, db_disabled))
    × (disable env_last "gb_b1" false db_disabled
        ≡ err (bad_transition GuardState.revoked GuardState.disabled))
unfolding guard_code
disable_again = (refl, refl)

matches_opaque_id_iff_example : (matches_opaque_id (codes "a b") ≡ true) ↔ IsOpaqueId (codes "a b")
matches_opaque_id_iff_example = matches_opaque_id_iff (codes "a b")

abbrev calls : List GuardCall
calls =
    call_bind env_bind "owner-a" "guard-a" "dev-1" "silent_presence" none none
    ∷ call_bind env_next "owner-b" "guard-b" "dev-1" "silent_presence" none none
    ∷ call_disable env_last "gb_b1" false
    ∷ []

perform_all-IsExclusive_example : IsExclusive (perform_all calls db_fixture)
perform_all-IsExclusive_example = perform_all-IsExclusive calls db_fixture tt

found_bound : find (has_binding_id "gb_b1") db_bound.guard_bindings ≡ some row_a
unfolding guard_code
found_bound = refl

perform_all-Evolves_example : CameFrom "gb_b1" row_a (perform_all calls db_bound)
perform_all-Evolves_example = perform_all-Evolves "gb_b1" row_a calls db_bound found_bound

update_policy_once_example :
    update_policy env_last "gb_b1" (pos 1) "loose" [] (perform_all [] db_updated)
    ≢ ok (row_a, db_bound)
update_policy_once_example =
    update_policy_once env_next env_last "gb_b1" (pos 1) "strict" "loose" [] [] [] db_bound
      db_updated db_bound row_updated row_a update_ok

get-bind_example :
    (get_active_for_device "dev-1" db_bound ≡ some row_a) × (get "gb_b1" db_bound ≡ some row_a)
get-bind_example =
    get-bind env_bind "owner-a" "guard-a" "dev-1" "silent_presence" none none db_fixture db_bound
      row_a bind_ok

bound-IsExclusive : IsExclusive db_bound
unfolding guard_code
bound-IsExclusive = ((tt, tt))

active_bound : get_active_for_device "dev-1" db_bound ≡ some row_a
unfolding guard_code
active_bound = refl

disable_frees_example : get_active_for_device "dev-1" db_disabled ≡ none
disable_frees_example =
    disable_frees env_next "dev-1" true db_bound db_disabled row_a (set_target 6 true row_a)
      bound-IsExclusive active_bound disable_ok
