-- ===== src/Tests/Deletion.antt =====
-- The deletion of Companions and Owners.
use eidolon_data.Prelude.{
  ◌+◌, String, ◌≡◌, refl, Bool, true, false, none, some, [], ◌∷◌, ◌++◌, length, Result, ok, err,
  committed, string_eq, nat_eq, option_eq,
}
use eidolon_data.Schema.{Db, RealmStatus, MemoryRealmRow}
use eidolon_data.Personas.Current.{HasCommitted, perform_all-HasCommitted}
use eidolon_data.Personas.Calls.{perform_all}
use eidolon_data.Deletion.Cascades.{delete_companion_rows, delete_owned_rows, delete_owner_row}
use eidolon_data.Deletion.Companions.{
  CompanionDeletionError, companion_not_found, default_refused, CompanionDeletionResult,
  break_pointers, delete_companion,
}
use eidolon_data.Deletion.Owners.{
  OwnerDeletionError, OwnerDeletedRows, OwnerDeletionResult, count_owned_rows, break_owned_pointers,
  deleted_fact, delete_found_owner, delete_owner,
}
use eidolon_data.Deletion.Remains.{IsGone, delete_companion-IsGone}
use eidolon_data.Deletion.OwnerRows.{IsOwnerGone}
use eidolon_data.Deletion.OwnerGone.{AddsUp, delete_owner-IsOwnerGone, delete_owner-err_of_team}
use eidolon_data.Deletion.Pointers.{deletions-HasCommitted}
use eidolon_data.Tests.Fixtures.{owner_named, db_fixture}
use eidolon_data.Tests.Personas.{sdk, persona_code, env_of, db_edited, from_birth, no_pointer}

-- what a run needs unfolded
deletion_code : Unit {0}
unfolding delete_companion_rows delete_owned_rows delete_owner_row break_pointers delete_companion
    break_owned_pointers delete_found_owner delete_owner
deletion_code = tt

abbrev shared_realm : MemoryRealmRow
shared_realm = record {
  realm_id = "realm-a";
  owner_id = "owner-a";
  person_id = none;
  engine = "mempalace";
  engine_config_json = [];
  policy_json = [];
  status = RealmStatus.active;
  created_at = 0;
  updated_at = 0;
}

-- the Companion `talker` is the default of its Owner, and has two genomes
abbrev db_full : Db
db_full = record db_edited {
  owners = record (owner_named "owner-a") { default_companion_id = some "talker" } ∷ [];
  memory_realms = shared_realm ∷ [];
}

abbrev delete_talker : String → Bool → Result CompanionDeletionError (CompanionDeletionResult × Db)
delete_talker owner_id allow_default =
    delete_companion (env_of "z" 99) owner_id "talker" allow_default db_full

abbrev report : CompanionDeletionResult
report = record {
  owner_id = "owner-a";
  companion_id = "talker";
  face_asset_storage_keys = [];
  deleted_rows = record {
    companions = 1;
    persona_genomes = 2;
    companion_face_assets = 0;
    guard_bindings = 0;
  };
}

abbrev db_without : Db
db_without = committed (delete_talker "owner-a" true) db_full

delete_ok :
    (delete_talker "owner-a" true ≡ ok (report, db_without))
    × (delete_talker "owner-a" false ≡ err default_refused)
    × (delete_talker "owner-b" true ≡ err companion_not_found)
    × (db_without.memory_realms ≡ shared_realm ∷ [])
unfolding persona_code deletion_code
delete_ok = (refl, refl, refl, refl)

delete_companion-IsGone_example :
    IsGone "talker" db_without
    × (length db_without.persona_genomes + 2 ≡ length db_full.persona_genomes)
    × (length db_without.companion_face_assets + 0 ≡ length db_full.companion_face_assets)
    × (length db_without.guard_bindings + 0 ≡ length db_full.guard_bindings)
    × (db_without.memory_realms ≡ db_full.memory_realms)
unfolding persona_code deletion_code
delete_companion-IsGone_example =
    delete_companion-IsGone (env_of "z" 99) "owner-a" "talker" true db_full db_without report refl

abbrev owner_report : OwnerDeletionResult
owner_report = record {
  owner_id = "owner-a";
  deleted = true;
  realm_ids = "realm-a" ∷ [];
  object_storage_keys = [];
  deleted_rows = some (record {
    owners = 1;
    companions = 2;
    persona_genomes = 2;
    memory_realms = 1;
    companion_face_assets = 0;
    guard_bindings = 0;
    owner_face_profile_revisions = 0;
    owner_face_references = 0;
  });
}

abbrev db_ownerless : Db
db_ownerless = committed (delete_owner (env_of "z" 99) "owner-a" db_full) db_full

delete_owner_ok : delete_owner (env_of "z" 99) "owner-a" db_full ≡ ok (owner_report, db_ownerless)
unfolding persona_code deletion_code
delete_owner_ok = refl

delete_owner-IsOwnerGone_example :
    IsOwnerGone "owner-a" ("guard-a" ∷ "talker" ∷ []) [] db_ownerless
    × (db_ownerless.audit_outbox
        ≡ db_full.audit_outbox
          ++ deleted_fact
              (env_of "z" 99)
              "owner-a"
              ("realm-a" ∷ [])
              (count_owned_rows "owner-a" db_full)
            ∷ [])
    × (n : OwnerDeletedRows) × (owner_report.deleted_rows ≡ some n)
    × AddsUp n db_full db_ownerless
unfolding persona_code deletion_code
delete_owner-IsOwnerGone_example =
    delete_owner-IsOwnerGone (env_of "z" 99) "owner-a" db_full db_ownerless
      (record (owner_named "owner-a") { default_companion_id = some "talker" }) owner_report
      (tt, tt) refl delete_owner_ok

-- an Owner with a team
abbrev db_teamed : Db
db_teamed = record db_full {
  teams =
      record {
        owner_id = "owner-a";
        team_id = "team-1";
        host_id = "host-1";
        active_session_id = none;
        deleted = true;
        revision = 1;
      }
      ∷ [];
}

delete_owner-err_of_team_example :
    delete_owner (env_of "z" 99) "owner-a" db_teamed ≡ err OwnerDeletionError.integrity_error
unfolding persona_code
delete_owner-err_of_team_example =
    delete_owner-err_of_team (env_of "z" 99) "owner-a" db_teamed
      (record (owner_named "owner-a") { default_companion_id = some "talker" }) refl refl

abbrev db_lived : Db
db_lived = perform_all sdk from_birth db_fixture

deletions-HasCommitted_example :
    HasCommitted
      (committed (delete_companion (env_of "z" 99) "owner-a" "talker" true db_lived) db_lived)
    × HasCommitted (committed (delete_owner (env_of "z" 99) "owner-a" db_lived) db_lived)
deletions-HasCommitted_example =
    deletions-HasCommitted (env_of "z" 99) "owner-a" "talker" true db_lived
      (perform_all-HasCommitted sdk from_birth db_fixture no_pointer)
