-- ===== src/Deletion/OwnerGone.antt =====
-- What the deletion of an Owner leaves, what it reports, and when it fails.
use eidolon_data.Deletion.OwnerRows.{IsOwnerGone, HasTeamKeys, IsOwnerGone-delete_owned_rows}
use eidolon_data.Audit.Row.{governance_fact}
use eidolon_data.Audit.Facts.{add_fact}
use eidolon_data.Deletion.Owners.{
  OwnerDeletionError, OwnerDeletedRows, OwnerDeletionResult, count_owned_rows, break_owned_pointers,
  deleted_fact, delete_found_owner, delete_owner,
}
use eidolon_data.Prelude.{
  ◌+◌, String, subst, ◌≡◌, refl, sym, ap, true, false, some, List, [], ◌∷◌, ◌++◌, map, arith,
  length, find, select_where, update_where, delete_where, exists_where, mem, length-delete_where,
  length-select_where, length-map, ok, err, string_eq, option_eq, nat_eq,
}
use eidolon_data.Schema.{Db, Env, OwnerRow, CompanionRow}
use eidolon_data.Deletion.Cascades.{
  delete_companion_rows, has_owner_id, is_companion_of, is_realm_of, is_profile_of, is_team_of,
  companions_of, realms_of, profiles_of, delete_owned_rows, delete_owner_row,
}
use eidolon_data.Deletion.Companions.{no_pointers}

module _ (o : String) where
  -- clearing the pointers of the Companions changes no id
  same_companions :
      (rows : List CompanionRow)
      → map
          (λ c. c.companion_id)
          (select_where (is_companion_of o) (update_where (is_companion_of o) no_pointers rows))
        ≡ map (λ c. c.companion_id) (select_where (is_companion_of o) rows)
  same_companions [] = refl
  same_companions (c ∷ rows) = ground (arith, same_companions rows)

  pub delete_owner_tables :
      (env : Env) (db db' : Db) (owner : OwnerRow) (result : OwnerDeletionResult)
      → find (has_owner_id o) db.owners ≡ some owner
      → delete_owner env o db ≡ ok (result, db')
      → (result.deleted_rows ≡ some (count_owned_rows o db))
        × (exists_where (is_team_of o) db.teams ≡ false)
        × (db'
            ≡ record (delete_owned_rows o (
                delete_companion_rows
                  (companions_of o (break_owned_pointers o db))
                  (break_owned_pointers o db))) { audit_outbox = db'.audit_outbox })
        × (db'.audit_outbox
            ≡ db.audit_outbox ++ deleted_fact env o (realms_of o db) (count_owned_rows o db) ∷ [])
  unfolding delete_owner delete_found_owner delete_owner_row add_fact governance_fact
      delete_owned_rows delete_companion_rows break_owned_pointers
  delete_owner_tables env db db' owner result found ran =
      (ground arith, ground arith, ground arith, ground arith)

-- what a deletion reports of some tables, and what is left of them
abbrev pub AddsUp : OwnerDeletedRows → Db → Db → Type 0
AddsUp n db db' =
    (length db'.memory_realms + n.memory_realms ≡ length db.memory_realms)
    × (length db'.owner_face_profile_revisions + n.owner_face_profile_revisions
        ≡ length db.owner_face_profile_revisions)
    × (length db'.owner_face_references + n.owner_face_references ≡ length db.owner_face_references)

-- When an Owner that is there is deleted, no row of any modelled table but the audit outbox has it as
-- its Owner any more, nor one of its Companions as its Companion or default Companion, nor one of its
-- face profiles as its profile; the outbox has one row more, the fact of the deletion; and the report
-- counts the memory realms, face profiles and face references that went. This holds if, as their
-- foreign keys demand, each team revision has its team and each team start its revision.
pub delete_owner-IsOwnerGone :
    (env : Env) (o : String) (db db' : Db) (owner : OwnerRow) (result : OwnerDeletionResult)
    → HasTeamKeys db
    → find (has_owner_id o) db.owners ≡ some owner
    → delete_owner env o db ≡ ok (result, db')
    → IsOwnerGone o (companions_of o db) (profiles_of o db) db'
      × (db'.audit_outbox
          ≡ db.audit_outbox ++ deleted_fact env o (realms_of o db) (count_owned_rows o db) ∷ [])
      × (n : OwnerDeletedRows) × (result.deleted_rows ≡ some n)
      × AddsUp n db db'
unfolding delete_owned_rows delete_companion_rows break_owned_pointers
delete_owner-IsOwnerGone env o db db' owner result keys found ran =
    let (counted, no_team, tables, recorded) =
      delete_owner_tables o env db db' owner result found ran in
    let s = break_owned_pointers o db in
    let realms : length db'.memory_realms ≡ length (delete_where (is_realm_of o) db.memory_realms) =
      ap (λ d. length d.memory_realms) tables in
    let profiles : length db'.owner_face_profile_revisions
        ≡ length (delete_where (is_profile_of o) db.owner_face_profile_revisions) =
      ap (λ d. length d.owner_face_profile_revisions) tables in
    let references : length db'.owner_face_references
        ≡ length (
            delete_where (λ r. mem r.profile_revision_id (profiles_of o db))
              db.owner_face_references) =
      ap (λ d. length d.owner_face_references) tables in
    let there =
      subst (IsOwnerGone o (companions_of o s) (profiles_of o db)) (sym tables)
        (IsOwnerGone-delete_owned_rows o s no_team keys) in
    (
      subst (λ ids. IsOwnerGone o ids (profiles_of o db) db') (same_companions o db.companions)
          there,
      recorded,
      count_owned_rows o db,
      counted,
      (
        ground (
          arith,
          length-delete_where (is_realm_of o) db.memory_realms,
          length-select_where (is_realm_of o) db.memory_realms,
          length-map (λ r. r.realm_id) (select_where (is_realm_of o) db.memory_realms),
        ),
        ground (arith, length-delete_where (is_profile_of o) db.owner_face_profile_revisions),
        ground (
          arith,
          length-delete_where (λ r. mem r.profile_revision_id (profiles_of o db))
              db.owner_face_references,
          length-select_where (λ r. mem r.profile_revision_id (profiles_of o db))
              db.owner_face_references,
        ),
      ),
    )

-- An Owner with a team, be it a deleted one, cannot be deleted: the call always fails with the
-- IntegrityError of the foreign key of `teams`.
pub delete_owner-err_of_team :
    (env : Env) (o : String) (db : Db) (owner : OwnerRow)
    → find (has_owner_id o) db.owners ≡ some owner
    → exists_where (is_team_of o) db.teams ≡ true
    → delete_owner env o db ≡ err OwnerDeletionError.integrity_error
unfolding delete_owner delete_found_owner delete_owner_row break_owned_pointers
delete_owner-err_of_team env o db owner found team = ground arith
