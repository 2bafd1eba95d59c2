-- ===== src/Deletion/Owners.antt =====
-- `OwnerDeletionService.delete_owner`.
use eidolon_data.Prelude.{
  ℕ, String, Bool, true, false, Option, none, some, List, [], ◌∷◌, ◌++◌, map, ◌==◌, length, num,
  str, arr, obj, Items, nil, cons, JsonDict, to_fields, find, select_where, update_where,
  count_where, mem, Tx, pure, gets, modify, ◌>>=◌, ◌>>◌, string_eq, option_eq, nat_eq,
}
use eidolon_data.Schema.{
  Db, Env, CompanionFaceAssetRow, OwnerFaceReferenceRow, AuditOutboxRow, PersonFaceRow,
}
use eidolon_data.Audit.Row.{details, governance_fact}
use eidolon_data.Audit.Facts.{add_fact}
use eidolon_data.Deletion.Cascades.{
  is_genome_in, has_owner_id, is_companion_of, is_profile_of, companions_of, realms_of, profiles_of,
  delete_owner_row,
}
use eidolon_data.Deletion.Companions.{storage_keys, no_pointers}

-- the IntegrityError of the database
pub data OwnerDeletionError : Type 0 where
  integrity_error : OwnerDeletionError

pub record OwnerDeletedRows : Type 0 where
  pub owners : ℕ
  pub companions : ℕ
  pub persona_genomes : ℕ
  pub memory_realms : ℕ
  pub companion_face_assets : ℕ
  pub guard_bindings : ℕ
  pub owner_face_profile_revisions : ℕ
  pub owner_face_references : ℕ

pub record OwnerDeletionResult : Type 0 where
  pub owner_id : String
  pub deleted : Bool
  pub realm_ids : List String
  pub object_storage_keys : List String
  -- an empty dict, when there was no Owner
  pub deleted_rows : Option OwnerDeletedRows

-- `_count_persona_genomes`
abbrev pub count_persona_genomes : List String → Db → ℕ
count_persona_genomes [] db = 0
count_persona_genomes (i ∷ ids) db = count_where (is_genome_in (i ∷ ids)) db.persona_genomes

-- the references of the Owner's profiles, by the JOIN
abbrev pub face_references_of : String → Db → List OwnerFaceReferenceRow
face_references_of owner_id db =
    select_where (λ r. mem r.profile_revision_id (profiles_of owner_id db)) db.owner_face_references

abbrev pub person_keys : List PersonFaceRow → List String
person_keys [] = []
person_keys (p ∷ faces) = elim p.storage_key [
  | none ↦ person_keys faces
  | some key ↦ key ∷ person_keys faces
]

abbrev pub faces_of : String → Db → List CompanionFaceAssetRow
faces_of owner_id db = select_where (λ a. a.owner_id == owner_id) db.companion_face_assets

abbrev pub object_keys : String → Db → List String
object_keys owner_id db =
    storage_keys (faces_of owner_id db)
    ++ map (λ r. r.storage_key) (face_references_of owner_id db)
    ++ person_keys (select_where (λ p. p.owner_id == owner_id) db.person_face_profiles)

abbrev pub count_owned_rows : String → Db → OwnerDeletedRows
count_owned_rows owner_id db = record {
  owners = 1;
  companions = length (companions_of owner_id db);
  persona_genomes = count_persona_genomes (companions_of owner_id db) db;
  memory_realms = length (realms_of owner_id db);
  companion_face_assets = length (faces_of owner_id db);
  guard_bindings = count_where (λ b. b.owner_id == owner_id) db.guard_bindings;
  owner_face_profile_revisions =
      count_where (is_profile_of owner_id) db.owner_face_profile_revisions;
  owner_face_references = length (face_references_of owner_id db);
}

abbrev owned_json : OwnerDeletedRows → JsonDict
owned_json n =
    ("owners", num n.owners)
    ∷ ("companions", num n.companions)
    ∷ ("persona_genomes", num n.persona_genomes)
    ∷ ("memory_realms", num n.memory_realms)
    ∷ ("companion_face_assets", num n.companion_face_assets)
    ∷ ("guard_bindings", num n.guard_bindings)
    ∷ ("owner_face_profile_revisions", num n.owner_face_profile_revisions)
    ∷ ("owner_face_references", num n.owner_face_references)
    ∷ []

abbrev str_items : List String → Items
str_items [] = nil
str_items (s ∷ texts) = cons (str s) (str_items texts)

-- the pointers of the Owner's Companions are cleared, and flushed
unfoldable pub break_owned_pointers : String → Db → Db
break_owned_pointers owner_id db = record db {
  companions = update_where (is_companion_of owner_id) no_pointers db.companions;
}

abbrev pub deleted_fact : Env → String → List String → OwnerDeletedRows → AuditOutboxRow
deleted_fact env owner_id realm_ids deleted_rows =
    governance_fact env 0 owner_id "owner" owner_id "owner.deleted" (record details {
      payload = some (
          ("realm_ids", arr (str_items realm_ids))
          ∷ ("deleted_rows", obj (to_fields (owned_json deleted_rows)))
          ∷ []);
    })

-- `delete_owner`, of an Owner that is there
unfoldable pub delete_found_owner : Env → String → Tx Db OwnerDeletionError OwnerDeletionResult
delete_found_owner env owner_id = do
  realm_ids ← gets (realms_of owner_id)
  keys ← gets (object_keys owner_id)
  deleted_rows ← gets (count_owned_rows owner_id)
  modify (break_owned_pointers owner_id)
  delete_owner_row integrity_error owner_id
  add_fact integrity_error (deleted_fact env owner_id realm_ids deleted_rows)
  pure (record {
    owner_id = owner_id;
    deleted = true;
    realm_ids = realm_ids;
    object_storage_keys = keys;
    deleted_rows = some deleted_rows;
  })

unfoldable pub delete_owner : Env → String → Tx Db OwnerDeletionError OwnerDeletionResult
delete_owner env owner_id = do
  found ← gets (λ db. find (has_owner_id owner_id) db.owners)
  elim found [
    | none ↦ pure (record {
      owner_id = owner_id;
      deleted = false;
      realm_ids = [];
      object_storage_keys = [];
      deleted_rows = none;
    })
    | some owner ↦ delete_found_owner env owner_id
  ]
