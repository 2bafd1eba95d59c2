-- ===== src/Deletion/Companions.antt =====
-- `CompanionDeletionService.delete_companion`.
use eidolon_data.Prelude.{
  ℕ, ◌+◌, String, Bool, false, not, ◌&&◌, Option, none, some, List, [], ◌∷◌, ◌++◌, if◌then◌else◌,
  ◌==◌, ◌!=◌, length, num, obj, JsonDict, to_fields, find, select_where, update_where, count_where,
  Tx, pure, gets, or_raise, raise_if, modify, ◌>>=◌, ◌>>◌, is_empty, string_eq, option_eq, nat_eq,
}
use eidolon_data.Schema.{Db, Env, CompanionFaceAssetRow, OwnerRow, CompanionRow, GuardBindingRow}
use eidolon_data.Audit.Row.{details, governance_fact}
use eidolon_data.Audit.Facts.{add_fact}
use eidolon_data.Personas.Genomes.{has_companion_id, is_genome_of}
use eidolon_data.Faces.Assets.{is_face_of}
use eidolon_data.Deletion.Cascades.{delete_companion_rows, has_owner_id}

-- `CompanionDeletionError`, by its two messages, and the IntegrityError
pub data CompanionDeletionError : Type 0 where
  companion_not_found default_refused integrity_error : CompanionDeletionError

-- `deleted_rows`
pub record DeletedRows : Type 0 where
  pub companions : ℕ
  pub persona_genomes : ℕ
  pub companion_face_assets : ℕ
  pub guard_bindings : ℕ

pub record CompanionDeletionResult : Type 0 where
  pub owner_id : String
  pub companion_id : String
  pub face_asset_storage_keys : List String
  pub deleted_rows : DeletedRows

abbrev some_key : Option String → List String
some_key none = []
some_key (some key) = if is_empty key then [] else key ∷ []

-- `key for cond_key, idle_key in face_rows for key in (cond_key, idle_key) if key`
abbrev pub storage_keys : List CompanionFaceAssetRow → List String
storage_keys [] = []
storage_keys (a ∷ faces) =
    some_key (some a.cond_storage_key) ++ some_key a.idle_storage_key ++ storage_keys faces

abbrev pub deleted_json : DeletedRows → JsonDict
deleted_json n =
    ("companions", num n.companions)
    ∷ ("persona_genomes", num n.persona_genomes)
    ∷ ("companion_face_assets", num n.companion_face_assets)
    ∷ ("guard_bindings", num n.guard_bindings)
    ∷ []

abbrev pub is_default_of : String → Option OwnerRow → Bool
is_default_of companion_id none = false
is_default_of companion_id (some owner) = owner.default_companion_id == some companion_id

abbrev pub is_guard_of : String → GuardBindingRow → Bool
is_guard_of companion_id b = b.guard_companion_id == companion_id

abbrev pub count_rows : String → Db → DeletedRows
count_rows companion_id db = record {
  companions = 1;
  persona_genomes = count_where (is_genome_of companion_id) db.persona_genomes;
  companion_face_assets = length (select_where (is_face_of companion_id) db.companion_face_assets);
  guard_bindings = count_where (is_guard_of companion_id) db.guard_bindings;
}

abbrev pub no_default : OwnerRow → OwnerRow
no_default o = record o { default_companion_id = none; revision = o.revision + 1 }

abbrev pub no_pointers : CompanionRow → CompanionRow
no_pointers c = record c { current_genome_id = none; default_memory_realm_id = none }

-- the assignments before the DELETE, and their flush
unfoldable pub break_pointers : String → String → Bool → Db → Db
break_pointers owner_id companion_id is_default db = record db {
  owners =
      if is_default then update_where (has_owner_id owner_id) no_default db.owners else db.owners;
  companions = update_where (has_companion_id companion_id) no_pointers db.companions;
}

unfoldable pub delete_companion :
    Env → String → String → Bool → Tx Db CompanionDeletionError CompanionDeletionResult
delete_companion env owner_id companion_id allow_default = do
  found ← gets (λ db. find (has_companion_id companion_id) db.companions)
  companion ← or_raise found companion_not_found
  raise_if (companion.owner_id != owner_id) companion_not_found
  owner ← gets (λ db. find (has_owner_id owner_id) db.owners)
  raise_if (is_default_of companion_id owner && not allow_default) default_refused
  faces ← gets (λ db. select_where (is_face_of companion_id) db.companion_face_assets)
  deleted_rows ← gets (count_rows companion_id)
  modify (break_pointers owner_id companion_id (is_default_of companion_id owner))
  modify (delete_companion_rows (companion_id ∷ []))
  add_fact integrity_error (
      governance_fact env 0 owner_id "companion" companion_id "companion.deleted" (record details {
        payload = some (("deleted_rows", obj (to_fields (deleted_json deleted_rows))) ∷ []);
      }))
  pure (record {
    owner_id = owner_id;
    companion_id = companion_id;
    face_asset_storage_keys = storage_keys faces;
    deleted_rows = deleted_rows;
  })
