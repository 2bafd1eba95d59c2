-- ===== src/Faces/Assets.antt =====
-- `CompanionFaceAssetsRepository`: each method is one transaction, which a raise rolls back.
use eidolon_data.Prelude.{
  ℕ, ◌+◌, max, String, Bool, true, false, not, ◌&&◌, ◌||◌, Option, none, some, List, [], ◌∷◌, ◌++◌,
  if◌then◌else◌, ◌==◌, ◌!=◌, ℤ, pos_part, ltb_ℤ, num, str, JsonDict, find, select_where,
  update_where, exists_where, order_by_desc, Tx, pure, gets, or_raise, raise_if, modify, ◌>>=◌,
  ◌>>◌, ◌⧺◌, or_value, is_empty, codes, nat_eq, string_eq, option_eq,
}
use eidolon_data.Schema.{
  Db, Env, AssetState, IdleStatus, unset, ready, CompanionFaceAssetRow, asset_active,
  AuditOutboxRow,
}
use eidolon_data.Audit.Row.{details, governance_fact}
use eidolon_data.Audit.Facts.{add_fact}
use eidolon_data.Faces.StoredFile.{matches_sha256, is_safe_key}

pub data FaceError : Type 0 where
  not_jpeg size_not_positive invalid_sha256 unsafe_storage_key : FaceError
  companion_not_found changed_concurrently unsupported_idle_status asset_not_found : FaceError
  integrity_error : FaceError

abbrev pub FaceCall : Type 0 → Type 0
FaceCall A = Tx Db FaceError A

-- the checks that `set_face` and `set_idle_clip` share
unfoldable pub validate_file : ℤ → String → String → FaceCall (Unit {0})
validate_file size_bytes sha256 storage_key = do
  raise_if (ltb_ℤ size_bytes 1) size_not_positive
  raise_if (not (matches_sha256 (codes sha256))) invalid_sha256
  raise_if (not (is_safe_key (codes storage_key))) unsafe_storage_key

-- `_validate_asset_inputs`
unfoldable pub validate_asset_inputs : String → ℤ → String → String → FaceCall (Unit {0})
unfolding validate_file
validate_asset_inputs content_type size_bytes sha256 storage_key = do
  raise_if (content_type != "image/jpeg") not_jpeg
  validate_file size_bytes sha256 storage_key

-- The keyword arguments of `set_face`.
pub record FaceInput : Type 0 where
  pub cond_storage_key : String
  pub cond_content_type : String
  pub cond_size_bytes : ℤ
  pub cond_sha256 : String
  pub width : Option ℤ
  pub height : Option ℤ
  pub source : String
  pub meta : Option JsonDict

abbrev pub is_face_of : String → CompanionFaceAssetRow → Bool
is_face_of companion_id row = row.companion_id == companion_id

abbrev pub is_active_face_of : String → CompanionFaceAssetRow → Bool
is_active_face_of companion_id row = is_face_of companion_id row && asset_active row.state

abbrev pub set_superseded : ℕ → CompanionFaceAssetRow → CompanionFaceAssetRow
set_superseded now row = record row { state = AssetState.superseded; updated_at = now }

-- `int(max(version) or 0)`
unfoldable pub max_version : String → List CompanionFaceAssetRow → ℕ
max_version companion_id [] = 0
max_version companion_id (row ∷ rows) =
    let rest = max_version companion_id rows in
    if is_face_of companion_id row then max row.version rest else rest

abbrev pub new_asset : Env → String → String → FaceInput → ℕ → CompanionFaceAssetRow
new_asset env companion_id owner_id f version = record {
  face_asset_id = "cfa_" ⧺ env.uuid 1;
  companion_id = companion_id;
  owner_id = owner_id;
  version = version;
  state = AssetState.active;
  source = f.source;
  cond_storage_key = f.cond_storage_key;
  cond_content_type = f.cond_content_type;
  cond_size_bytes = pos_part f.cond_size_bytes;
  cond_sha256 = f.cond_sha256;
  width = f.width;
  height = f.height;
  idle_status = unset;
  idle_storage_key = none;
  idle_content_type = none;
  idle_size_bytes = none;
  idle_sha256 = none;
  idle_error = none;
  meta_json = or_value f.meta [];
  created_at = env.now;
  updated_at = env.now;
}

-- the primary key and the unique indexes that an active row can violate
abbrev pub asset_clashes : CompanionFaceAssetRow → CompanionFaceAssetRow → Bool
asset_clashes new row =
    row.face_asset_id == new.face_asset_id
    || row.cond_storage_key == new.cond_storage_key
    || row.companion_id == new.companion_id
      && (row.version == new.version || asset_active row.state)

-- `session.add` and the flush; the foreign keys hold, since the Companion has been loaded
unfoldable pub add_asset : CompanionFaceAssetRow → FaceCall (Unit {0})
add_asset new = do
  raise_if (← gets (λ db. exists_where (asset_clashes new) db.companion_face_assets))
      changed_concurrently
  modify (λ db. record db { companion_face_assets = db.companion_face_assets ++ new ∷ [] })

abbrev pub asset_fact : Env → CompanionFaceAssetRow → String → JsonDict → AuditOutboxRow
asset_fact env row action payload =
    governance_fact env 0 row.owner_id "companion_face_asset" row.face_asset_id action
      (record details { data_classification = "sensitive"; payload = some payload })

abbrev pub version_payload : CompanionFaceAssetRow → String → JsonDict
version_payload row sha256 =
    ("companion_id", str row.companion_id)
    ∷ ("version", num row.version)
    ∷ ("sha256", str sha256)
    ∷ []

-- the UPDATE that supersedes the current face
unfoldable pub supersede : Env → String → FaceCall (Unit {0})
supersede env companion_id = modify (λ db. record db {
  companion_face_assets =
      update_where (is_active_face_of companion_id) (set_superseded env.now)
        db.companion_face_assets;
})

unfoldable pub set_face : Env → String → FaceInput → FaceCall CompanionFaceAssetRow
unfolding validate_asset_inputs add_asset supersede max_version
set_face env companion_id f = do
  validate_asset_inputs f.cond_content_type f.cond_size_bytes f.cond_sha256 f.cond_storage_key
  found ← gets (λ db. find (λ c. c.companion_id == companion_id) db.companions)
  companion ← or_raise found companion_not_found
  supersede env companion_id
  latest ← gets (λ db. max_version companion_id db.companion_face_assets)
  let row = new_asset env companion_id companion.owner_id f (latest + 1)
  add_asset row
  add_fact changed_concurrently
      (asset_fact env row "companion.face_asset.activated" (version_payload row f.cond_sha256))
  pure row

abbrev pub has_asset_id : String → CompanionFaceAssetRow → Bool
has_asset_id face_asset_id row = row.face_asset_id == face_asset_id

-- The attributes of a loaded row are set, and written at the commit.
unfoldable pub write_asset :
    String → (CompanionFaceAssetRow → CompanionFaceAssetRow) → FaceCall (Unit {0})
write_asset face_asset_id f = modify (λ db. record db {
  companion_face_assets = update_where (has_asset_id face_asset_id) f db.companion_face_assets;
})

unfoldable pub load_asset : String → FaceCall CompanionFaceAssetRow
load_asset face_asset_id = do
  found ← gets (λ db. find (has_asset_id face_asset_id) db.companion_face_assets)
  or_raise found asset_not_found

-- `status not in {"none", "pending", "generating", "failed"}`, for the values of the column
abbrev pub is_settable : IdleStatus → Bool
is_settable ready = false
is_settable _ = true

abbrev pub set_idle : ℕ → IdleStatus → Option String → CompanionFaceAssetRow → CompanionFaceAssetRow
set_idle now status message row = record row {
  idle_status = status;
  idle_error = message;
  updated_at = now;
}

unfoldable pub set_idle_status : Env → String → IdleStatus → Option String → FaceCall (Unit {0})
set_idle_status env face_asset_id status message = do
  raise_if (not (is_settable status)) unsupported_idle_status
  row ← load_asset face_asset_id
  write_asset face_asset_id (set_idle env.now status message)

abbrev pub set_clip :
    ℕ → String → String → ℤ → String → CompanionFaceAssetRow → CompanionFaceAssetRow
set_clip now storage_key content_type size_bytes sha256 row = record row {
  idle_status = ready;
  idle_storage_key = some storage_key;
  idle_content_type = some content_type;
  idle_size_bytes = some (pos_part size_bytes);
  idle_sha256 = some sha256;
  idle_error = none;
  updated_at = now;
}

-- another row has the clip's key, which is unique
abbrev pub takes_key : String → String → CompanionFaceAssetRow → Bool
takes_key face_asset_id storage_key row =
    row.idle_storage_key == some storage_key && row.face_asset_id != face_asset_id

unfoldable pub set_idle_clip :
    Env → String → String → String → ℤ → String → FaceCall CompanionFaceAssetRow
set_idle_clip env face_asset_id storage_key content_type size_bytes sha256 = do
  validate_file size_bytes sha256 storage_key
  row ← load_asset face_asset_id
  raise_if
      (← gets (λ db. exists_where (takes_key face_asset_id storage_key) db.companion_face_assets))
      integrity_error
  let changed = set_clip env.now storage_key content_type size_bytes sha256 row
  write_asset face_asset_id (set_clip env.now storage_key content_type size_bytes sha256)
  add_fact integrity_error (
      asset_fact env changed "companion.face_asset.idle_clip_ready"
        (version_payload changed sha256))
  pure changed

-- `clear`; whether there was a face
unfoldable pub clear_face : Env → CompanionFaceAssetRow → FaceCall Bool
clear_face env row = do
  write_asset row.face_asset_id (set_superseded env.now)
  add_fact integrity_error (
      asset_fact env row "companion.face_asset.cleared"
        (("companion_id", str row.companion_id) ∷ ("version", num row.version) ∷ []))
  pure true

unfoldable pub clear : Env → String → FaceCall Bool
unfolding clear_face
clear env companion_id = do
  found ← gets (λ db. find (is_active_face_of companion_id) db.companion_face_assets)
  elim found [ none ↦ pure false | some row ↦ clear_face env row ]

-- The reads.
unfoldable pub get_active : String → Db → Option CompanionFaceAssetRow
get_active companion_id db = find (is_active_face_of companion_id) db.companion_face_assets

unfoldable pub get : String → Db → Option CompanionFaceAssetRow
get face_asset_id db = find (has_asset_id face_asset_id) db.companion_face_assets

unfoldable pub list_for_companion : String → Db → List CompanionFaceAssetRow
list_for_companion companion_id db =
    order_by_desc (λ r. r.version) (select_where (is_face_of companion_id) db.companion_face_assets)

-- `if idle_key: keys.append(idle_key)`
abbrev idle_keys : Option String → List String
idle_keys none = []
idle_keys (some key) = if is_empty key then [] else key ∷ []

abbrev keys_of : List CompanionFaceAssetRow → List String
keys_of [] = []
keys_of (row ∷ rows) = row.cond_storage_key ∷ (idle_keys row.idle_storage_key ++ keys_of rows)

unfoldable pub list_storage_keys_for_companion : String → Db → List String
list_storage_keys_for_companion companion_id db =
    keys_of (select_where (is_face_of companion_id) db.companion_face_assets)
