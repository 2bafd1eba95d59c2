-- ===== src/Photos/Faces.antt =====
-- `PersonFaces`, with `_owner`, `_person` and `_audit` of services/persons.py.
use eidolon_data.Prelude.{
  ℕ, ◌+◌, String, Bool, true, false, not, ◌&&◌, ◌||◌, Option, none, some, List, [], ◌∷◌, ◌++◌,
  if◌then◌else◌, ◌==◌, ◌!=◌, num, find, update_where, exists_where, Result, ok, err, Tx, pure, gets,
  or_raise, raise_if, modify, ◌>>=◌, ◌>>◌, ◌⧺◌, is_empty, string_eq, option_eq, nat_eq,
}
use eidolon_data.Schema.{Db, Env, owner_active, PersonRow, person_active, PersonFaceRow}
use eidolon_data.Audit.Row.{details, governance_fact}
use eidolon_data.Audit.Facts.{add_fact}
use eidolon_data.Deletion.Cascades.{has_owner_id}
use eidolon_data.Photos.Images.{ImageSdk, normalize_image}
use eidolon_data.Photos.Storage.{StoredObject, Disk, delete_object, put_object, get_object}

pub data PhotoError : Type 0 where
  owner_not_found person_not_found person_inactive face_changed : PhotoError
  face_invalid storage_error integrity_error : PhotoError

abbrev pub PhotoCall : Type 0 → Type 0
PhotoCall A = Tx Db PhotoError A

abbrev pub has_person_id : String → PersonRow → Bool
has_person_id person_id p = p.person_id == person_id

abbrev pub is_face_of_person : String → PersonFaceRow → Bool
is_face_of_person person_id row = row.person_id == person_id

-- `Persons._owner`
unfoldable pub require_active_owner : String → PhotoCall (Unit {0})
require_active_owner owner_id = do
  found ← gets (λ db. find (has_owner_id owner_id) db.owners)
  owner ← or_raise found owner_not_found
  raise_if (not (owner_active owner.status)) owner_not_found

-- `Persons._person`
unfoldable pub load_person : String → String → PhotoCall PersonRow
unfolding require_active_owner
load_person owner_id person_id = do
  require_active_owner owner_id
  found ← gets (λ db. find (has_person_id person_id) db.persons)
  subject ← or_raise found person_not_found
  raise_if (subject.owner_id != owner_id || subject.deleted) person_not_found
  pure subject

abbrev pub find_face : String → Db → Option PersonFaceRow
find_face person_id db = find (is_face_of_person person_id) db.person_face_profiles

abbrev pub face_revision : Option PersonFaceRow → ℕ
face_revision none = 0
face_revision (some row) = row.revision

abbrev pub face_key : Option PersonFaceRow → Option String
face_key none = none
face_key (some row) = row.storage_key

abbrev pub face_digest : Option PersonFaceRow → Option String
face_digest none = none
face_digest (some row) = row.sha256

-- `PersonFaceState` and `PersonFaceImage`
pub record PersonFaceState : Type 0 where
  pub person_id : String
  pub revision : ℕ
  pub has_image : Bool
  pub sha256 : Option String

pub record PersonFaceImage : Type 0 where
  pub revision : ℕ
  pub image_base64 : Option String

-- `bool(row and row.storage_key)`
abbrev pub has_text : Option String → Bool
has_text none = false
has_text (some s) = not (is_empty s)

-- `_state`
abbrev pub face_state : String → Option PersonFaceRow → PersonFaceState
face_state person_id row = record {
  person_id = person_id;
  revision = face_revision row;
  has_image = has_text (face_key row);
  sha256 = face_digest row;
}

unfoldable pub state : String → String → PhotoCall PersonFaceState
unfolding load_person
state owner_id person_id = do
  subject ← load_person owner_id person_id
  gets (λ db. face_state person_id (find_face person_id db))

-- the tests of `_change`
unfoldable pub check_change : String → String → ℕ → Bool → PhotoCall PersonRow
unfolding load_person
check_change owner_id person_id expected_revision has_data = do
  subject ← load_person owner_id person_id
  raise_if (has_data && not (person_active subject.status)) person_inactive
  raise_if (← gets (λ db. face_revision (find_face person_id db) != expected_revision)) face_changed
  pure subject

-- the changed row
abbrev pub changed_face :
    String → String → Option String → Option String → Option PersonFaceRow → PersonFaceRow
changed_face owner_id person_id key digest row = record {
  person_id = person_id;
  owner_id = elim row [ none ↦ owner_id | some old ↦ old.owner_id ];
  revision = face_revision row + 1;
  storage_key = key;
  sha256 = digest;
  model_id = none;
  preprocessing_version = none;
  feature_schema_version = none;
  features_json = none;
}

-- the unique constraint on `storage_key`
abbrev pub key_clashes : PersonFaceRow → PersonFaceRow → Bool
key_clashes new row =
    not (row.person_id == new.person_id)
    && elim new.storage_key [ none ↦ false | some key ↦ row.storage_key == some key ]

-- UPDATE of the row, or INSERT of a new one
unfoldable pub store_face : PersonFaceRow → List PersonFaceRow → List PersonFaceRow
store_face new rows =
    if exists_where (is_face_of_person new.person_id) rows
    then update_where (is_face_of_person new.person_id) (λ r. new) rows
    else rows ++ new ∷ []

-- the flush of the row and of the fact
unfoldable pub write_face : Env → PersonRow → Bool → PersonFaceRow → PhotoCall (Unit {0})
write_face env subject has_data new = do
  raise_if (← gets (λ db. exists_where (key_clashes new) db.person_face_profiles)) integrity_error
  modify (λ db. record db { person_face_profiles = store_face new db.person_face_profiles })
  add_fact integrity_error (
      governance_fact env 0 subject.owner_id "person" subject.person_id
        (if has_data then "person.face_saved" else "person.face_deleted")
        (record details { payload = some (("revision", num subject.revision) ∷ []) }))

-- the key of a new file
abbrev pub new_key : Env → String
new_key env = "person-faces/" ⧺ env.uuid 1 ⧺ ".jpg"

-- The database and the object store.
pub record World (B : Type 0) : Type 0 where
  pub db : Db
  pub objects : List (StoredObject B)

module _ (sdk : ImageSdk) where
  open sdk use {Bytes, size, encode, sha256}

  abbrev pub Answer : Type 0
  Answer = Result PhotoError PersonFaceState × World Bytes

  -- the `except` block: the new file goes again, and `e` is raised unless that raises
  unfoldable pub undo_put : Disk → String → PhotoError → World Bytes → Answer
  undo_put disk key e w =
      let (raised, objects) = delete_object disk key w.objects in
      (err (if raised then storage_error else e), record w { objects = objects })

  -- after the transaction: the old file goes
  unfoldable pub drop_old : Disk → Option String → PersonFaceState → World Bytes → Answer
  drop_old disk none answer w = (ok answer, w)
  drop_old disk (some key) answer w =
      let (raised, objects) = delete_object disk key w.objects in
      if is_empty key
      then (ok answer, w)
      else (if raised then err storage_error else ok answer, record w { objects = objects })

  -- `_change` from the put of a new file on
  unfoldable pub change_photo : Disk → Env → String → PersonRow → Bytes → World Bytes → Answer
  change_photo disk env owner_id subject content w =
      let key = new_key env in
      let row = find_face subject.person_id w.db in
      let new = changed_face owner_id subject.person_id (some key) (some (sha256 content)) row in
      let (raised, objects) = put_object disk size key content w.objects in
      if raised
      then undo_put disk key storage_error (record w { objects = objects })
      else elim (write_face env subject true new w.db) [
        | err e ↦ undo_put disk key e (record w { objects = objects })
        | ok (u, db) ↦
            drop_old disk (face_key row) (face_state subject.person_id (some new))
              (record { db = db; objects = objects })
      ]

  -- `_change` without a new file
  unfoldable pub remove_photo : Disk → Env → String → PersonRow → World Bytes → Answer
  remove_photo disk env owner_id subject w =
      let row = find_face subject.person_id w.db in
      let new = changed_face owner_id subject.person_id none none row in
      elim (write_face env subject false new w.db) [
        | err e ↦ (err e, w)
        | ok (u, db) ↦
            drop_old disk (face_key row) (face_state subject.person_id (some new))
              (record { db = db; objects = w.objects })
      ]

  unfoldable pub replace : Disk → Env → String → String → ℕ → String → World Bytes → Answer
  replace disk env owner_id person_id expected_revision image_base64 w =
      elim (state owner_id person_id w.db) [
        | err e ↦ (err e, w)
        | ok (s, db) ↦ elim (normalize_image sdk image_base64) [
          | none ↦ (err face_invalid, w)
          | some content ↦ elim (check_change owner_id person_id expected_revision true w.db) [
            | err e ↦ (err e, w)
            | ok (subject, db') ↦ change_photo disk env owner_id subject content w
          ]
        ]
      ]

  unfoldable pub delete_photo : Disk → Env → String → String → ℕ → World Bytes → Answer
  delete_photo disk env owner_id person_id expected_revision w =
      elim (check_change owner_id person_id expected_revision false w.db) [
        | err e ↦ (err e, w)
        | ok (subject, db) ↦ remove_photo disk env owner_id subject w
      ]

  -- the file of a row; `none` when the key names none, which raises
  abbrev pub read_file : Option String → List (StoredObject Bytes) → Option (Option String)
  read_file none objects = some none
  read_file (some key) objects = if is_empty key then some none else elim (get_object key objects) [
    | none ↦ none
    | some content ↦ some (if size content == 0 then none else some (encode content))
  ]

  unfoldable pub image : String → String → World Bytes → Result PhotoError PersonFaceImage
  image owner_id person_id w = elim (load_person owner_id person_id w.db) [
    | err e ↦ err e
    | ok (subject, db) ↦
        let row = find_face person_id w.db in
        elim (read_file (face_key row) w.objects) [
          | none ↦ err storage_error
          | some text ↦ ok (record { revision = face_revision row; image_base64 = text })
        ]
  ]
