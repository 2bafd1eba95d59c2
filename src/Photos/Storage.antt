-- ===== src/Photos/Storage.antt =====
-- services/object_storage.py, as its callers see it: files by their keys. Every key that is put here
-- is a safe relative path. Of the file system it takes how it answers: the operations of the OS that
-- `put` and `delete` make may raise an OSError. A file that is there can be read.
use eidolon_data.Prelude.{
  ℕ, String, Bool, true, false, Option, none, some, List, ◌∷◌, if◌then◌else◌, ◌==◌, find,
  delete_where, string_eq, option_eq, nat_eq,
}

pub record StoredObject (B : Type 0) : Type 0 where
  pub key : String
  pub content : B

-- How a `put` goes: the file is there, or an OSError is raised before or after `os.replace`.
pub data PutAnswer : Type 0 where
  put_done put_refused put_late : PutAnswer

-- What the file system answers during one call.
pub record Disk : Type 0 where
  pub put_answer : String → PutAnswer
  pub delete_raises : String → Bool

module _ {B : Type 0} where
  abbrev pub has_key : String → StoredObject B → Bool
  has_key key o = o.key == key

  -- `delete`, which is quiet about a missing file: whether it raises, and the files after it
  unfoldable pub delete_object :
      Disk → String → List (StoredObject B) → Bool × List (StoredObject B)
  delete_object disk key objects =
      if disk.delete_raises key
      then (true, objects)
      else (false, delete_where (has_key key) objects)

  abbrev replace_object : String → B → List (StoredObject B) → List (StoredObject B)
  replace_object key content objects =
      record { key = key; content = content } ∷ delete_where (has_key key) objects

  -- `put`, which replaces the file and refuses empty content: whether it raises, and the files
  unfoldable pub put_object :
      Disk → (B → ℕ) → String → B → List (StoredObject B) → Bool × List (StoredObject B)
  put_object disk size key content objects =
      if size content == 0 then (true, objects) else elim (disk.put_answer key) [
        | put_done ↦ (false, replace_object key content objects)
        | put_refused ↦ (true, objects)
        | put_late ↦ (true, replace_object key content objects)
      ]

  -- `get`: `none` for a file that is not there
  unfoldable pub get_object : String → List (StoredObject B) → Option B
  get_object key objects = elim (find (has_key key) objects) [
    | none ↦ none
    | some o ↦ some o.content
  ]
