-- ===== src/Photos/Undo.antt =====
-- What `replace` may leave, and the `except` block of `_change`.
use eidolon_data.Photos.Images.{ImageSdk, normalize_image}
use eidolon_data.Prelude.{
  ℕ, ◌+◌, String, subst, ◌≡◌, refl, sym, ◌⊎◌, inl, inr, true, false, Option, none, some, List, ◌∷◌,
  arith, if◌then◌else◌, ==-refl, Bool-cases, delete_where, exists_where, ok, err, is_empty,
  string_eq, option_eq, nat_eq,
}
use eidolon_data.Schema.{Env}
use eidolon_data.Photos.Storage.{
  StoredObject, PutAnswer, put_done, put_refused, put_late, Disk, has_key, delete_object,
}
use eidolon_data.Photos.Faces.{
  PhotoError, storage_error, find_face, face_revision, face_key, PersonFaceState, new_key, World,
  Answer, undo_put, image,
}
use eidolon_data.Photos.Effects.{delete-missing}

-- what deleting the old file leaves
abbrev pub without : {B : Type 0} → Option String → List (StoredObject B) → List (StoredObject B)
without none objects = objects
without (some key) objects = if is_empty key then objects else delete_where (has_key key) objects

abbrev pub new_file : {B : Type 0} → Env → B → StoredObject B
new_file env content = record { key = new_key env; content = content }

pub PutAnswer-cases :
    (answer : PutAnswer) → (answer ≡ put_refused) ⊎ ((answer ≡ put_late) ⊎ (answer ≡ put_done))
PutAnswer-cases put_done = inr (inr refl)
PutAnswer-cases put_refused = inl refl
PutAnswer-cases put_late = inr (inl refl)

module _ (sdk : ImageSdk) (disk : Disk) where
  -- What `replace` leaves, by its answer.
  pub data Replaced (env : Env) (owner p : String) (expected : ℕ) (encoded : String)
      (w : World sdk.Bytes) : Answer sdk → Type 0 where
    undone : (e : PhotoError) → Replaced env owner p expected encoded w (err e, w)
    orphaned :
        (content : sdk.Bytes)
        → disk.delete_raises (new_key env) ≡ true
        → Replaced env owner p expected encoded w
            (err storage_error, record w { objects = new_file env content ∷ w.objects })
    stored :
        (content : sdk.Bytes) (answer : PersonFaceState) (w' : World sdk.Bytes)
        → normalize_image sdk encoded ≡ some content
        → face_revision (find_face p w.db) ≡ expected
        → answer.revision ≡ expected + 1
        → image sdk owner p w'
          ≡ ok (record { revision = expected + 1; image_base64 = some (sdk.encode content) })
        → w'.objects ≡ new_file env content ∷ without (face_key (find_face p w.db)) w.objects
        → Replaced env owner p expected encoded w (ok answer, w')
    old_left :
        (content : sdk.Bytes) (key : String) (w' : World sdk.Bytes)
        → face_key (find_face p w.db) ≡ some key
        → disk.delete_raises key ≡ true
        → normalize_image sdk encoded ≡ some content
        → face_revision (find_face p w.db) ≡ expected
        → image sdk owner p w'
          ≡ ok (record { revision = expected + 1; image_base64 = some (sdk.encode content) })
        → w'.objects ≡ new_file env content ∷ w.objects
        → Replaced env owner p expected encoded w (err storage_error, w')

  module _ (env : Env) (owner encoded p : String) (expected : ℕ) (w : World sdk.Bytes)
      (free : exists_where (has_key (new_key env)) w.objects ≡ false) where
    -- nothing was put
    pub undo_nothing :
        (e : PhotoError)
        → Replaced env owner p expected encoded w (undo_put sdk disk (new_key env) e w)
    unfolding undo_put delete_object
    undo_nothing e =
        let kept = delete-missing (new_key env) w.objects free in
        elim (Bool-cases (disk.delete_raises (new_key env))) [
          | inl raised ↦
              let ends : undo_put sdk disk (new_key env) e w ≡ (err storage_error, w) =
                ground arith in
              subst (Replaced env owner p expected encoded w) (sym ends) (undone storage_error)
          | inr quiet ↦
              let ends : undo_put sdk disk (new_key env) e w ≡ (err e, w) = ground arith in
              subst (Replaced env owner p expected encoded w) (sym ends) (undone e)
        ]

    -- the new file was put
    abbrev pub with_new : sdk.Bytes → World sdk.Bytes
    with_new content = record w { objects = new_file env content ∷ w.objects }

    pub undo_new :
        (e : PhotoError) (content : sdk.Bytes)
        → Replaced env owner p expected encoded w
            (undo_put sdk disk (new_key env) e (with_new content))
    unfolding undo_put delete_object
    undo_new e content =
        let kept = delete-missing (new_key env) w.objects free in
        elim (Bool-cases (disk.delete_raises (new_key env))) [
          | inl raised ↦
              let ends : undo_put sdk disk (new_key env) e (with_new content)
                  ≡ (err storage_error, with_new content) =
                ground arith in
              subst (Replaced env owner p expected encoded w) (sym ends) (orphaned content raised)
          | inr quiet ↦
              let ends : undo_put sdk disk (new_key env) e (with_new content) ≡ (err e, w) =
                ground (arith, ==-refl (new_key env)) in
              subst (Replaced env owner p expected encoded w) (sym ends) (undone e)
        ]
