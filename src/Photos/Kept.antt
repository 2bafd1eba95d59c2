-- ===== src/Photos/Kept.antt =====
-- The database and the object store keep in step, as far as the file system lets them.
use eidolon_data.Photos.Undo.{
  without, new_file, PutAnswer-cases, Replaced, undone, stored, old_left, undo_nothing, with_new,
  undo_new,
}
use eidolon_data.Photos.Images.{ImageSdk, normalize_image}
use eidolon_data.Prelude.{
  ℕ, ◌+◌, String, subst, ◌≡◌, refl, sym, ap, ◌∙◌, inl, inr, true, false, some, List, ◌∷◌, arith,
  ◌==◌, ==-refl, ==_symm, Bool-cases, Option-cases, find, exists_where, ok, err, Result-cases, ◌⧺◌,
  is_empty, is_empty-append, string_eq, option_eq, nat_eq,
}
use eidolon_data.Schema.{Db, Env, PersonRow, PersonFaceRow}
use eidolon_data.Photos.Storage.{StoredObject, Disk, has_key, delete_object, put_object, get_object}
use eidolon_data.Photos.Faces.{
  PhotoError, face_invalid, storage_error, is_face_of_person, load_person, find_face, face_revision,
  face_key, face_state, state, check_change, changed_face, write_face, new_key, World, undo_put,
  drop_old, change_photo, replace, image,
}
use eidolon_data.Photos.Effects.{
  delete-missing, find-store_face, write_face_effect, load_person_again, check_change_lem,
}

module _ (sdk : ImageSdk) (disk : Disk) where
  module _ (env : Env) (owner encoded : String) (expected : ℕ) (content : sdk.Bytes)
      (subject : PersonRow) (s : Db) (w : World sdk.Bytes)
      (valid : normalize_image sdk encoded ≡ some content)
      (at_revision : face_revision (find_face subject.person_id w.db) ≡ expected)
      (loaded : load_person owner subject.person_id w.db ≡ ok (subject, s))
      (free : exists_where (has_key (new_key env)) w.objects ≡ false)
      (other : (face_key (find_face subject.person_id w.db) == some (new_key env)) ≡ false) where
    abbrev new_face : PersonFaceRow
    new_face =
        changed_face owner subject.person_id (some (new_key env)) (some (sdk.sha256 content))
          (find_face subject.person_id w.db)

    abbrev new_world : Db → List (StoredObject sdk.Bytes) → World sdk.Bytes
    new_world db' rest = record { db = db'; objects = new_file env content ∷ rest }

    -- the photo is read back, whatever other files there are
    image_after :
        (db' : Db) (u : Unit {0}) (rest : List (StoredObject sdk.Bytes))
        → write_face env subject true new_face w.db ≡ ok (u, db')
        → (sdk.size content == 0) ≡ false
        → image sdk owner subject.person_id (new_world db' rest)
          ≡ ok (record { revision = expected + 1; image_base64 = some (sdk.encode content) })
    unfolding image get_object
    image_after db' u rest done some_size =
        let (owners, persons, faces) =
          write_face_effect env subject new_face w.db db' true u done in
        let (again, x, y) =
          load_person_again owner subject.person_id subject w.db s db' owners persons loaded in
        let found : find_face subject.person_id db' ≡ some new_face =
          ap (λ rows. find (is_face_of_person subject.person_id) rows) faces
          ∙ find-store_face new_face w.db.person_face_profiles in
        let named = is_empty-append "person-faces/" (env.uuid 1 ⧺ ".jpg") refl in
        ground (arith, ==-refl (new_key env))

    -- after the commit
    drop_old_lem :
        (db' : Db) (u : Unit {0})
        → write_face env subject true new_face w.db ≡ ok (u, db')
        → (sdk.size content == 0) ≡ false
        → Replaced sdk disk env owner subject.person_id expected encoded w (
            drop_old sdk disk
              (face_key (find_face subject.person_id w.db))
              (face_state subject.person_id (some new_face))
              (new_world db' w.objects))
    unfolding drop_old delete_object
    drop_old_lem db' u done some_size =
        let old = face_key (find_face subject.person_id w.db) in
        let answer = face_state subject.person_id (some new_face) in
        let gone = without (face_key (find_face subject.person_id w.db)) w.objects in
        let finished : Replaced sdk disk env owner subject.person_id expected encoded w
            (ok answer, new_world db' gone) =
          stored content answer (new_world db' gone) valid at_revision (ap (λ n. n + 1) at_revision)
            (image_after db' u gone done some_size) refl in
        let call = drop_old sdk disk old answer (new_world db' w.objects) in
        elim (Option-cases old) [
          | inl absent ↦
              let ends : call ≡ (ok answer, new_world db' gone) = ground arith in
              subst (Replaced sdk disk env owner subject.person_id expected encoded w) (sym ends)
                finished
          | inr (key, named) ↦ elim (Bool-cases (is_empty key)) [
            | inl empty ↦
                let ends : call ≡ (ok answer, new_world db' gone) = ground arith in
                subst (Replaced sdk disk env owner subject.person_id expected encoded w) (sym ends)
                  finished
            | inr a_key ↦ elim (Bool-cases (disk.delete_raises key)) [
              | inl raised ↦
                  let ends : call ≡ (err storage_error, new_world db' w.objects) = ground arith in
                  subst (Replaced sdk disk env owner subject.person_id expected encoded w)
                    (sym ends)
                    (old_left content key (new_world db' w.objects) named raised valid at_revision
                      (image_after db' u w.objects done some_size) refl)
              | inr quiet ↦
                  let ends : call ≡ (ok answer, new_world db' gone) =
                    ground (arith, ==_symm key (new_key env)) in
                  subst (Replaced sdk disk env owner subject.person_id expected encoded w)
                    (sym ends) finished
            ]
          ]
        ]

    change_photo_lem :
        Replaced sdk disk env owner subject.person_id expected encoded w
          (change_photo sdk disk env owner subject content w)
    unfolding change_photo put_object
    change_photo_lem =
        let kept = delete-missing (new_key env) w.objects free in
        let p = subject.person_id in
        let call = change_photo sdk disk env owner subject content w in
        let put = with_new sdk disk env owner encoded p expected w free content in
        let nothing = undo_nothing sdk disk env owner encoded p expected w free storage_error in
        let undo : (e : PhotoError)
            → Replaced sdk disk env owner p expected encoded w
                (undo_put sdk disk (new_key env) e put) =
          λ e. undo_new sdk disk env owner encoded p expected w free e content in
        elim (Bool-cases (sdk.size content == 0)) [
          | inl empty ↦
              let ends : call ≡ undo_put sdk disk (new_key env) storage_error w = ground arith in
              subst (Replaced sdk disk env owner p expected encoded w) (sym ends) nothing
          | inr some_size ↦ elim (PutAnswer-cases (disk.put_answer (new_key env))) [
            | inl refused ↦
                let ends : call ≡ undo_put sdk disk (new_key env) storage_error w = ground arith in
                subst (Replaced sdk disk env owner p expected encoded w) (sym ends) nothing
            | inr (inl late) ↦
                let ends : call ≡ undo_put sdk disk (new_key env) storage_error put =
                  ground arith in
                subst (Replaced sdk disk env owner p expected encoded w) (sym ends)
                  (undo storage_error)
            | inr (inr written) ↦ elim (Result-cases (write_face env subject true new_face w.db)) [
              | inr (e, broke) ↦
                  let ends : call ≡ undo_put sdk disk (new_key env) e put = ground arith in
                  subst (Replaced sdk disk env owner p expected encoded w) (sym ends) (undo e)
              | inl ((u, db'), done) ↦
                  let ends : call
                      ≡ drop_old sdk disk (face_key (find_face p w.db))
                          (face_state p (some new_face)) (new_world db' w.objects) =
                    ground arith in
                  subst (Replaced sdk disk env owner p expected encoded w) (sym ends)
                    (drop_old_lem db' u done some_size)
            ]
          ]
        ]

change_of_person :
    (sdk : ImageSdk) (disk : Disk) (env : Env) (owner p encoded : String) (expected : ℕ)
    (content : sdk.Bytes) (subject : PersonRow) (w : World sdk.Bytes)
    → normalize_image sdk encoded ≡ some content
    → subject.person_id ≡ p
    → face_revision (find_face p w.db) ≡ expected
    → load_person owner p w.db ≡ ok (subject, w.db)
    → exists_where (has_key (new_key env)) w.objects ≡ false
    → (face_key (find_face p w.db) == some (new_key env)) ≡ false
    → Replaced sdk disk env owner p expected encoded w
        (change_photo sdk disk env owner subject content w)
change_of_person sdk disk env owner p encoded expected content subject w valid is_p at_revision
      loaded free other =
    subst
      (λ k.
        Replaced sdk disk env owner k expected encoded w
          (change_photo sdk disk env owner subject content w))
      is_p
      (change_photo_lem sdk disk env owner encoded expected content subject w.db w valid
        (ap (λ k. face_revision (find_face k w.db)) is_p ∙ at_revision)
        (ap (λ k. load_person owner k w.db) is_p ∙ loaded) free
        (ap (λ k. face_key (find_face k w.db) == some (new_key env)) is_p ∙ other))

-- What `replace` leaves, whichever puts and deletes of files raise, when the uuid that it draws is
-- new: no file has the new key, and the Person's row does not name it. When it returns, the revision
-- was the expected one and is one more, `image` reads the normalized photo back, and of the files the
-- new one has come and the old one, unless its key is empty, has gone. When it raises, the database
-- and the files are as they were, but for two cases: when removing the new file raises too, that file
-- may stay, with the database as it was; and when removing the old file after the commit raises, the
-- change is made nevertheless, `image` reads the new photo, and the old file stays.
pub replace_lem :
    (sdk : ImageSdk) (disk : Disk) (env : Env) (owner p : String) (expected : ℕ) (encoded : String)
    (w : World sdk.Bytes)
    → exists_where (has_key (new_key env)) w.objects ≡ false
    → (face_key (find_face p w.db) == some (new_key env)) ≡ false
    → Replaced sdk disk env owner p expected encoded w
        (replace sdk disk env owner p expected encoded w)
unfolding replace
replace_lem sdk disk env owner p expected encoded w free other =
    elim (Result-cases (state owner p w.db)) [
      | inr (e, broke) ↦
          let ends : replace sdk disk env owner p expected encoded w ≡ (err e, w) = ground arith in
          subst (Replaced sdk disk env owner p expected encoded w) (sym ends) (undone e)
      | inl ((x, t), known) ↦ elim (Option-cases (normalize_image sdk encoded)) [
        | inl invalid ↦
            let ends : replace sdk disk env owner p expected encoded w ≡ (err face_invalid, w) =
              ground arith in
            subst (Replaced sdk disk env owner p expected encoded w) (sym ends)
              (undone face_invalid)
        | inr (content, valid) ↦ elim (Result-cases (check_change owner p expected true w.db)) [
          | inr (e, broke) ↦
              let ends : replace sdk disk env owner p expected encoded w ≡ (err e, w) =
                ground arith in
              subst (Replaced sdk disk env owner p expected encoded w) (sym ends) (undone e)
          | inl ((subject, s), checked) ↦
              let (loaded, at_revision, is_p) =
                check_change_lem owner p expected subject w.db s checked in
              let ends : change_photo sdk disk env owner subject content w
                  ≡ replace sdk disk env owner p expected encoded w =
                ground arith in
              subst (Replaced sdk disk env owner p expected encoded w) ends (
                change_of_person sdk disk env owner p encoded expected content subject w valid is_p
                  at_revision loaded free other)
        ]
      ]
    ]
