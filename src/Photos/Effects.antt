-- ===== src/Photos/Effects.antt =====
-- What the steps of `_change` do to the files and to the tables.
use eidolon_data.Audit.Row.{governance_fact}
use eidolon_data.Deletion.Cascades.{has_owner_id}
use eidolon_data.Audit.Facts.{add_fact}
use eidolon_data.Prelude.{
  ℕ, String, ◌≡◌, refl, sym, ap, ◌∙◌, inl, inr, Bool, true, false, some, List, [], ◌∷◌, arith,
  ==-refl, ==→≡, Bool-cases, Option-cases, find, update_where, delete_where, exists_where,
  find_sound, find-append_none, find-none_of_exists, ok, Result-cases, string_eq, option_eq, nat_eq,
}
use eidolon_data.Schema.{Db, Env, PersonRow, PersonFaceRow}
use eidolon_data.Photos.Storage.{StoredObject, has_key}
use eidolon_data.Photos.Faces.{
  has_person_id, is_face_of_person, require_active_owner, load_person, find_face, face_revision,
  check_change, store_face, write_face,
}

module _ {B : Type 0} where
  pub delete-missing :
      (key : String) (objects : List (StoredObject B))
      → exists_where (has_key key) objects ≡ false
      → delete_where (has_key key) objects ≡ objects
  delete-missing key [] h = refl
  delete-missing key (o ∷ objects) h = ground (arith, delete-missing key objects)

-- the row that was written is found
module _ (new : PersonFaceRow) where
  find-updated :
      (rows : List PersonFaceRow)
      → exists_where (is_face_of_person new.person_id) rows ≡ true
      → find
          (is_face_of_person new.person_id)
          (update_where (is_face_of_person new.person_id) (λ r. new) rows)
        ≡ some new
  find-updated [] h = absurd (ground arith)
  find-updated (r ∷ rows) h = ground (arith, ==-refl new.person_id, find-updated rows)

  pub find-store_face :
      (rows : List PersonFaceRow)
      → find (is_face_of_person new.person_id) (store_face new rows) ≡ some new
  unfolding store_face
  find-store_face rows = elim (Bool-cases (exists_where (is_face_of_person new.person_id) rows)) [
    | inl there ↦ ground (arith, find-updated rows there)
    | inr missing ↦ ground (
      arith,
      find-append_none (is_face_of_person new.person_id) rows (new ∷ [])
          (find-none_of_exists (is_face_of_person new.person_id) rows missing),
      ==-refl new.person_id,
    )
  ]

module _ (env : Env) (subject : PersonRow) (new : PersonFaceRow) (db db' : Db) where
  -- the flush changes the row and the outbox alone
  pub write_face_effect :
      (has_content : Bool) (u : Unit {0})
      → write_face env subject has_content new db ≡ ok (u, db')
      → (db'.owners ≡ db.owners)
        × (db'.persons ≡ db.persons)
        × (db'.person_face_profiles ≡ store_face new db.person_face_profiles)
  unfolding write_face add_fact governance_fact
  write_face_effect has_content u ran = (ground arith, ground arith, ground arith)

pub load_person_again :
    (owner p : String) (subject : PersonRow) (db s db' : Db)
    → db'.owners ≡ db.owners
    → db'.persons ≡ db.persons
    → load_person owner p db ≡ ok (subject, s)
    → (load_person owner p db' ≡ ok (subject, db')) × (s ≡ db) × (subject.person_id ≡ p)
unfolding load_person require_active_owner
load_person_again owner p subject db s db' owners persons ran =
    elim (Option-cases (find (has_person_id p) db.persons)) [
      | inl missing ↦ absurd (ground arith)
      | inr (row, e) ↦
          let is_p = ==→≡ row.person_id p (find_sound (has_person_id p) db.persons row e) in
          let there = ap (λ rows. find (has_person_id p) rows) persons ∙ e in
          let owned = ap (λ rows. find (has_owner_id owner) rows) owners in
          (ground arith, ground arith, ground arith)
    ]

pub check_change_lem :
    (owner p : String) (expected : ℕ) (subject : PersonRow) (db s : Db)
    → check_change owner p expected true db ≡ ok (subject, s)
    → (load_person owner p db ≡ ok (subject, db))
      × (face_revision (find_face p db) ≡ expected)
      × (subject.person_id ≡ p)
unfolding check_change
check_change_lem owner p expected subject db s ran = elim (Result-cases (load_person owner p db)) [
  | inr (x, broke) ↦ absurd (ground arith)
  | inl ((row, t), loaded) ↦
      let (again, is_db, is_p) = load_person_again owner p row db t db refl refl loaded in
      let is_row : row ≡ subject = ground arith in
      (
        again ∙ ap (λ r. ok (r, db)) is_row,
        ==→≡ (face_revision (find_face p db)) expected (ground arith),
        ap (λ r. r.person_id) (sym is_row) ∙ is_p,
      )
]
