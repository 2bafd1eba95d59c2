-- ===== src/Faces/References.antt =====
-- The references of a face profile: `add_reference` and the methods that list and delete them
-- (repositories/owner_face_profiles.py).
use eidolon_data.Prelude.{
  ℕ, String, Bool, true, false, not, ◌&&◌, ◌||◌, List, [], ◌∷◌, ◌++◌, map, if◌then◌else◌, leb, ◌==◌,
  ◌!=◌, ℤ, pos_part, ltb_ℤ, num, str, select_where, count_where, delete_where, exists_where,
  order_by, mem, pure, gets, raise_if, modify, ◌>>=◌, ◌>>◌, ◌⧺◌, codes, nat_eq, string_eq,
}
use eidolon_data.Schema.{
  Db, Env, ProfileState, OwnerFaceProfileRevisionRow, is_draft, OwnerFaceReferenceRow,
}
use eidolon_data.Audit.Facts.{add_fact}
use eidolon_data.Faces.StoredFile.{matches_sha256, is_safe_key}
use eidolon_data.Faces.Profiles.{
  GuardLimits, not_a_draft, too_many_references, reference_taken, bad_pose, not_jpeg,
  size_not_positive, invalid_sha256, unsafe_storage_key, ProfileCall, is_profile_of, profile_fact,
  is_reference_of, load_profile,
}

-- `_validate_reference`
unfoldable pub validate_reference : String → String → ℤ → String → String → ProfileCall (Unit {0})
validate_reference pose content_type size_bytes sha256 storage_key = do
  raise_if (not (mem pose ("front" ∷ "left" ∷ "right" ∷ "down" ∷ "up" ∷ []))) bad_pose
  raise_if (content_type != "image/jpeg") not_jpeg
  raise_if (ltb_ℤ size_bytes 1) size_not_positive
  raise_if (not (matches_sha256 (codes sha256))) invalid_sha256
  raise_if (not (is_safe_key (codes storage_key))) unsafe_storage_key

-- the primary key and the unique constraints
abbrev pub reference_clashes : OwnerFaceReferenceRow → OwnerFaceReferenceRow → Bool
reference_clashes new row =
    row.reference_id == new.reference_id
    || row.storage_key == new.storage_key
    || row.profile_revision_id == new.profile_revision_id && row.pose == new.pose

unfoldable pub add_reference :
    GuardLimits
    → Env
    → String
    → String
    → String
    → ℤ
    → String
    → String
    → ProfileCall OwnerFaceReferenceRow
unfolding validate_reference load_profile
add_reference limits env revision_id pose content_type size_bytes sha256 storage_key = do
  validate_reference pose content_type size_bytes sha256 storage_key
  profile ← load_profile revision_id
  raise_if (not (is_draft profile.state)) not_a_draft
  count ← gets (λ db. count_where (is_reference_of revision_id) db.owner_face_references)
  raise_if (leb limits.max_references count) too_many_references
  let row : OwnerFaceReferenceRow = record {
    reference_id = "ofr_" ⧺ env.uuid 1;
    profile_revision_id = revision_id;
    pose = pose;
    content_type = content_type;
    size_bytes = pos_part size_bytes;
    sha256 = sha256;
    storage_key = storage_key;
    created_at = env.now;
  }
  raise_if (← gets (λ db. exists_where (reference_clashes row) db.owner_face_references))
      reference_taken
  modify (λ db. record db { owner_face_references = db.owner_face_references ++ row ∷ [] })
  add_fact reference_taken (
      profile_fact env profile "owner_face_profile.reference_added" (
        ("revision", num profile.revision)
        ∷ ("reference_id", str row.reference_id)
        ∷ ("pose", str pose)
        ∷ []))
  pure row

-- `_POSE_ORDER`
abbrev pub pose_order : String → ℕ
pose_order pose =
    if pose == "front"
    then 0
    else if pose == "left"
    then 1
    else if pose == "right"
    then 2
    else if pose == "down"
    then 3
    else 4

unfoldable pub list_references : String → Db → List OwnerFaceReferenceRow
list_references revision_id db =
    order_by (λ r. pose_order r.pose)
      (select_where (is_reference_of revision_id) db.owner_face_references)

-- the JOIN with the revisions of an Owner
abbrev pub is_of_profile : (OwnerFaceProfileRevisionRow → Bool) → Db → OwnerFaceReferenceRow → Bool
is_of_profile which db row =
    exists_where (λ p. p.profile_revision_id == row.profile_revision_id && which p)
      db.owner_face_profile_revisions

abbrev pub is_superseded : ProfileState → Bool
is_superseded ProfileState.superseded = true
is_superseded _ = false

abbrev pub is_superseded_of : String → OwnerFaceProfileRevisionRow → Bool
is_superseded_of owner_id row = is_profile_of owner_id row && is_superseded row.state

unfoldable pub list_storage_keys_for_owner : String → Db → List String
list_storage_keys_for_owner owner_id db =
    map (λ r. r.storage_key)
      (select_where (is_of_profile (is_profile_of owner_id) db) db.owner_face_references)

unfoldable pub list_superseded_references : String → Db → List OwnerFaceReferenceRow
list_superseded_references owner_id db =
    select_where (is_of_profile (is_superseded_of owner_id) db) db.owner_face_references

abbrev pub is_deletable : String → List String → Db → OwnerFaceReferenceRow → Bool
is_deletable owner_id reference_ids db row =
    mem row.reference_id reference_ids && is_of_profile (is_superseded_of owner_id) db row

unfoldable pub delete_superseded_references : String → List String → Db → ℕ × Db
delete_superseded_references owner_id [] db = (0, db)
delete_superseded_references owner_id (i ∷ is) db =
    let which = is_deletable owner_id (i ∷ is) db in
    (
      count_where which db.owner_face_references,
      record db { owner_face_references = delete_where which db.owner_face_references },
    )
