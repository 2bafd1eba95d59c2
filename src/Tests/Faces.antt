-- ===== src/Tests/Faces.antt =====
-- Companion faces and Owner face profiles.
use eidolon_data.Prelude.{
  ◌<◌, String, ◌≡◌, refl, ◌≢◌, true, false, none, some, List, [], ◌∷◌, ◌==◌, All, pos, find,
  exists_where, ok, err, committed, codes, string_eq, nat_eq,
}
use eidolon_data.Schema.{
  Db, Env, CompanionFaceAssetRow, desired, DesiredState, cleared, OwnerFaceProfileRevisionRow,
  conversational,
}
use eidolon_data.Audit.Row.{governance_fact}
use eidolon_data.Audit.Facts.{add_fact}
use eidolon_data.Faces.StoredFile.{matches_sha256, split_slash, is_safe_key}
use eidolon_data.Faces.Assets.{
  FaceError, companion_not_found, changed_concurrently, validate_file, validate_asset_inputs,
  FaceInput, is_face_of, max_version, new_asset, add_asset, supersede, set_face, write_asset,
  load_asset, set_idle_status, set_idle_clip, clear_face, clear, get_active,
}
use eidolon_data.Faces.OneActive.{
  FaceAction, call_set_face, call_set_idle_clip, call_clear, perform_all, HasOneFace,
  perform_all-HasOneFace,
}
use eidolon_data.Faces.Current.{set_face_current, IsFresh, set_face_returns}
use eidolon_data.Faces.Profiles.{
  GuardLimits, reference_taken, not_an_active_draft, wrong_reference_count, latest_profile,
  supersede_profiles, add_profile, create_draft, clear_profile, load_profile, activate,
  get_desired_for_owner,
}
use eidolon_data.Faces.References.{validate_reference, add_reference}
use eidolon_data.Faces.Desired.{IsComplete, activate_current, is_draft_of, clear_profile_current}
use eidolon_data.Tests.Fixtures.{env_at, companion_named, db_fixture}

-- what a run needs unfolded
face_code : Unit {0}
unfolding set_face validate_asset_inputs validate_file matches_sha256 is_safe_key split_slash
    max_version add_asset supersede add_fact governance_fact set_idle_status set_idle_clip
    load_asset write_asset clear clear_face get_active create_draft clear_profile add_reference
    validate_reference load_profile activate latest_profile supersede_profiles add_profile
    get_desired_for_owner
face_code = tt

abbrev sha : String
sha = "0000000000000000000000000000000000000000000000000000000000000000"

keys :
    (is_safe_key (codes "faces/a.jpg") ≡ true)
    × (is_safe_key (codes "/a.jpg") ≡ false)
    × (is_safe_key (codes "a/../b") ≡ false)
    × (is_safe_key (codes "a..b") ≡ true)
    × (is_safe_key (codes "") ≡ false)
    × (matches_sha256 (codes sha) ≡ true)
    × (matches_sha256 (codes "0g") ≡ false)
unfolding face_code
keys = (refl, refl, refl, refl, refl, refl, refl)

abbrev input : String → FaceInput
input key = record {
  cond_storage_key = key;
  cond_content_type = "image/jpeg";
  cond_size_bytes = pos 10;
  cond_sha256 = sha;
  width = none;
  height = none;
  source = "upload";
  meta = none;
}

abbrev env_first : Env
env_first = env_at 5 "e1" "f1" 1

abbrev env_second : Env
env_second = env_at 6 "e2" "f2" 2

abbrev face_first : CompanionFaceAssetRow
face_first = new_asset env_first "talker" "owner-a" (input "k1") 1

abbrev db_face : Db
db_face = committed (set_face env_first "talker" (input "k1") db_fixture) db_fixture

set_face_ok : set_face env_first "talker" (input "k1") db_fixture ≡ ok (face_first, db_face)
unfolding face_code
set_face_ok = refl

abbrev face_second : CompanionFaceAssetRow
face_second = new_asset env_second "talker" "owner-a" (input "k2") 2

abbrev db_face_second : Db
db_face_second = committed (set_face env_second "talker" (input "k2") db_face) db_face

set_face_again :
    set_face env_second "talker" (input "k2") db_face ≡ ok (face_second, db_face_second)
unfolding face_code
set_face_again = refl

set_face_refused :
    (set_face env_second "talker" (input "k1") db_face ≡ err changed_concurrently)
    × (set_face env_second "nobody" (input "k2") db_face ≡ err companion_not_found)
    × (set_face env_second "talker" (input "/k") db_face ≡ err FaceError.unsafe_storage_key)
unfolding face_code
set_face_refused = (refl, refl, refl)

clear_ok : get_active "talker" (committed (clear env_second "talker" db_face) db_face) ≡ none
unfolding face_code
clear_ok = refl

set_face_current_example :
    (get_active "talker" db_face_second ≡ some face_second)
    × All
        (λ r. is_face_of "talker" r ≡ true → r.version < face_second.version)
        db_face.companion_face_assets
    × ((j : String) → j ≢ "talker" → get_active j db_face_second ≡ get_active j db_face)
set_face_current_example =
    set_face_current env_second "talker" (input "k2") db_face db_face_second face_second
      set_face_again

valid_second : validate_asset_inputs "image/jpeg" (pos 10) sha "k2" db_face ≡ ok (tt, db_face)
unfolding face_code
valid_second = refl

found_talker :
    find (λ c. c.companion_id == "talker") db_face.companions
    ≡ some (companion_named "owner-a" "talker" conversational)
unfolding face_code
found_talker = refl

second-IsFresh : IsFresh env_second "k2" db_face
unfolding face_code
second-IsFresh = record { asset = refl; fact = refl }

set_face_returns_example :
    (row : CompanionFaceAssetRow) × (db' : Db) × (set_face env_second "talker" (input "k2") db_face
      ≡ ok (row, db'))
set_face_returns_example =
    set_face_returns env_second "talker" (input "k2") db_face
      (companion_named "owner-a" "talker" conversational) valid_second found_talker second-IsFresh

abbrev limits : GuardLimits
limits = record {
  min_references = 3;
  max_references = 5;
  required_poses = "front" ∷ "left" ∷ "right" ∷ [];
}

abbrev db_draft : Db
db_draft = committed (create_draft env_first "owner-a" "m" "p" db_fixture) db_fixture

abbrev add_pose : Env → String → Db → Db
add_pose env pose db =
    committed (add_reference limits env "ofpr_f1" pose "image/jpeg" (pos 9) sha pose db) db

abbrev db_posed : Db
db_posed =
    add_pose (env_at 8 "e4" "r3" 4) "right"
      (add_pose (env_at 7 "e3" "r2" 3) "left" (add_pose (env_at 6 "e2" "r1" 2) "front" db_draft))

abbrev env_activate : Env
env_activate = env_at 9 "e5" "x" 5

abbrev profile_first : OwnerFaceProfileRevisionRow
profile_first = record {
  profile_revision_id = "ofpr_f1";
  profile_id = "ofp_f1";
  owner_id = "owner-a";
  revision = 1;
  state = desired;
  desired_state = DesiredState.active;
  model_id = some "m";
  preprocessing_version = some "p";
  activated_at = some 9;
  created_at = 5;
  updated_at = 9;
}

abbrev db_desired : Db
db_desired = committed (activate limits env_activate "ofpr_f1" db_posed) db_posed

activate_ok : activate limits env_activate "ofpr_f1" db_posed ≡ ok (profile_first, db_desired)
unfolding face_code
activate_ok = refl

activate_refused :
    (activate limits env_activate "ofpr_f1" db_draft ≡ err wrong_reference_count)
    × (activate limits env_activate "ofpr_f1" db_desired ≡ err not_an_active_draft)
    × (add_reference limits env_activate "ofpr_f1" "left" "image/jpeg" (pos 9) sha "k" db_posed
        ≡ err reference_taken)
unfolding face_code
activate_refused = (refl, refl, refl)

activate_current_example :
    (get_desired_for_owner "owner-a" db_desired ≡ some profile_first)
    × IsComplete limits "ofpr_f1" db_posed
activate_current_example =
    activate_current limits env_activate "ofpr_f1" db_posed db_desired profile_first activate_ok

abbrev env_clear : Env
env_clear = env_at 10 "e6" "f6" 6

abbrev profile_cleared : OwnerFaceProfileRevisionRow
profile_cleared = record {
  profile_revision_id = "ofpr_f6";
  profile_id = "ofp_f1";
  owner_id = "owner-a";
  revision = 2;
  state = desired;
  desired_state = cleared;
  model_id = none;
  preprocessing_version = none;
  activated_at = some 10;
  created_at = 10;
  updated_at = 10;
}

abbrev db_cleared : Db
db_cleared = committed (clear_profile env_clear "owner-a" db_desired) db_desired

clear_profile_ok : clear_profile env_clear "owner-a" db_desired ≡ ok (profile_cleared, db_cleared)
unfolding face_code
clear_profile_ok = refl

clear_profile_current_example :
    (get_desired_for_owner "owner-a" db_cleared ≡ some profile_cleared)
    × (profile_cleared.desired_state ≡ cleared)
    × (exists_where (is_draft_of "owner-a") db_cleared.owner_face_profile_revisions ≡ false)
clear_profile_current_example =
    clear_profile_current env_clear "owner-a" db_desired db_cleared profile_cleared clear_profile_ok

abbrev face_actions : List FaceAction
face_actions =
    call_set_face env_second "talker" (input "k2")
    ∷ call_set_idle_clip (env_at 7 "e7" "x" 7) "cfa_f2" "clip" "video/mp4" (pos 3) sha
    ∷ call_clear (env_at 8 "e8" "x" 8) "talker"
    ∷ call_set_face (env_at 9 "e9" "f9" 9) "talker" (input "k3")
    ∷ []

db_face-HasOneFace : HasOneFace db_face
unfolding face_code
db_face-HasOneFace = (tt, tt)

perform_all-HasOneFace_example : HasOneFace (perform_all face_actions db_face)
perform_all-HasOneFace_example = perform_all-HasOneFace face_actions db_face db_face-HasOneFace
