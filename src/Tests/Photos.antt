-- ===== src/Tests/Photos.antt =====
-- The photos of Persons.
use eidolon_data.Prelude.{
  String, ◌≡◌, refl, true, false, none, some, [], ◌∷◌, if◌then◌else◌, ◌==◌, length, ok, err,
  is_empty, codes, string_eq, nat_eq, option_eq,
}
use eidolon_data.Schema.{Env, PersonStatus, RecognitionState, PersonRow, established}
use eidolon_data.Audit.Row.{governance_fact}
use eidolon_data.Audit.Facts.{add_fact}
use eidolon_data.Photos.Images.{ImageSdk, normalize_image}
use eidolon_data.Photos.Storage.{put_done, put_refused, Disk, delete_object, put_object, get_object}
use eidolon_data.Photos.Faces.{
  person_not_found, face_changed, face_invalid, storage_error, integrity_error,
  require_active_owner, load_person, state, check_change, store_face, write_face, World, undo_put,
  drop_old, change_photo, remove_photo, replace, delete_photo, image,
}
use eidolon_data.Photos.Undo.{Replaced}
use eidolon_data.Photos.Kept.{replace_lem}
use eidolon_data.Tests.Fixtures.{env_at, db_fixture}

-- what a run needs unfolded
photo_code : Unit {0}
unfolding normalize_image delete_object put_object get_object require_active_owner load_person state
    check_change store_face write_face undo_put drop_old change_photo remove_photo replace
    delete_photo image add_fact governance_fact
photo_code = tt

-- A photo is a text, and an empty one is no image.
abbrev sdk : ImageSdk
sdk = record {
  Bytes = String;
  size = λ s. length (codes s);
  decode = λ s. if is_empty s then none else some s;
  encode = λ s. s;
  open_image = λ s. some (record { format = "JPEG"; width = 2; height = 3 });
  render = λ s. some s;
  sha256 = λ s. "digest";
}

abbrev sound_disk : Disk
sound_disk = record { put_answer = λ key. put_done; delete_raises = λ key. false }

abbrev ann : PersonRow
ann = record {
  person_id = "ann";
  owner_id = "owner-a";
  display_name = "Ann";
  status = PersonStatus.active;
  deleted = false;
  identity_state = "known";
  maturity = established;
  recognition_state = RecognitionState.active;
  candidate_activity_at = none;
  is_named = true;
  archived_at = none;
  revision = 1;
  profile_json = [];
}

abbrev world : World String
world = record { db = record db_fixture { persons = ann ∷ [] }; objects = [] }

abbrev env_a : Env
env_a = env_at 5 "a" "b" 10

abbrev env_c : Env
env_c = env_at 6 "c" "d" 20

abbrev replaced : World String
replaced = (replace sdk sound_disk env_a "owner-a" "ann" 0 "photo" world).1

abbrev replaced_again : World String
replaced_again = (replace sdk sound_disk env_c "owner-a" "ann" 1 "other" replaced).1

replace_ok :
    (image sdk "owner-a" "ann" replaced ≡ ok (record { revision = 1; image_base64 = some "photo" }))
    × (image sdk "owner-a" "ann" replaced_again
        ≡ ok (record { revision = 2; image_base64 = some "other" }))
    × (replaced_again.objects ≡ record { key = "person-faces/d.jpg"; content = "other" } ∷ [])
    × (replace sdk sound_disk env_c "owner-a" "ann" 0 "other" replaced
        ≡ (err face_changed, replaced))
    × (replace sdk sound_disk env_c "owner-a" "bob" 0 "other" replaced
        ≡ (err person_not_found, replaced))
    × (replace sdk sound_disk env_c "owner-a" "ann" 1 "" replaced ≡ (err face_invalid, replaced))
    -- the event id is taken, so the fact is refused and the new file goes again
    × (replace sdk sound_disk env_a "owner-a" "ann" 1 "other" replaced
        ≡ (err integrity_error, record replaced { objects = [] }))
unfolding photo_code
replace_ok = (refl, refl, refl, refl, refl, refl, refl)

delete_ok :
    image sdk "owner-a" "ann" (delete_photo sdk sound_disk env_c "owner-a" "ann" 1 replaced).1
    ≡ ok (record { revision = 2; image_base64 = none })
unfolding photo_code
delete_ok = refl

-- the file system refuses to write; and it refuses to remove the first photo
abbrev full_disk : Disk
full_disk = record { put_answer = λ key. put_refused; delete_raises = λ key. false }

abbrev old_stays : Disk
old_stays = record {
  put_answer = λ key. put_done;
  delete_raises = λ key. key == "person-faces/b.jpg";
}

abbrev left_over : World String
left_over = (replace sdk old_stays env_c "owner-a" "ann" 1 "other" replaced).1

-- the writing raises and changes nothing; the removal of the old file raises after the commit
storage_failures :
    (replace sdk full_disk env_c "owner-a" "ann" 1 "other" replaced ≡ (err storage_error, replaced))
    × ((replace sdk old_stays env_c "owner-a" "ann" 1 "other" replaced).0 ≡ err storage_error)
    × (image sdk "owner-a" "ann" left_over
        ≡ ok (record { revision = 2; image_base64 = some "other" }))
    × (length left_over.objects ≡ 2)
unfolding photo_code
storage_failures = (refl, refl, refl, refl)

replace_lem_example :
    Replaced sdk old_stays env_c "owner-a" "ann" 1 "other" replaced
      (replace sdk old_stays env_c "owner-a" "ann" 1 "other" replaced)
unfolding photo_code
replace_lem_example = replace_lem sdk old_stays env_c "owner-a" "ann" 1 "other" replaced refl refl
