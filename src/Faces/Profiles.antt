-- ===== src/Faces/Profiles.antt =====
-- `OwnerFaceProfilesRepository` (repositories/owner_face_profiles.py): each method is one
-- transaction, which a raise rolls back.
use eidolon_data.Prelude.{
  ℕ, ◌+◌, String, Bool, true, not, ◌&&◌, ◌||◌, Option, none, some, List, [], ◌∷◌, ◌++◌, ltb, ◌==◌,
  length, num, str, JsonDict, find, select_where, update_where, exists_where, order_by_desc, Tx,
  pure, gets, or_raise, raise_if, modify, ◌>>=◌, ◌>>◌, ◌⧺◌, is_empty, nat_eq, string_eq, option_eq,
}
use eidolon_data.Schema.{
  Db, Env, ProfileState, draft, desired, DesiredState, cleared, OwnerFaceProfileRevisionRow,
  is_draft, is_desired, wants_active, OwnerFaceReferenceRow, AuditOutboxRow,
}
use eidolon_data.Audit.Row.{details, governance_fact}
use eidolon_data.Audit.Facts.{add_fact}

-- What the repository uses of `eidolon_sdk.biz.guard`.
pub record GuardLimits : Type 0 where
  pub min_references : ℕ
  pub max_references : ℕ
  pub required_poses : List String

pub data ProfileError : Type 0 where
  no_model_metadata owner_not_found changed_concurrently : ProfileError
  revision_not_found not_a_draft too_many_references reference_taken : ProfileError
  not_an_active_draft wrong_reference_count poses_missing integrity_error : ProfileError
  bad_pose not_jpeg size_not_positive invalid_sha256 unsafe_storage_key : ProfileError

abbrev pub ProfileCall : Type 0 → Type 0
ProfileCall A = Tx Db ProfileError A

abbrev pub is_profile_of : String → OwnerFaceProfileRevisionRow → Bool
is_profile_of owner_id row = row.owner_id == owner_id

abbrev pub has_revision_id : String → OwnerFaceProfileRevisionRow → Bool
has_revision_id revision_id row = row.profile_revision_id == revision_id

abbrev pub head : List OwnerFaceProfileRevisionRow → Option OwnerFaceProfileRevisionRow
head [] = none
head (row ∷ rows) = some row

-- the first row ORDER BY revision DESC
unfoldable pub latest_profile : String → Db → Option OwnerFaceProfileRevisionRow
latest_profile owner_id db = head (
    order_by_desc (λ r. r.revision)
      (select_where (is_profile_of owner_id) db.owner_face_profile_revisions))

abbrev pub profile_id_of : Env → Option OwnerFaceProfileRevisionRow → String
profile_id_of env none = "ofp_" ⧺ env.uuid 2
profile_id_of env (some latest) = latest.profile_id

abbrev pub next_revision : Option OwnerFaceProfileRevisionRow → ℕ
next_revision none = 1
next_revision (some latest) = latest.revision + 1

abbrev pub set_profile_superseded : ℕ → OwnerFaceProfileRevisionRow → OwnerFaceProfileRevisionRow
set_profile_superseded now row = record row { state = ProfileState.superseded; updated_at = now }

-- the UPDATE … SET state = 'superseded'
unfoldable pub supersede_profiles :
    Env → (OwnerFaceProfileRevisionRow → Bool) → ProfileCall (Unit {0})
supersede_profiles env which = modify (λ db. record db {
  owner_face_profile_revisions =
      update_where which (set_profile_superseded env.now) db.owner_face_profile_revisions;
})

-- the primary key and the unique constraints and index
abbrev pub profile_clashes : OwnerFaceProfileRevisionRow → OwnerFaceProfileRevisionRow → Bool
profile_clashes new row =
    row.profile_revision_id == new.profile_revision_id
    || row.revision == new.revision
      && (row.profile_id == new.profile_id || row.owner_id == new.owner_id)
    || row.owner_id == new.owner_id && is_desired row.state && is_desired new.state

-- `session.add` and the flush
unfoldable pub add_profile : OwnerFaceProfileRevisionRow → ProfileCall (Unit {0})
add_profile new = do
  raise_if (← gets (λ db. exists_where (profile_clashes new) db.owner_face_profile_revisions))
      changed_concurrently
  modify (λ db. record db {
    owner_face_profile_revisions = db.owner_face_profile_revisions ++ new ∷ [];
  })

abbrev pub profile_fact : Env → OwnerFaceProfileRevisionRow → String → JsonDict → AuditOutboxRow
profile_fact env row action payload =
    governance_fact env 0 row.owner_id "owner_face_profile" row.profile_id action
      (record details { data_classification = "sensitive"; payload = some payload })

abbrev pub owner_exists : String → Db → Bool
owner_exists owner_id db = exists_where (λ o. o.owner_id == owner_id) db.owners

unfoldable pub create_draft :
    Env → String → String → String → ProfileCall OwnerFaceProfileRevisionRow
unfolding latest_profile supersede_profiles add_profile
create_draft env owner_id model_id preprocessing_version = do
  raise_if (is_empty model_id || is_empty preprocessing_version) no_model_metadata
  raise_if (← gets (λ db. not (owner_exists owner_id db))) owner_not_found
  latest ← gets (latest_profile owner_id)
  supersede_profiles env (λ r. is_profile_of owner_id r && is_draft r.state)
  let row : OwnerFaceProfileRevisionRow = record {
    profile_revision_id = "ofpr_" ⧺ env.uuid 1;
    profile_id = profile_id_of env latest;
    owner_id = owner_id;
    revision = next_revision latest;
    state = draft;
    desired_state = DesiredState.active;
    model_id = some model_id;
    preprocessing_version = some preprocessing_version;
    activated_at = none;
    created_at = env.now;
    updated_at = env.now;
  }
  add_profile row
  add_fact changed_concurrently (
      profile_fact env row "owner_face_profile.draft_created" (
        ("revision", num row.revision)
        ∷ ("model_id", str model_id)
        ∷ ("preprocessing_version", str preprocessing_version)
        ∷ []))
  pure row

unfoldable pub clear_profile : Env → String → ProfileCall OwnerFaceProfileRevisionRow
unfolding latest_profile supersede_profiles add_profile
clear_profile env owner_id = do
  raise_if (← gets (λ db. not (owner_exists owner_id db))) owner_not_found
  latest ← gets (latest_profile owner_id)
  supersede_profiles env (λ r. is_profile_of owner_id r && (is_draft r.state || is_desired r.state))
  let row : OwnerFaceProfileRevisionRow = record {
    profile_revision_id = "ofpr_" ⧺ env.uuid 1;
    profile_id = profile_id_of env latest;
    owner_id = owner_id;
    revision = next_revision latest;
    state = desired;
    desired_state = cleared;
    model_id = none;
    preprocessing_version = none;
    activated_at = some env.now;
    created_at = env.now;
    updated_at = env.now;
  }
  add_profile row
  add_fact changed_concurrently
      (profile_fact env row "owner_face_profile.cleared" (("revision", num row.revision) ∷ []))
  pure row

abbrev pub is_reference_of : String → OwnerFaceReferenceRow → Bool
is_reference_of revision_id row = row.profile_revision_id == revision_id

unfoldable pub load_profile : String → ProfileCall OwnerFaceProfileRevisionRow
load_profile revision_id = do
  found ← gets (λ db. find (has_revision_id revision_id) db.owner_face_profile_revisions)
  or_raise found revision_not_found

abbrev pub set_desired : ℕ → OwnerFaceProfileRevisionRow → OwnerFaceProfileRevisionRow
set_desired now row = record row { state = desired; activated_at = some now; updated_at = now }

abbrev pub has_poses : List String → List OwnerFaceReferenceRow → Bool
has_poses [] references = true
has_poses (pose ∷ poses) references =
    exists_where (λ r. r.pose == pose) references && has_poses poses references

unfoldable pub activate : GuardLimits → Env → String → ProfileCall OwnerFaceProfileRevisionRow
unfolding load_profile supersede_profiles
activate limits env revision_id = do
  profile ← load_profile revision_id
  raise_if (not (is_draft profile.state && wants_active profile.desired_state)) not_an_active_draft
  references ← gets (λ db. select_where (is_reference_of revision_id) db.owner_face_references)
  raise_if
      (ltb (length references) limits.min_references
        || ltb limits.max_references (length references))
      wrong_reference_count
  raise_if (not (has_poses limits.required_poses references)) poses_missing
  supersede_profiles env (λ r. is_profile_of profile.owner_id r && is_desired r.state)
  modify (λ db. record db {
    owner_face_profile_revisions =
        update_where (has_revision_id revision_id) (set_desired env.now)
          db.owner_face_profile_revisions;
  })
  add_fact integrity_error (
      profile_fact env profile "owner_face_profile.desired"
        (("revision", num profile.revision) ∷ ("reference_count", num (length references)) ∷ []))
  pure (set_desired env.now profile)

-- The reads.
unfoldable pub get_revision : String → Db → Option OwnerFaceProfileRevisionRow
get_revision revision_id db = find (has_revision_id revision_id) db.owner_face_profile_revisions

abbrev pub is_desired_of : String → OwnerFaceProfileRevisionRow → Bool
is_desired_of owner_id row = is_profile_of owner_id row && is_desired row.state

unfoldable pub get_desired_for_owner : String → Db → Option OwnerFaceProfileRevisionRow
get_desired_for_owner owner_id db = find (is_desired_of owner_id) db.owner_face_profile_revisions
