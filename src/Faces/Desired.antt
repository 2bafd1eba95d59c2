-- ===== src/Faces/Desired.antt =====
-- The desired revision of an Owner's face profile.
use eidolon_data.Prelude.{
  ℕ, ◌≤◌, String, ◌≡◌, refl, ◌∙◌, inl, inr, Bool, true, false, ◌&&◌, ◌||◌, none, some, List, [],
  ◌∷◌, ◌++◌, arith, eq_iff, Option-cases, length, find, select_where, update_where, exists_where,
  find-append_none, ok, nat_eq, string_eq, option_eq,
}
use eidolon_data.Schema.{
  Db, Env, desired, cleared, OwnerFaceProfileRevisionRow, is_draft, is_desired,
}
use eidolon_data.Audit.Row.{governance_fact}
use eidolon_data.Audit.Facts.{add_fact}
use eidolon_data.Faces.Profiles.{
  GuardLimits, is_profile_of, has_revision_id, set_profile_superseded, supersede_profiles,
  add_profile, clear_profile, is_reference_of, load_profile, set_desired, has_poses, activate,
  is_desired_of, get_desired_for_owner,
}

activated_found :
    (now : ℕ) (i : String) (p : OwnerFaceProfileRevisionRow)
    (rows : List OwnerFaceProfileRevisionRow)
    → find (has_revision_id i) rows ≡ some p
    → is_draft p.state ≡ true
    → find (is_desired_of p.owner_id) (
        update_where (has_revision_id i) (set_desired now) (
          update_where
            (λ r. is_profile_of p.owner_id r && is_desired r.state)
            (set_profile_superseded now)
            rows))
      ≡ some (set_desired now p)
activated_found now i p [] found fresh = cc
activated_found now i p (row ∷ rows) found fresh =
    ground (arith, activated_found now i p rows, eq_iff p.owner_id p.owner_id)

module _ (limits : GuardLimits) (env : Env) (i : String) (db db' : Db)
    (row p : OwnerFaceProfileRevisionRow) (ran : activate limits env i db ≡ ok (row, db'))
    (found : find (has_revision_id i) db.owner_face_profile_revisions ≡ some p) where
  activate_draft : (is_draft p.state ≡ true) × (row ≡ set_desired env.now p)
  unfolding activate load_profile supersede_profiles add_fact governance_fact
  activate_draft = (ground arith, ground arith)

  activate_table :
      db'.owner_face_profile_revisions
      ≡ update_where (has_revision_id i) (set_desired env.now) (
          update_where
            (λ r. is_profile_of p.owner_id r && is_desired r.state)
            (set_profile_superseded env.now)
            db.owner_face_profile_revisions)
  unfolding activate load_profile supersede_profiles add_fact governance_fact
  activate_table = ground arith

  activate_found : get_desired_for_owner row.owner_id db' ≡ some row
  unfolding get_desired_for_owner
  activate_found =
      let (is_new, answer) = activate_draft in
      rw (activate_table, answer)
        (activated_found env.now i p db.owner_face_profile_revisions found is_new)

-- What `activate` demands of the references that are stored for a revision.
pub record IsComplete (limits : GuardLimits) (i : String) (db : Db) : Type 0 where
  pub enough :
      limits.min_references ≤ length (select_where (is_reference_of i) db.owner_face_references)
  pub not_more :
      length (select_where (is_reference_of i) db.owner_face_references) ≤ limits.max_references
  pub poses :
      has_poses limits.required_poses (select_where (is_reference_of i) db.owner_face_references)
      ≡ true

-- A revision that has been activated is its Owner's desired one, with as many references as the
-- limits ask for and all required poses.
pub activate_current :
    (limits : GuardLimits) (env : Env) (revision_id : String) (db db' : Db)
    (row : OwnerFaceProfileRevisionRow)
    → activate limits env revision_id db ≡ ok (row, db')
    → (get_desired_for_owner row.owner_id db' ≡ some row) × IsComplete limits revision_id db
unfolding activate load_profile supersede_profiles
activate_current limits env i db db' row ran = (
  elim (Option-cases (find (has_revision_id i) db.owner_face_profile_revisions)) [
    | inl missing ↦ absurd (ground arith)
    | inr (p, found) ↦ activate_found limits env i db db' row p ran found
  ],
  record { enough = ground arith; not_more = ground arith; poses = ground arith },
)

none_desired_left :
    (now : ℕ) (o : String) (rows : List OwnerFaceProfileRevisionRow)
    → find (is_desired_of o) (
        update_where
          (λ r. is_profile_of o r && (is_draft r.state || is_desired r.state))
          (set_profile_superseded now)
          rows)
      ≡ none
none_desired_left now o [] = refl
none_desired_left now o (row ∷ rows) = ground (arith, none_desired_left now o rows)

abbrev pub is_draft_of : String → OwnerFaceProfileRevisionRow → Bool
is_draft_of owner_id row = is_profile_of owner_id row && is_draft row.state

no_draft_left :
    (now : ℕ) (o : String) (rows : List OwnerFaceProfileRevisionRow)
    (new : OwnerFaceProfileRevisionRow)
    → is_draft_of o new ≡ false
    → exists_where (is_draft_of o) (
        update_where
          (λ r. is_profile_of o r && (is_draft r.state || is_desired r.state))
          (set_profile_superseded now)
          rows
        ++ new ∷ [])
      ≡ false
no_draft_left now o [] new h = ground arith
no_draft_left now o (row ∷ rows) new h = ground (arith, no_draft_left now o rows new)

module _ (env : Env) (o : String) (db db' : Db) (row : OwnerFaceProfileRevisionRow)
    (ran : clear_profile env o db ≡ ok (row, db')) where
  clear_profile_row : (row.owner_id ≡ o) × (row.state ≡ desired) × (row.desired_state ≡ cleared)
  unfolding clear_profile supersede_profiles add_profile add_fact governance_fact
  clear_profile_row = (ground arith, ground arith, ground arith)

  clear_profile_table :
      db'.owner_face_profile_revisions
      ≡ update_where
          (λ r. is_profile_of o r && (is_draft r.state || is_desired r.state))
          (set_profile_superseded env.now)
          db.owner_face_profile_revisions
        ++ row ∷ []
  unfolding clear_profile supersede_profiles add_profile add_fact governance_fact
  clear_profile_table = ground arith

  -- Clearing leaves the Owner with a desired revision that asks for no face, and with no draft.
  pub clear_profile_current :
      (get_desired_for_owner o db' ≡ some row)
      × (row.desired_state ≡ cleared)
      × (exists_where (is_draft_of o) db'.owner_face_profile_revisions ≡ false)
  unfolding get_desired_for_owner
  clear_profile_current =
      let rows = db.owner_face_profile_revisions in
      let (mine, is_new, asks) = clear_profile_row in
      let old =
        update_where (λ r. is_profile_of o r && (is_draft r.state || is_desired r.state))
          (set_profile_superseded env.now) rows in
      (
        rw clear_profile_table (
            find-append_none (is_desired_of o) old (row ∷ []) (none_desired_left env.now o rows)
            ∙ ground (arith, eq_iff row.owner_id o)),
        asks,
        rw clear_profile_table (no_draft_left env.now o rows row (ground arith)),
      )
