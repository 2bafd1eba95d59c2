-- ===== src/Teams/Effects.antt =====
-- What each call on the saved teams has done to the tables when it returns.
use eidolon_data.Prelude.{
  ℕ, zero, suc, ◌+◌, String, ◌≡◌, refl, ap, ◌∙◌, inl, inr, false, none, some, [], ◌∷◌, ◌++◌, arith,
  ==→≡, Option-cases, ℤ, pos_part, find, update_where, count_where, exists_where,
  find-none_of_exists, count_where-none, ok, nat_eq, string_eq, option_eq,
}
use eidolon_data.Schema.{Db, TeamRow, TeamRevisionRow}
use eidolon_data.Teams.Sdk.{TeamSdk}
use eidolon_data.Teams.Tables.{is_team, is_revision, add_team, add_revision}
use eidolon_data.Teams.Assets.{
  is_current, set_revision, advance_team, new_team, write_team, TeamRevision, make_revision,
  read_configuration, replay_accepted, replay, save_new, save,
}

module _ (sdk : TeamSdk) where
  open sdk use {Configuration, dump}

  abbrev pub saved_row : String → String → ℕ → Configuration → TeamRevisionRow
  saved_row owner_id team_id revision configuration = record {
    owner_id = owner_id;
    team_id = team_id;
    revision = revision;
    configuration = dump configuration;
  }

-- `save` found its revision, and changed nothing; or made a team with its first revision; or moved
-- the team from the expected revision to the next, which it stored.
pub data Saved (sdk : TeamSdk) (owner_id host_id team_id : String) (expected : ℕ)
    (c : sdk.Configuration) (db db' : Db) : Type 0 where
  replayed :
      (t : TeamRow) (row : TeamRevisionRow)
      → find (is_team owner_id team_id) db.teams ≡ some t
      → t.host_id ≡ host_id
      → t.deleted ≡ false
      → find (is_revision owner_id team_id (expected + 1)) db.team_revisions ≡ some row
      → sdk.validate row.configuration ≡ some c
      → db' ≡ db
      → Saved sdk owner_id host_id team_id expected c db db'
  created :
      expected ≡ 0
      → find (is_team owner_id team_id) db.teams ≡ none
      → exists_where (is_revision owner_id team_id 1) db.team_revisions ≡ false
      → db' ≡ record db {
        teams = db.teams ++ new_team owner_id host_id team_id ∷ [];
        team_revisions = db.team_revisions ++ saved_row sdk owner_id team_id 1 c ∷ [];
      }
      → Saved sdk owner_id host_id team_id expected c db db'
  advanced :
      (t : TeamRow)
      → find (is_team owner_id team_id) db.teams ≡ some t
      → t.host_id ≡ host_id
      → count_where (is_current owner_id host_id team_id expected) db.teams ≡ 1
      → exists_where (is_revision owner_id team_id (expected + 1)) db.team_revisions ≡ false
      → db' ≡ record db {
        teams =
            update_where
              (is_current owner_id host_id team_id expected)
              (set_revision (expected + 1))
              db.teams;
        team_revisions = db.team_revisions ++ saved_row sdk owner_id team_id (expected + 1) c ∷ [];
      }
      → Saved sdk owner_id host_id team_id expected c db db'

module _ (sdk : TeamSdk) (owner_id host_id team_id : String) (c : sdk.Configuration) (db db' : Db)
    (result : TeamRevision sdk.Configuration) where
  open sdk use {validate, same_configuration_iff}

  save_new_absent :
      (n : ℕ)
      → find (is_team owner_id team_id) db.teams ≡ none
      → save_new sdk owner_id host_id n
          (record { team_id = team_id; revision = n + 1; configuration = c })
          db
        ≡ ok (result, db')
      → Saved sdk owner_id host_id team_id n c db db'
  unfolding save_new write_team advance_team add_team add_revision
  save_new_absent zero missing ran = created refl missing (ground arith) (ground arith)
  save_new_absent (suc n) missing ran =
      let nothing =
        count_where-none (is_team owner_id team_id) (is_current owner_id host_id team_id (suc n))
          db.teams (λ x e. ground arith) missing in
      absurd (ground arith)

  save_new_present :
      (n : ℕ) (t : TeamRow)
      → find (is_team owner_id team_id) db.teams ≡ some t
      → t.host_id ≡ host_id
      → save_new sdk owner_id host_id n
          (record { team_id = team_id; revision = n + 1; configuration = c })
          db
        ≡ ok (result, db')
      → Saved sdk owner_id host_id team_id n c db db'
  unfolding save_new write_team advance_team add_team add_revision
  save_new_present zero t found host ran =
      absurd (ground (arith, find-none_of_exists (is_team owner_id team_id) db.teams))
  save_new_present (suc n) t found host ran =
      advanced t found host (ground arith) (ground arith) (ground arith)

  -- the answer does not depend on the tables
  module _ (expected : ℤ)
      (ran : save sdk owner_id host_id team_id expected c db ≡ ok (result, db')) where
    pub save_result :
        result ≡ record { team_id = team_id; revision = pos_part expected + 1; configuration = c }
    unfolding save save_new make_revision
    save_result = ground arith

    save_found_configuration :
        (t : TeamRow) (row : TeamRevisionRow)
        → find (is_team owner_id team_id) db.teams ≡ some t
        → find (is_revision owner_id team_id (pos_part expected + 1)) db.team_revisions ≡ some row
        → validate row.configuration ≡ some c
    unfolding save make_revision replay replay_accepted read_configuration
    save_found_configuration t row found stored = elim (Option-cases (validate row.configuration)) [
      | inl missing ↦ absurd (ground arith)
      | inr (c', e) ↦ e ∙ ap some ((same_configuration_iff c' c).0 (ground arith))
    ]

    save_found :
        (t : TeamRow) (row : TeamRevisionRow)
        → find (is_team owner_id team_id) db.teams ≡ some t
        → find (is_revision owner_id team_id (pos_part expected + 1)) db.team_revisions ≡ some row
        → Saved sdk owner_id host_id team_id (pos_part expected) c db db'
    unfolding save make_revision replay replay_accepted read_configuration
    save_found t row found stored =
        replayed t row found (ground (arith, ==→≡ t.host_id host_id)) (ground arith) stored
          (save_found_configuration t row found stored) (ground arith)

    save_not_found :
        find (is_team owner_id team_id) db.teams ≡ none
        → Saved sdk owner_id host_id team_id (pos_part expected) c db db'
    unfolding save make_revision replay
    save_not_found found = save_new_absent (pos_part expected) found (ground arith)

    save_not_stored :
        (t : TeamRow)
        → find (is_team owner_id team_id) db.teams ≡ some t
        → find (is_revision owner_id team_id (pos_part expected + 1)) db.team_revisions ≡ none
        → Saved sdk owner_id host_id team_id (pos_part expected) c db db'
    unfolding save make_revision replay
    save_not_stored t found stored =
        save_new_present (pos_part expected) t found (ground (arith, ==→≡ t.host_id host_id))
          (ground arith)

    pub save-Saved : Saved sdk owner_id host_id team_id (pos_part expected) c db db'
    save-Saved = elim (Option-cases (find (is_team owner_id team_id) db.teams)) [
      | inl missing ↦ save_not_found missing
      | inr (t, found) ↦
          elim (Option-cases
            (find (is_revision owner_id team_id (pos_part expected + 1)) db.team_revisions)) [
              | inl missing ↦ save_not_stored t found missing
              | inr (row, stored) ↦ save_found t row found stored
            ]
    ]
