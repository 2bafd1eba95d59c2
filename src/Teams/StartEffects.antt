-- ===== src/Teams/StartEffects.antt =====
-- What `reserve_start`, `confirm_closed`, `start_snapshot` and `delete` have done to the tables when
-- they return.
use eidolon_data.Prelude.{
  ℕ, String, ◌≡◌, refl, inl, inr, false, Option, none, some, [], ◌∷◌, ◌++◌, arith, ==→≡,
  Option-cases, find, update_where, count_where, ok, nat_eq, string_eq, option_eq,
}
use eidolon_data.Schema.{Db, TeamStartRow}
use eidolon_data.Teams.Sdk.{TeamSdk}
use eidolon_data.Teams.Tables.{require_owner}
use eidolon_data.Teams.Assets.{
  TeamRevision, make_revision, read_configuration, is_deletable, set_deleted, delete,
}
use eidolon_data.Teams.Starts.{
  is_start, is_reservable, set_session, new_start, record_start, TerminalStatus, is_start_of,
  set_closed, holds_session, confirm_closed, TeamStartSnapshot, keep_first, reserve_start,
  accept_selection, offer_selection, start_snapshot,
}

-- The start row of the session after `reserve_start`: a new one, or the one that was there.
pub data Recorded (owner_id team_id : String) (revision : ℕ) (session_id : String) (db db' : Db)
    : Type 0 where
  recorded :
      find (is_start owner_id session_id) db.team_starts ≡ none
      → db'.team_starts ≡ db.team_starts ++ new_start owner_id session_id team_id revision ∷ []
      → Recorded owner_id team_id revision session_id db db'
  recorded_before :
      (previous : TeamStartRow)
      → find (is_start owner_id session_id) db.team_starts ≡ some previous
      → previous.team_id ≡ team_id
      → previous.revision ≡ revision
      → previous.closed ≡ false
      → db'.team_starts ≡ db.team_starts
      → Recorded owner_id team_id revision session_id db db'

-- One team fitted, and it is held by the session now.
pub record Reserved (owner_id host_id team_id : String) (revision : ℕ) (session_id : String)
    (db db' : Db) : Type 0 where
  pub fitted : count_where (is_reservable owner_id host_id team_id revision session_id) db.teams ≡ 1
  pub teams :
      db'.teams
      ≡ update_where
          (is_reservable owner_id host_id team_id revision session_id)
          (set_session (some session_id))
          db.teams
  pub revisions : db'.team_revisions ≡ db.team_revisions
  pub owners : db'.owners ≡ db.owners
  pub starts : Recorded owner_id team_id revision session_id db db'

module _ (sdk : TeamSdk) (owner_id host_id team_id : String) (revision : ℕ) (session_id : String)
    (db db' : Db) (result : TeamRevision sdk.Configuration)
    (ran : reserve_start sdk owner_id host_id team_id revision session_id db
      ≡ ok (result, db')) where
  reserve_start_recorded :
      find (is_start owner_id session_id) db.team_starts ≡ none
      → Recorded owner_id team_id revision session_id db db'
  unfolding reserve_start require_owner record_start make_revision read_configuration
  reserve_start_recorded missing = recorded missing (ground arith)

  reserve_start_before :
      (previous : TeamStartRow)
      → find (is_start owner_id session_id) db.team_starts ≡ some previous
      → Recorded owner_id team_id revision session_id db db'
  unfolding reserve_start require_owner record_start make_revision read_configuration
  reserve_start_before previous found =
      recorded_before previous found (ground (arith, ==→≡ previous.team_id team_id))
        (ground (arith, ==→≡ previous.revision revision)) (ground arith) (ground arith)

  pub reserve_start-Reserved : Reserved owner_id host_id team_id revision session_id db db'
  unfolding reserve_start require_owner record_start make_revision read_configuration
  reserve_start-Reserved = record {
    fitted = ground arith;
    teams = ground arith;
    revisions = ground arith;
    owners = ground arith;
    starts = elim (Option-cases (find (is_start owner_id session_id) db.team_starts)) [
      | inl missing ↦ reserve_start_recorded missing
      | inr (previous, found) ↦ reserve_start_before previous found
    ];
  }

-- The session's start of this team is closed, and the team free of it.
pub record Closed (owner_id team_id session_id : String) (status : Option TerminalStatus)
    (db db' : Db) : Type 0 where
  pub fitted : count_where (is_start_of owner_id session_id team_id) db.team_starts ≡ 1
  pub tables : db' ≡ record db {
    team_starts =
        update_where (is_start_of owner_id session_id team_id) (set_closed status) db.team_starts;
    teams = update_where (holds_session owner_id team_id session_id) (set_session none) db.teams;
  }

pub confirm_closed-Closed :
    (owner_id host_id team_id session_id : String) (status : Option TerminalStatus) (db db' : Db)
    → confirm_closed owner_id host_id team_id session_id status db ≡ ok (tt, db')
    → Closed owner_id team_id session_id status db db'
unfolding confirm_closed
confirm_closed-Closed owner_id host_id team_id session_id status db db' ran = record {
  fitted = ground arith;
  tables = ground arith;
}

-- One team fitted, and it is deleted now.
pub record Deleted (owner_id host_id team_id : String) (revision : ℕ) (db db' : Db) : Type 0 where
  pub fitted : count_where (is_deletable owner_id host_id team_id revision) db.teams ≡ 1
  pub tables : db' ≡ record db {
    teams = update_where (is_deletable owner_id host_id team_id revision) set_deleted db.teams;
  }

pub delete-Deleted :
    (owner_id host_id team_id : String) (revision : ℕ) (db db' : Db)
    → delete owner_id host_id team_id revision db ≡ ok (tt, db')
    → Deleted owner_id host_id team_id revision db db'
unfolding delete require_owner
delete-Deleted owner_id host_id team_id revision db db' ran = record {
  fitted = ground arith;
  tables = ground arith;
}

-- `start_snapshot` only read; or the start was open, and has the selection if it had none.
pub data Snapshotted (sdk : TeamSdk) (owner_id team_id session_id : String)
    (selection : Option sdk.Selection) (db db' : Db) : Type 0 where
  looked :
      selection ≡ none → db' ≡ db → Snapshotted sdk owner_id team_id session_id selection db db'
  accepted :
      (row : TeamStartRow) (s : sdk.Selection)
      → selection ≡ some s
      → find (is_start owner_id session_id) db.team_starts ≡ some row
      → row.team_id ≡ team_id
      → row.closed ≡ false
      → db' ≡ record db {
        team_starts =
            update_where
              (is_start owner_id session_id)
              (keep_first (sdk.dump_selection s))
              db.team_starts;
      }
      → Snapshotted sdk owner_id team_id session_id selection db db'

module _ (sdk : TeamSdk) (owner_id host_id team_id session_id : String) (db db' : Db)
    (result : TeamStartSnapshot) where
  start_snapshot_accepted :
      (row : TeamStartRow) (s : sdk.Selection)
      → find (is_start owner_id session_id) db.team_starts ≡ some row
      → start_snapshot sdk owner_id host_id team_id session_id (some s) db ≡ ok (result, db')
      → Snapshotted sdk owner_id team_id session_id (some s) db db'
  unfolding start_snapshot require_owner offer_selection accept_selection read_configuration
  start_snapshot_accepted row s found ran =
      accepted row s refl found (ground (arith, ==→≡ row.team_id team_id)) (ground arith)
        (ground arith)

  pub start_snapshot-Snapshotted :
      (selection : Option sdk.Selection)
      → start_snapshot sdk owner_id host_id team_id session_id selection db ≡ ok (result, db')
      → Snapshotted sdk owner_id team_id session_id selection db db'
  unfolding start_snapshot require_owner offer_selection
  start_snapshot-Snapshotted none ran = looked refl (ground arith)
  start_snapshot-Snapshotted (some s) ran =
      elim (Option-cases (find (is_start owner_id session_id) db.team_starts)) [
        | inl missing ↦ absurd (ground arith)
        | inr (row, found) ↦ start_snapshot_accepted row s found ran
      ]
