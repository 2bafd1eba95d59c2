-- ===== src/Teams/Starts.antt =====
-- `TeamAssets.reserve_start`, `confirm_closed` and `start_snapshot`.
use eidolon_data.Prelude.{
  ℕ, String, Bool, true, false, not, ◌&&◌, ◌||◌, Option, none, some, [], ◌∷◌, ◌++◌, if◌then◌else◌,
  ◌==◌, ◌!=◌, is_none, JsonDict, find, update_where, count_where, pure, gets, or_raise, raise_if,
  modify, ◌>>=◌, ◌>>◌, nat_eq, string_eq, option_eq,
}
use eidolon_data.Schema.{TeamRow, TeamStartRow}
use eidolon_data.Teams.Sdk.{
  TeamSdk, not_found, revision_conflict, team_busy_or_revision_conflict, idempotency_conflict,
  run_already_closed, invalid_closure_evidence, snapshot_identity_mismatch,
  snapshot_configuration_mismatch, validation_error, attribute_error,
}
use eidolon_data.Teams.Tables.{TeamCall, require_owner, is_team, is_revision}
use eidolon_data.Teams.Assets.{TeamRevision, make_revision, read_configuration}

abbrev pub is_start : String → String → TeamStartRow → Bool
is_start owner_id session_id row = row.owner_id == owner_id && row.session_id == session_id

abbrev pub is_hosted : String → String → String → TeamRow → Bool
is_hosted owner_id host_id team_id t = is_team owner_id team_id t && t.host_id == host_id

-- the WHERE clause of `reserve_start`: the session holds the team, or nobody does and the revision
-- is current
abbrev pub is_reservable : String → String → String → ℕ → String → TeamRow → Bool
is_reservable owner_id host_id team_id revision session_id t =
    is_hosted owner_id host_id team_id t
    && not t.deleted
    && (t.active_session_id == some session_id
        || is_none t.active_session_id && t.revision == revision)

abbrev pub set_session : Option String → TeamRow → TeamRow
set_session session t = record t { active_session_id = session }

abbrev pub new_start : String → String → String → ℕ → TeamStartRow
new_start owner_id session_id team_id revision = record {
  owner_id = owner_id;
  session_id = session_id;
  team_id = team_id;
  revision = revision;
  closed = false;
  selection = none;
  terminal_status = none;
}

-- the branches on `previous`; the foreign key of a new row is the SELECT that follows
unfoldable pub record_start :
    String → String → ℕ → String → Option TeamStartRow → TeamCall (Unit {0})
record_start owner_id team_id revision session_id none = modify (λ db. record db {
  team_starts = db.team_starts ++ new_start owner_id session_id team_id revision ∷ [];
})
record_start owner_id team_id revision session_id (some previous) = do
  raise_if (previous.team_id != team_id || previous.revision != revision) idempotency_conflict
  raise_if previous.closed run_already_closed

-- What `confirm_closed` reads of the SDK's terminal status, with its `model_dump`.
pub record TerminalStatus : Type 0 where
  pub state : String
  pub session_id : String
  pub dumped : JsonDict

abbrev pub proves_closed : String → Option TerminalStatus → Bool
proves_closed session_id none = true
proves_closed session_id (some status) = status.state == "closed" && status.session_id == session_id

abbrev pub is_start_of : String → String → String → TeamStartRow → Bool
is_start_of owner_id session_id team_id row =
    is_start owner_id session_id row && row.team_id == team_id

abbrev pub set_closed : Option TerminalStatus → TeamStartRow → TeamStartRow
set_closed none row = record row { closed = true }
set_closed (some status) row = record row { closed = true; terminal_status = some status.dumped }

abbrev pub holds_session : String → String → String → TeamRow → Bool
holds_session owner_id team_id session_id t =
    is_team owner_id team_id t && t.active_session_id == some session_id

unfoldable pub confirm_closed :
    String → String → String → String → Option TerminalStatus → TeamCall (Unit {0})
confirm_closed owner_id host_id team_id session_id terminal_status = do
  raise_if (not (proves_closed session_id terminal_status)) invalid_closure_evidence
  found ← gets (λ db. find (is_team owner_id team_id) db.teams)
  t ← or_raise found not_found
  raise_if (t.host_id != host_id) not_found
  closed ← gets (λ db. count_where (is_start_of owner_id session_id team_id) db.team_starts)
  raise_if (closed != 1) not_found
  modify (λ db. record db {
    team_starts =
        update_where (is_start_of owner_id session_id team_id) (set_closed terminal_status)
          db.team_starts;
    teams = update_where (holds_session owner_id team_id session_id) (set_session none) db.teams;
  })

pub record TeamStartSnapshot : Type 0 where
  pub team_id : String
  pub session_id : String
  pub revision : ℕ
  pub closed : Bool
  pub selection : Option JsonDict
  pub terminal_status : Option JsonDict

abbrev pub snapshot_of : TeamStartRow → TeamStartSnapshot
snapshot_of row = record {
  team_id = row.team_id;
  session_id = row.session_id;
  revision = row.revision;
  closed = row.closed;
  selection = row.selection;
  terminal_status = row.terminal_status;
}

-- `if row.selection is None: row.selection = …`
abbrev pub keep_first : JsonDict → TeamStartRow → TeamStartRow
keep_first dumped row =
    if is_none row.selection then record row { selection = some dumped } else row

module _ (sdk : TeamSdk) where
  open sdk use {
    Configuration, is_identifier, Selection, selection_session, same_selection, dump_selection,
    resolve,
  }

  unfoldable pub reserve_start :
      String → String → String → ℕ → String → TeamCall (TeamRevision Configuration)
  reserve_start owner_id host_id team_id expected_revision session_id = do
    raise_if (not (is_identifier session_id)) validation_error
    require_owner owner_id
    let fits = is_reservable owner_id host_id team_id expected_revision session_id
    changed ← gets (λ db. count_where fits db.teams)
    raise_if (changed != 1) team_busy_or_revision_conflict
    modify (λ db. record db { teams = update_where fits (set_session (some session_id)) db.teams })
    previous ← gets (λ db. find (is_start owner_id session_id) db.team_starts)
    record_start owner_id team_id expected_revision session_id previous
    found ← gets (λ db. find (is_revision owner_id team_id expected_revision) db.team_revisions)
    saved ← or_raise found revision_conflict
    configuration ← read_configuration sdk saved.configuration
    make_revision sdk team_id expected_revision configuration

  abbrev matches_resolution : Option Selection → Selection → Bool
  matches_resolution none selection = false
  matches_resolution (some expected) selection = same_selection expected selection

  -- the checks of a selection that is offered
  unfoldable pub accept_selection :
      String → String → String → TeamStartRow → Selection → TeamCall (Unit {0})
  accept_selection owner_id team_id session_id row selection = do
    raise_if row.closed run_already_closed
    raise_if (selection_session selection != session_id) snapshot_identity_mismatch
    found ← gets (λ db. find (is_revision owner_id team_id row.revision) db.team_revisions)
    saved ← or_raise found attribute_error
    configuration ← read_configuration sdk saved.configuration
    raise_if (not (matches_resolution (resolve configuration session_id selection) selection))
        snapshot_configuration_mismatch
    modify (λ db. record db {
      team_starts =
          update_where (is_start owner_id session_id) (keep_first (dump_selection selection))
            db.team_starts;
    })

  abbrev offered : TeamStartRow → Option Selection → TeamStartRow
  offered row none = row
  offered row (some selection) = keep_first (dump_selection selection) row

  unfoldable pub offer_selection :
      String → String → String → TeamStartRow → Option Selection → TeamCall (Unit {0})
  offer_selection owner_id team_id session_id row none = pure tt
  offer_selection owner_id team_id session_id row (some selection) =
      accept_selection owner_id team_id session_id row selection

  unfoldable pub start_snapshot :
      String → String → String → String → Option Selection → TeamCall TeamStartSnapshot
  start_snapshot owner_id host_id team_id session_id selection = do
    owned ← gets (λ db. count_where (is_hosted owner_id host_id team_id) db.teams)
    raise_if (owned != 1) not_found
    require_owner owner_id
    found ← gets (λ db. find (is_start owner_id session_id) db.team_starts)
    row ← or_raise found not_found
    raise_if (row.team_id != team_id) not_found
    offer_selection owner_id team_id session_id row selection
    pure (snapshot_of (offered row selection))
