-- ===== src/Teams/Assets.antt =====
-- `TeamAssets.save`, `get`, `list` and `delete`.
use eidolon_data.Prelude.{
  ℕ, zero, suc, ◌+◌, String, Bool, true, false, not, ◌&&◌, ◌||◌, Option, none, some, List, [], ◌∷◌,
  if◌then◌else◌, ltb, ◌==◌, ◌!=◌, is_none, length, take, get_last?, ℤ, pos_part, ltb_ℤ, in_range,
  JsonDict, find, select_where, update_where, count_where, exists_where, sort_by, pure, gets,
  or_raise, raise_if, modify, ◌>>=◌, ◌>>◌, is_empty, codes, text_ltb, text_leb, nat_eq, string_eq,
  option_eq,
}
use eidolon_data.Schema.{Db, TeamRow, TeamRevisionRow}
use eidolon_data.Teams.Sdk.{
  TeamSdk, invalid_revision, invalid_host, not_found, revision_conflict, companion_unavailable,
  invalid_limit, team_busy_or_revision_conflict, validation_error,
}
use eidolon_data.Teams.Tables.{
  TeamCall, is_active_owner, require_owner, is_team, is_revision, same_set, available_companions,
  add_team, add_revision,
}

abbrev pub is_current : String → String → String → ℕ → TeamRow → Bool
is_current owner_id host_id team_id revision team =
    is_team owner_id team_id team
    && team.host_id == host_id
    && not team.deleted
    && team.revision == revision

abbrev pub set_revision : ℕ → TeamRow → TeamRow
set_revision revision team = record team { revision = revision }

-- the guarded UPDATE of `save`
unfoldable pub advance_team : String → String → String → ℕ → TeamCall (Unit {0})
advance_team owner_id host_id team_id revision = do
  changed ← gets (λ db. count_where (is_current owner_id host_id team_id revision) db.teams)
  raise_if (changed != 1) revision_conflict
  modify (λ db. record db {
    teams =
        update_where (is_current owner_id host_id team_id revision) (set_revision (revision + 1))
          db.teams;
  })

abbrev pub new_team : String → String → String → TeamRow
new_team owner_id host_id team_id = record {
  owner_id = owner_id;
  team_id = team_id;
  host_id = host_id;
  active_session_id = none;
  deleted = false;
  revision = 1;
}

-- the branches on `expected_revision == 0`
unfoldable pub write_team : String → String → String → ℕ → TeamCall (Unit {0})
write_team owner_id host_id team_id zero = do
  raise_if (← gets (λ db. exists_where (is_team owner_id team_id) db.teams)) revision_conflict
  add_team (new_team owner_id host_id team_id)
write_team owner_id host_id team_id (suc n) = advance_team owner_id host_id team_id (suc n)

-- The SDK's `TeamRevision`.
pub record TeamRevision (C : Type 0) : Type 0 where
  pub team_id : String
  pub revision : ℕ
  pub configuration : C

pub record TeamPage (C : Type 0) : Type 0 where
  pub teams : List (TeamRevision C)
  pub next_cursor : Option String

abbrev pub shown_team : String → String → TeamRow → Bool
shown_team owner_id host_id team =
    team.owner_id == owner_id && team.host_id == host_id && not team.deleted

abbrev pub joins : TeamRevisionRow → TeamRow → Bool
joins row team =
    team.owner_id == row.owner_id && team.team_id == row.team_id && team.revision == row.revision

-- TeamRevisionRow joined with TeamRow, under the WHERE clauses of `get` and `list`
abbrev pub is_shown_revision : String → String → (String → Bool) → Db → TeamRevisionRow → Bool
is_shown_revision owner_id host_id wanted db row =
    exists_where (λ team. joins row team && shown_team owner_id host_id team && wanted team.team_id)
      db.teams

module _ (sdk : TeamSdk) where
  open sdk use {Configuration, same_configuration, members, dump, validate, accepts}

  unfoldable pub make_revision : String → ℕ → Configuration → TeamCall (TeamRevision Configuration)
  make_revision team_id revision configuration = do
    raise_if (not (accepts team_id revision configuration)) validation_error
    pure (record { team_id = team_id; revision = revision; configuration = configuration })

  unfoldable pub read_configuration : JsonDict → TeamCall Configuration
  read_configuration stored = or_raise (validate stored) validation_error

  -- the answer to a revision that is there already
  unfoldable pub replay_accepted :
      Configuration → TeamRevision Configuration → TeamRevisionRow → TeamCall (Unit {0})
  replay_accepted configuration result accepted = do
    stored ← read_configuration accepted.configuration
    raise_if (not (same_configuration stored configuration)) revision_conflict

  -- the block `if existing is not None:`; whether `save` returns there
  unfoldable pub replay :
      String → String → Option TeamRow → TeamRevision Configuration → TeamCall Bool
  unfolding replay_accepted read_configuration
  replay owner_id host_id none result = pure false
  replay owner_id host_id (some team) result = do
    raise_if (team.host_id != host_id || team.deleted) revision_conflict
    accepted ←
        gets (λ db. find (is_revision owner_id result.team_id result.revision) db.team_revisions)
    elim accepted [
      | none ↦ pure false
      | some row ↦ replay_accepted result.configuration result row >> pure true
    ]

  -- the rest of `save`
  unfoldable pub save_new :
      String → String → ℕ → TeamRevision Configuration → TeamCall (TeamRevision Configuration)
  save_new owner_id host_id expected_revision result = do
    let ids = members result.configuration
    available ← gets (available_companions owner_id ids)
    raise_if (not (same_set available ids)) companion_unavailable
    write_team owner_id host_id result.team_id expected_revision
    add_revision (record {
      owner_id = owner_id;
      team_id = result.team_id;
      revision = result.revision;
      configuration = dump result.configuration;
    })
    pure result

  unfoldable pub save :
      String → String → String → ℤ → Configuration → TeamCall (TeamRevision Configuration)
  save owner_id host_id team_id expected_revision configuration = do
    raise_if (ltb_ℤ expected_revision 0) invalid_revision
    raise_if (is_empty host_id || ltb 128 (length (codes host_id))) invalid_host
    result ← make_revision team_id (pos_part expected_revision + 1) configuration
    authorized ← gets (λ db. count_where (is_active_owner owner_id) db.owners)
    raise_if (authorized != 1) not_found
    existing ← gets (λ db. find (is_team owner_id team_id) db.teams)
    replayed ← replay owner_id host_id existing result
    if replayed then pure result else save_new owner_id host_id (pos_part expected_revision) result

  unfoldable pub read_revision : TeamRevisionRow → TeamCall (TeamRevision Configuration)
  unfolding make_revision read_configuration
  read_revision row = do
    configuration ← read_configuration row.configuration
    make_revision row.team_id row.revision configuration

  unfoldable pub get : String → String → String → TeamCall (TeamRevision Configuration)
  get owner_id host_id team_id = do
    require_owner owner_id
    found ←
        gets
          (λ db. find (is_shown_revision owner_id host_id (λ t. t == team_id) db) db.team_revisions)
    row ← or_raise found not_found
    read_revision row

  unfoldable pub read_revisions :
      List TeamRevisionRow → TeamCall (List (TeamRevision Configuration))
  read_revisions [] = pure []
  read_revisions (row ∷ rows) = do
    first ← read_revision row
    rest ← read_revisions rows
    pure (first ∷ rest)

  abbrev cursor_of : Option TeamRevisionRow → Option String
  cursor_of none = none
  cursor_of (some row) = some row.team_id

  unfoldable pub list : String → String → String → ℤ → TeamCall (TeamPage Configuration)
  list owner_id host_id after limit = do
    raise_if (not (in_range 1 limit 100)) invalid_limit
    require_owner owner_id
    found ← gets (λ db.
        sort_by (λ a b. text_leb a.team_id b.team_id)
          (select_where (is_shown_revision owner_id host_id (text_ltb after) db) db.team_revisions))
    let rows = take (pos_part limit + 1) found
    let visible = take (pos_part limit) rows
    teams ← read_revisions visible
    pure (record {
      teams = teams;
      next_cursor =
          if ltb (pos_part limit) (length rows) then cursor_of (get_last? visible) else none;
    })

abbrev pub is_deletable : String → String → String → ℕ → TeamRow → Bool
is_deletable owner_id host_id team_id revision team =
    is_team owner_id team_id team
    && team.host_id == host_id
    && team.revision == revision
    && is_none team.active_session_id

abbrev pub set_deleted : TeamRow → TeamRow
set_deleted team = record team { deleted = true }

unfoldable pub delete : String → String → String → ℕ → TeamCall (Unit {0})
delete owner_id host_id team_id expected_revision = do
  require_owner owner_id
  changed ←
      gets (λ db. count_where (is_deletable owner_id host_id team_id expected_revision) db.teams)
  raise_if (changed != 1) team_busy_or_revision_conflict
  modify (λ db. record db {
    teams =
        update_where (is_deletable owner_id host_id team_id expected_revision) set_deleted db.teams;
  })
