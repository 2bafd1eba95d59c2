-- ===== src/Teams/Tables.antt =====
-- The rows that services/teams.py looks for, and the rows that it adds.
use eidolon_data.Prelude.{
  ℕ, String, Bool, true, not, ◌&&◌, List, [], ◌∷◌, ◌++◌, map, ◌==◌, select_where, exists_where, mem,
  Tx, gets, raise_if, modify, ◌>>=◌, ◌>>◌, nat_eq, string_eq, option_eq,
}
use eidolon_data.Schema.{
  Db, OwnerRow, CompanionRow, owner_active, companion_active, TeamRow, TeamRevisionRow,
}
use eidolon_data.Teams.Sdk.{TeamError, not_found, integrity_error}

abbrev pub TeamCall : Type 0 → Type 0
TeamCall A = Tx Db TeamError A

abbrev pub is_active_owner : String → OwnerRow → Bool
is_active_owner owner_id owner = owner.owner_id == owner_id && owner_active owner.status

-- `owner = await session.get(OwnerRow, owner_id)` and its test
unfoldable pub require_owner : String → TeamCall (Unit {0})
require_owner owner_id = do
  raise_if (← gets (λ db. not (exists_where (is_active_owner owner_id) db.owners))) not_found

abbrev pub is_team : String → String → TeamRow → Bool
is_team owner_id team_id team = team.owner_id == owner_id && team.team_id == team_id

abbrev pub is_revision : String → String → ℕ → TeamRevisionRow → Bool
is_revision owner_id team_id revision row =
    row.owner_id == owner_id && row.team_id == team_id && row.revision == revision

-- `available != ids`, as sets
abbrev pub all_in : List String → List String → Bool
all_in [] ys = true
all_in (x ∷ xs) ys = mem x ys && all_in xs ys

abbrev pub same_set : List String → List String → Bool
same_set xs ys = all_in xs ys && all_in ys xs

abbrev pub is_available : String → List String → CompanionRow → Bool
is_available owner_id ids c =
    c.owner_id == owner_id && mem c.companion_id ids && companion_active c.lifecycle_state

unfoldable pub available_companions : String → List String → Db → List String
available_companions owner_id ids db =
    map (λ c. c.companion_id) (select_where (is_available owner_id ids) db.companions)

-- `session.add(TeamRow(…))` and its flush; the Owner has been found before
unfoldable pub add_team : TeamRow → TeamCall (Unit {0})
add_team team = do
  raise_if (← gets (λ db. exists_where (is_team team.owner_id team.team_id) db.teams))
      integrity_error
  modify (λ db. record db { teams = db.teams ++ team ∷ [] })

-- `session.add(TeamRevisionRow(…))`, flushed at the commit
unfoldable pub add_revision : TeamRevisionRow → TeamCall (Unit {0})
add_revision row = do
  raise_if
      (← gets
        (λ db. exists_where (is_revision row.owner_id row.team_id row.revision) db.team_revisions))
      integrity_error
  raise_if (← gets (λ db. not (exists_where (is_team row.owner_id row.team_id) db.teams)))
      integrity_error
  modify (λ db. record db { team_revisions = db.team_revisions ++ row ∷ [] })
