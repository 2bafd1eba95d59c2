-- ===== src/Tests/Teams.antt =====
-- Teams.
use eidolon_data.Prelude.{
  ℕ, String, ◌≡◌, refl, ◌≢◌, true, false, not, Option, none, some, List, [], ◌∷◌, arith, eq_iff,
  nat_beq_iff, ◌==◌, pos, negsuc, num, JsonDict, find, ok, err, committed, is_empty, string_eq,
  nat_eq, option_eq,
}
use eidolon_data.Schema.{Db, TeamRow, TeamStartRow}
use eidolon_data.Teams.Sdk.{
  TeamSdk, invalid_revision, not_found, revision_conflict, companion_unavailable,
  team_busy_or_revision_conflict, run_already_closed, integrity_error,
}
use eidolon_data.Teams.Tables.{
  TeamCall, require_owner, is_team, available_companions, add_team, add_revision,
}
use eidolon_data.Teams.Assets.{
  advance_team, new_team, write_team, TeamRevision, make_revision, read_configuration,
  replay_accepted, replay, save_new, save, read_revision, read_revisions, delete, get, list,
}
use eidolon_data.Teams.Starts.{
  is_start, set_session, new_start, record_start, confirm_closed, reserve_start, accept_selection,
  offer_selection, start_snapshot,
}
use eidolon_data.Teams.StartPages.{starts_page, starts}
use eidolon_data.Teams.Reached.{IsReached}
use eidolon_data.Teams.Keys.{save-keeps_keys}
use eidolon_data.Teams.Holding.{IsKeyed}
use eidolon_data.Teams.Exclusion.{perform_all-IsKeyed, reserve_start_alone, delete_waits}
use eidolon_data.Teams.Runs.{StartCameFrom, perform_all-StartEvolves}
use eidolon_data.Teams.Reading.{get-save}
use eidolon_data.Teams.Lasting.{TeamCameFrom, perform_all-TeamEvolves}
use eidolon_data.Teams.Calls.{
  Action, call_save, call_reserve_start, call_confirm_closed, call_start_snapshot, call_delete,
  perform, perform_all,
}
use eidolon_data.Teams.Replay.{save_again, save_once}
use eidolon_data.Tests.Fixtures.{db_fixture}

-- A configuration is a number, with one member; a selection is a session's id.
abbrev validate_number : JsonDict → Option ℕ
validate_number ((key, num n) ∷ []) = some n
validate_number _ = none

abbrev sdk : TeamSdk
sdk = record {
  Configuration = ℕ;
  same_configuration = λ a b. a == b;
  members = λ c. "talker" ∷ [];
  dump = λ c. ("seed", num c) ∷ [];
  validate = validate_number;
  accepts = λ team_id revision c. not (is_empty team_id);
  is_identifier = λ s. not (is_empty s);
  Selection = String;
  selection_session = λ s. s;
  same_selection = λ a b. a == b;
  dump_selection = λ s. [];
  resolve = λ c session_id s. some session_id;
  same_configuration_iff = nat_beq_iff;
  validate-dump = λ c. refl;
}

-- what a run needs unfolded
team_code : Unit {0}
unfolding save make_revision replay replay_accepted read_configuration save_new write_team add_team
    add_revision advance_team available_companions require_owner reserve_start record_start
    confirm_closed delete start_snapshot offer_selection accept_selection get read_revision list
    read_revisions starts starts_page perform perform_all
team_code = tt

abbrev save_a : ℕ → ℕ → TeamCall (TeamRevision ℕ)
save_a expected c = save sdk "owner-a" "host-1" "team-1" (pos expected) c

abbrev revision_of : ℕ → ℕ → TeamRevision ℕ
revision_of n c = record { team_id = "team-1"; revision = n; configuration = c }

abbrev db_saved : Db
db_saved = committed (save_a 0 7 db_fixture) db_fixture

save_ok : save_a 0 7 db_fixture ≡ ok (revision_of 1 7, db_saved)
unfolding team_code
save_ok = refl

save_replayed : save_a 0 7 db_saved ≡ ok (revision_of 1 7, db_saved)
unfolding team_code
save_replayed = refl

save_refused :
    (save_a 0 8 db_saved ≡ err revision_conflict)
    × (save_a 2 8 db_saved ≡ err revision_conflict)
    × (save sdk "owner-a" "host-2" "team-1" (pos 1) 8 db_saved ≡ err revision_conflict)
    × (save sdk "owner-b" "host-1" "team-1" (pos 0) 8 db_saved ≡ err companion_unavailable)
    × (save sdk "owner-a" "host-1" "team-1" (negsuc 0) 8 db_saved ≡ err invalid_revision)
    × (save sdk "owner-c" "host-1" "team-1" (pos 0) 8 db_saved ≡ err not_found)
unfolding team_code
save_refused = (refl, refl, refl, refl, refl, refl)

get_ok :
    (get sdk "owner-a" "host-1" "team-1" db_saved ≡ ok (revision_of 1 7, db_saved))
    × (get sdk "owner-a" "host-2" "team-1" db_saved ≡ err not_found)
unfolding team_code
get_ok = (refl, refl)

list_ok :
    list sdk "owner-a" "host-1" "" (pos 10) db_saved
    ≡ ok (record { teams = revision_of 1 7 ∷ []; next_cursor = none }, db_saved)
unfolding team_code
list_ok = refl

abbrev reserve_a : ℕ → String → TeamCall (TeamRevision ℕ)
reserve_a n s = reserve_start sdk "owner-a" "host-1" "team-1" n s

abbrev db_reserved : Db
db_reserved = committed (reserve_a 1 "s-1" db_saved) db_saved

reserve_ok : reserve_a 1 "s-1" db_saved ≡ ok (revision_of 1 7, db_reserved)
unfolding team_code
reserve_ok = refl

reserve_again :
    (reserve_a 1 "s-1" db_reserved ≡ ok (revision_of 1 7, db_reserved))
    × (reserve_a 1 "s-2" db_reserved ≡ err team_busy_or_revision_conflict)
    × (delete "owner-a" "host-1" "team-1" 1 db_reserved ≡ err team_busy_or_revision_conflict)
unfolding team_code
reserve_again = (refl, refl, refl)

starts_ok :
    starts "owner-a" "host-1" "team-1" db_reserved
    ≡ ok (
      record { team_id = "team-1"; session_id = "s-1"; revision = 1; closed = false } ∷ [],
      db_reserved,
    )
unfolding team_code
starts_ok = refl

abbrev close_a : String → TeamCall (Unit {0})
close_a s = confirm_closed "owner-a" "host-1" "team-1" s none

abbrev db_closed : Db
db_closed = committed (close_a "s-1" db_reserved) db_reserved

close_ok :
    (close_a "s-1" db_reserved ≡ ok (tt, db_closed))
    × (close_a "s-2" db_reserved ≡ err not_found)
    × (reserve_a 1 "s-1" db_closed ≡ err run_already_closed)
unfolding team_code
close_ok = (refl, refl, refl)

abbrev actions : List (Action sdk)
actions =
    call_save "owner-a" "host-1" "team-1" (pos 1) 8
    ∷ call_reserve_start "owner-a" "host-1" "team-1" 2 "s-2"
    ∷ call_start_snapshot "owner-a" "host-1" "team-1" "s-2" (some "s-2")
    ∷ []

abbrev team_last : TeamRow
team_last = record {
  owner_id = "owner-a";
  team_id = "team-1";
  host_id = "host-1";
  active_session_id = some "s-2";
  deleted = false;
  revision = 2;
}

found_last :
    find (is_team "owner-a" "team-1") (perform_all sdk actions db_saved).teams ≡ some team_last
unfolding team_code
found_last = refl

abbrev team_first : TeamRow
team_first = new_team "owner-a" "host-1" "team-1"

found_first : find (is_team "owner-a" "team-1") db_saved.teams ≡ some team_first
unfolding team_code
found_first = refl

save_again_example :
    save sdk "owner-a" "host-1" "team-1" (pos 0) 7 (perform_all sdk actions db_saved)
    ≡ ok (revision_of 1 7, perform_all sdk actions db_saved)
save_again_example =
    save_again sdk "owner-a" "host-1" "team-1" 7 (pos 0) actions db_fixture db_saved
      (revision_of 1 7) team_last save_ok found_last refl

eight_not_seven : ◌≢◌ {A = ℕ} 8 7
eight_not_seven e = absurd (omega arith)

save_once_example :
    save sdk "owner-a" "host-1" "team-1" (pos 0) 8 (perform_all sdk actions db_saved)
    ≢ ok (revision_of 1 8, db_saved)
save_once_example =
    save_once sdk "owner-a" "host-1" "team-1" 7 "host-1" 8 (pos 0) actions db_fixture db_saved
      db_saved (revision_of 1 7) (revision_of 1 8) save_ok eight_not_seven

db_fixture-IsKeyed : IsKeyed db_fixture
db_fixture-IsKeyed o t = omega arith

db_saved-IsKeyed : IsKeyed db_saved
unfolding team_code
db_saved-IsKeyed =
    perform_all-IsKeyed sdk (call_save "owner-a" "host-1" "team-1" (pos 0) 7 ∷ []) db_fixture
      db_fixture-IsKeyed

abbrev used : List (Action sdk)
used =
    call_reserve_start "owner-a" "host-1" "team-1" 1 "s-1"
    ∷ call_start_snapshot "owner-a" "host-1" "team-1" "s-1" (some "s-1")
    ∷ []

abbrev team_held : TeamRow
team_held = set_session (some "s-1") team_first

found_held :
    find (is_team "owner-a" "team-1") (perform_all sdk used db_saved).teams ≡ some team_held
unfolding team_code
found_held = refl

get-save_example :
    get sdk "owner-a" "host-1" "team-1" (perform_all sdk used db_saved)
    ≡ ok (revision_of 1 7, perform_all sdk used db_saved)
get-save_example =
    get-save sdk "owner-a" "host-1" "team-1" 7 (pos 0) used db_fixture db_saved (revision_of 1 7)
      team_held db_fixture-IsKeyed save_ok found_held refl refl

db_fixture-IsReached : IsReached db_fixture
db_fixture-IsReached o t n row stored = cc

-- a first save of a team that is there
abbrev from_first : List (Action sdk)
from_first = call_save "owner-a" "host-1" "team-1" (pos 0) 7 ∷ actions

save-keeps_keys_example :
    save sdk "owner-a" "host-1" "team-1" (pos 0) 9 (perform_all sdk from_first db_fixture)
    ≢ err integrity_error
save-keeps_keys_example =
    save-keeps_keys sdk from_first db_fixture "owner-a" "host-1" "team-1" (pos 0) 9
      db_fixture-IsKeyed db_fixture-IsReached

perform_all-TeamEvolves_example :
    TeamCameFrom "owner-a" "team-1" team_first (perform_all sdk actions db_saved)
perform_all-TeamEvolves_example =
    perform_all-TeamEvolves sdk "owner-a" "team-1" team_first actions db_saved found_first

-- other calls while the session has the team
abbrev waiting : List (Action sdk)
waiting =
    call_save "owner-a" "host-1" "team-1" (pos 1) 8
    ∷ call_confirm_closed "owner-a" "host-1" "team-1" "s-2" none
    ∷ call_delete "owner-a" "host-1" "team-1" 2
    ∷ []

texts_differ : ◌≢◌ {A = String} "s-2" "s-1"
texts_differ e = let bad : false ≡ true = (eq_iff "s-2" "s-1").1 e in absurd (ground arith)

reserve_start_alone_example :
    reserve_start sdk "owner-a" "host-1" "team-1" 2 "s-2" (perform_all sdk waiting db_reserved)
    ≢ ok (revision_of 2 8, db_reserved)
reserve_start_alone_example =
    reserve_start_alone sdk "owner-a" "host-1" "team-1" 1 "s-1" waiting db_saved db_reserved
      (revision_of 1 7) db_saved-IsKeyed reserve_ok (refl, (refl, (refl, tt))) "host-1" 2 "s-2"
      db_reserved (revision_of 2 8) texts_differ

delete_waits_example :
    delete "owner-a" "host-1" "team-1" 2 (perform_all sdk waiting db_reserved)
    ≢ ok (tt, db_reserved)
delete_waits_example =
    delete_waits sdk "owner-a" "host-1" "team-1" 1 "s-1" waiting db_saved db_reserved
      (revision_of 1 7) db_saved-IsKeyed reserve_ok (refl, (refl, (refl, tt))) "host-1" 2
      db_reserved

abbrev start_first : TeamStartRow
start_first = new_start "owner-a" "s-1" "team-1" 1

found_start : find (is_start "owner-a" "s-1") db_reserved.team_starts ≡ some start_first
unfolding team_code
found_start = refl

abbrev ending : List (Action sdk)
ending =
    call_start_snapshot "owner-a" "host-1" "team-1" "s-1" (some "s-1")
    ∷ call_confirm_closed "owner-a" "host-1" "team-1" "s-1" none
    ∷ []

perform_all-StartEvolves_example :
    StartCameFrom "owner-a" "s-1" start_first (perform_all sdk ending db_reserved)
perform_all-StartEvolves_example =
    perform_all-StartEvolves sdk "owner-a" "s-1" start_first ending db_reserved found_start
