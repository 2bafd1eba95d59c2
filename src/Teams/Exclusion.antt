-- ===== src/Teams/Exclusion.antt =====
-- What a reservation keeps out until it is closed.
use eidolon_data.Prelude.{
  ℕ, String, ◌≡◌, sym, ap, ◌∙◌, ◌≢◌, false, List, arith, All, find_of_count, ok, string_eq,
  option_eq, nat_eq,
}
use eidolon_data.Schema.{Db}
use eidolon_data.Teams.Sdk.{TeamSdk}
use eidolon_data.Teams.Tables.{is_team}
use eidolon_data.Teams.Assets.{TeamRevision, is_deletable, delete}
use eidolon_data.Teams.Starts.{is_reservable, reserve_start}
use eidolon_data.Teams.StartEffects.{reserve_start-Reserved, delete-Deleted}
use eidolon_data.Teams.Calls.{
  Action, call_reserve_start, perform_all, reserved, perform_all_keeps, always_keeps,
}
use eidolon_data.Teams.Holding.{
  IsKeyed, Changed-IsKeyed, frees, HoldsTeam, reservable_held, not_deletable, Changed-HoldsTeam,
  Reserved-HoldsTeam,
}

-- Whatever calls are made, an Owner's team id stays in one row at most.
pub perform_all-IsKeyed :
    (sdk : TeamSdk) (actions : List (Action sdk)) (db : Db)
    → IsKeyed db
    → IsKeyed (perform_all sdk actions db)
perform_all-IsKeyed sdk = always_keeps sdk IsKeyed Changed-IsKeyed

module _ (sdk : TeamSdk) (o h t : String) (n : ℕ) (s : String) (actions : List (Action sdk))
    (db db' : Db) (result : TeamRevision sdk.Configuration) (keyed : IsKeyed db)
    (ran : reserve_start sdk o h t n s db ≡ ok (result, db'))
    (not_closed : All (λ a. frees o t s a ≡ false) actions) where
  still-IsKeyed : IsKeyed (perform_all sdk actions db')
  still-IsKeyed = perform_all-IsKeyed sdk actions db' (
      Changed-IsKeyed {sdk = sdk} (call_reserve_start o h t n s) db db'
        (reserved o h t n s db db' (reserve_start-Reserved sdk o h t n s db db' result ran)) keyed)

  still_held : HoldsTeam o t s (perform_all sdk actions db')
  still_held =
      perform_all_keeps sdk (HoldsTeam o t s) (λ a. frees o t s a ≡ false) (Changed-HoldsTeam o t s)
        actions db' not_closed
        (Reserved-HoldsTeam o h t n s db db' keyed
          (reserve_start-Reserved sdk o h t n s db db' result ran))

  -- Once a session has reserved a team, and until `confirm_closed` is called for that session and
  -- team, no other session's `reserve_start` of the team returns, whatever else is called. This holds if at
  -- first an Owner's team id stands in one row at most.
  pub reserve_start_alone :
      (h' : String) (n' : ℕ) (s' : String) (db'' : Db) (result' : TeamRevision sdk.Configuration)
      → s' ≢ s
      → reserve_start sdk o h' t n' s' (perform_all sdk actions db') ≢ ok (result', db'')
  reserve_start_alone h' n' s' db'' result' other ran' =
      let last = perform_all sdk actions db' in
      let (x, found, held, live) = still_held in
      let (y, found', fits) =
        find_of_count (is_team o t) (is_reservable o h' t n' s') (λ z e. ground arith) last.teams
          (still-IsKeyed o t)
          (reserve_start-Reserved sdk o h' t n' s' last db'' result' ran').fitted in
      let same : y ≡ x = cc (found, found') in
      other (
        reservable_held o t s last.teams x found held live o h' t n' s'
          (ap (is_reservable o h' t n' s') (sym same) ∙ fits))

  -- Once a session has reserved a team, and until `confirm_closed` is called for that session and
  -- team, no `delete` of the team returns, whatever else is called. This holds if at first an Owner's team id
  -- stands in one row at most.
  pub delete_waits :
      (h' : String) (n' : ℕ) (db'' : Db)
      → delete o h' t n' (perform_all sdk actions db') ≢ ok (tt, db'')
  delete_waits h' n' db'' ran' =
      let last = perform_all sdk actions db' in
      let (x, found, held, live) = still_held in
      let (y, found', fits) =
        find_of_count (is_team o t) (is_deletable o h' t n') (λ z e. ground arith) last.teams
          (still-IsKeyed o t) (delete-Deleted o h' t n' last db'' ran').fitted in
      let same : y ≡ x = cc (found, found') in
      let kept = not_deletable o t s last.teams x found held live o h' t n' in
      absurd (cc (ap (is_deletable o h' t n') same, kept, fits))
