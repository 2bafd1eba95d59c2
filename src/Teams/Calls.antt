-- ===== src/Teams/Calls.antt =====
-- The calls that write, in any order and by any clients; each is one serialised transaction.
use eidolon_data.Prelude.{
  ℕ, String, ◌≡◌, refl, Option, List, [], ◌∷◌, All, ℤ, pos_part, Result, ok, err, committed,
}
use eidolon_data.Schema.{Db}
use eidolon_data.Teams.Sdk.{TeamSdk, TeamError}
use eidolon_data.Teams.Assets.{save, delete}
use eidolon_data.Teams.Starts.{TerminalStatus, confirm_closed, reserve_start, start_snapshot}
use eidolon_data.Teams.Effects.{Saved, save-Saved}
use eidolon_data.Teams.StartEffects.{
  Reserved, reserve_start-Reserved, Closed, confirm_closed-Closed, Deleted, delete-Deleted,
  Snapshotted, start_snapshot-Snapshotted,
}

pub data Action (sdk : TeamSdk) : Type 0 where
  call_save : String → String → String → ℤ → sdk.Configuration → Action sdk
  call_reserve_start : String → String → String → ℕ → String → Action sdk
  call_confirm_closed : String → String → String → String → Option TerminalStatus → Action sdk
  call_start_snapshot : String → String → String → String → Option sdk.Selection → Action sdk
  call_delete : String → String → String → ℕ → Action sdk

module _ (sdk : TeamSdk) where
  unfoldable pub perform : Action sdk → Db → Db
  perform (call_save owner_id host_id team_id expected_revision configuration) db =
      committed (save sdk owner_id host_id team_id expected_revision configuration db) db
  perform (call_reserve_start owner_id host_id team_id expected_revision session_id) db =
      committed (reserve_start sdk owner_id host_id team_id expected_revision session_id db) db
  perform (call_confirm_closed owner_id host_id team_id session_id terminal_status) db =
      committed (confirm_closed owner_id host_id team_id session_id terminal_status db) db
  perform (call_start_snapshot owner_id host_id team_id session_id selection) db =
      committed (start_snapshot sdk owner_id host_id team_id session_id selection db) db
  perform (call_delete owner_id host_id team_id expected_revision) db =
      committed (delete owner_id host_id team_id expected_revision db) db

  unfoldable pub perform_all : List (Action sdk) → Db → Db
  perform_all [] db = db
  perform_all (a ∷ actions) db = perform_all actions (perform a db)

-- What a call may have done: nothing, when it raised, or its effect.
pub data Changed (sdk : TeamSdk) : Action sdk → Db → Db → Type 0 where
  unchanged : {a : Action sdk} {db : Db} → Changed sdk a db db
  saved :
      (o h t : String) (expected : ℤ) (c : sdk.Configuration) (db db' : Db)
      → Saved sdk o h t (pos_part expected) c db db'
      → Changed sdk (call_save o h t expected c) db db'
  reserved :
      (o h t : String) (revision : ℕ) (s : String) (db db' : Db)
      → Reserved o h t revision s db db'
      → Changed sdk (call_reserve_start o h t revision s) db db'
  closed :
      (o h t s : String) (status : Option TerminalStatus) (db db' : Db)
      → Closed o t s status db db'
      → Changed sdk (call_confirm_closed o h t s status) db db'
  snapshotted :
      (o h t s : String) (selection : Option sdk.Selection) (db db' : Db)
      → Snapshotted sdk o t s selection db db'
      → Changed sdk (call_start_snapshot o h t s selection) db db'
  deleted :
      (o h t : String) (revision : ℕ) (db db' : Db)
      → Deleted o h t revision db db'
      → Changed sdk (call_delete o h t revision) db db'

committed-Changed :
    {sdk : TeamSdk} {A : Type 0} (a : Action sdk) (db : Db) (r : Result TeamError (A × Db))
    → ((result : A) (db' : Db) → r ≡ ok (result, db') → Changed sdk a db db')
    → Changed sdk a db (committed r db)
committed-Changed a db (ok (result, db')) h = h result db' refl
committed-Changed a db (err e) h = unchanged

pub perform-Changed :
    (sdk : TeamSdk) (a : Action sdk) (db : Db) → Changed sdk a db (perform sdk a db)
unfolding perform
perform-Changed sdk (call_save o h t e c) db =
    committed-Changed (call_save o h t e c) db (save sdk o h t e c db)
      (λ r db' ran. saved o h t e c db db' (save-Saved sdk o h t c db db' r e ran))
perform-Changed sdk (call_reserve_start o h t n s) db =
    committed-Changed (call_reserve_start o h t n s) db (reserve_start sdk o h t n s db)
      (λ r db' ran. reserved o h t n s db db' (reserve_start-Reserved sdk o h t n s db db' r ran))
perform-Changed sdk (call_confirm_closed o h t s status) db =
    committed-Changed (call_confirm_closed o h t s status) db (confirm_closed o h t s status db)
      (λ r db' ran. closed o h t s status db db' (confirm_closed-Closed o h t s status db db' ran))
perform-Changed sdk (call_start_snapshot o h t s x) db =
    committed-Changed (call_start_snapshot o h t s x) db (start_snapshot sdk o h t s x db)
      (λ r db' ran.
        snapshotted o h t s x db db' (start_snapshot-Snapshotted sdk o h t s db db' r x ran))
perform-Changed sdk (call_delete o h t n) db =
    committed-Changed (call_delete o h t n) db (delete o h t n db)
      (λ r db' ran. deleted o h t n db db' (delete-Deleted o h t n db db' ran))

-- A property that every allowed call keeps is kept by a sequence of them.
module _ (sdk : TeamSdk) (P : Db → Type 0) (Allowed : Action sdk → Type 0)
    (keep : (a : Action sdk) (db db' : Db) → Allowed a → Changed sdk a db db' → P db → P db') where
  pub perform_all_keeps :
      (actions : List (Action sdk)) (db : Db)
      → All Allowed actions
      → P db
      → P (perform_all sdk actions db)
  unfolding perform_all
  perform_all_keeps [] db allowed h = h
  perform_all_keeps (a ∷ actions) db (first, rest) h =
      perform_all_keeps actions (perform sdk a db) rest
        (keep a db (perform sdk a db) first (perform-Changed sdk a db) h)

-- A property that every call keeps is kept by any sequence of calls.
pub always_keeps :
    (sdk : TeamSdk) (P : Db → Type 0)
    (keep : (a : Action sdk) (db db' : Db) → Changed sdk a db db' → P db → P db')
    (actions : List (Action sdk)) (db : Db)
    → P db
    → P (perform_all sdk actions db)
unfolding perform_all
always_keeps sdk P keep [] db h = h
always_keeps sdk P keep (a ∷ actions) db h =
    always_keeps sdk P keep actions (perform sdk a db)
      (keep a db (perform sdk a db) (perform-Changed sdk a db) h)
