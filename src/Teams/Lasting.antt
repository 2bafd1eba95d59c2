-- ===== src/Teams/Lasting.antt =====
-- What no call takes back: a team's host and its deletion, its revision number, its stored revisions.
use native.Mathlib.Nat.{le_refl}
use eidolon_data.Prelude.{
  ℕ, ◌+◌, ◌≤◌, String, ◌≡◌, refl, ◌∙◌, Bool, true, Option, none, some, List, [], ◌∷◌, arith,
  if◌then◌else◌, ==→≡, pos_part, find, update_where, find-update_where, find-append, string_eq,
  nat_eq, option_eq,
}
use eidolon_data.Schema.{Db, TeamRow, TeamRevisionRow}
use eidolon_data.Teams.Sdk.{TeamSdk}
use eidolon_data.Teams.Tables.{is_team, is_revision}
use eidolon_data.Teams.Assets.{is_current, set_revision, new_team, is_deletable, set_deleted}
use eidolon_data.Teams.Starts.{is_reservable, set_session, holds_session}
use eidolon_data.Teams.Effects.{saved_row, replayed, created, advanced}
use eidolon_data.Teams.StartEffects.{looked, accepted}
use eidolon_data.Teams.Calls.{
  Action, perform_all, Changed, unchanged, saved, reserved, closed, snapshotted, deleted,
  always_keeps,
}

pub record TeamEvolves (t t' : TeamRow) : Type 0 where
  pub host : t'.host_id ≡ t.host_id
  pub revision : t.revision ≤ t'.revision
  pub stays_deleted : t.deleted ≡ true → t'.deleted ≡ true

pub TeamEvolves-refl : (t : TeamRow) → TeamEvolves t t
TeamEvolves-refl t = record { host = refl; revision = le_refl t.revision; stays_deleted = λ h. h }

TeamEvolves-trans : (r s t : TeamRow) → TeamEvolves r s → TeamEvolves s t → TeamEvolves r t
TeamEvolves-trans r s t h k = record {
  host = k.host ∙ h.host;
  revision = omega arith;
  stays_deleted = λ e. k.stays_deleted (h.stays_deleted e);
}

set_revision-TeamEvolves :
    (owner_id host_id team_id : String) (n : ℕ) (t : TeamRow)
    → TeamEvolves t (if is_current owner_id host_id team_id n t then set_revision (n + 1) t else t)
set_revision-TeamEvolves owner_id host_id team_id n t = record {
  host = ground arith;
  revision = ground (arith, ==→≡ t.revision n);
  stays_deleted = ground arith;
}

set_session-TeamEvolves :
    (q : Bool) (s : Option String) (t : TeamRow) → TeamEvolves t (if q then set_session s t else t)
set_session-TeamEvolves q s t = record {
  host = ground arith;
  revision = ground arith;
  stays_deleted = ground arith;
}

set_deleted-TeamEvolves : (q : Bool) (t : TeamRow) → TeamEvolves t (if q then set_deleted t else t)
set_deleted-TeamEvolves q t = record {
  host = ground arith;
  revision = ground arith;
  stays_deleted = ground arith;
}

-- The team `t` of an Owner has come from `x`.
abbrev pub TeamCameFrom : String → String → TeamRow → Db → Type 0
TeamCameFrom o t x db = (x' : TeamRow) × (find (is_team o t) db.teams ≡ some x') × TeamEvolves x x'

module _ (o t : String) (teams : List TeamRow) (x y : TeamRow)
    (found : find (is_team o t) teams ≡ some y) (ev : TeamEvolves x y) where
  update_where-TeamCameFrom :
      (q : TeamRow → Bool) (f : TeamRow → TeamRow)
      → ((z : TeamRow) → is_team o t (f z) ≡ is_team o t z)
      → ((z : TeamRow) → TeamEvolves z (if q z then f z else z))
      → (x' : TeamRow) × (find (is_team o t) (update_where q f teams) ≡ some x') × TeamEvolves x x'
  update_where-TeamCameFrom q f same evolves = (
    if q y then f y else y,
    find-update_where (is_team o t) q f teams y same found,
    TeamEvolves-trans x y (if q y then f y else y) ev (evolves y),
  )

module _ {sdk : TeamSdk} (o t : String) (x : TeamRow) where
  pub Changed-TeamCameFrom :
      (a : Action sdk) (db db' : Db)
      → Changed sdk a db db'
      → TeamCameFrom o t x db
      → TeamCameFrom o t x db'
  Changed-TeamCameFrom _ _ _ unchanged h = h
  Changed-TeamCameFrom _ _ _ (saved o' h' t' n c db db' (replayed _ _ _ _ _ _ _ e)) h = rw e h
  Changed-TeamCameFrom _ _ _ (saved o' h' t' n c db db' (created _ _ _ e)) (y, found, ev) =
      rw e (y, find-append (is_team o t) db.teams (new_team o' h' t' ∷ []) y found, ev)
  Changed-TeamCameFrom _ _ _ (saved o' h' t' n c db db' (advanced _ _ _ _ _ e)) (y, found, ev) =
      rw e (
        update_where-TeamCameFrom o t db.teams x y found ev (is_current o' h' t' (pos_part n))
          (set_revision (pos_part n + 1)) (λ z. refl)
          (set_revision-TeamEvolves o' h' t' (pos_part n)))
  Changed-TeamCameFrom _ _ _ (reserved o' h' t' n s db db' r) (y, found, ev) = rw r.teams (
      update_where-TeamCameFrom o t db.teams x y found ev (is_reservable o' h' t' n s)
        (set_session (some s)) (λ z. refl)
        (λ z. set_session-TeamEvolves (is_reservable o' h' t' n s z) (some s) z))
  Changed-TeamCameFrom _ _ _ (closed o' h' t' s st db db' r) (y, found, ev) = rw r.tables (
      update_where-TeamCameFrom o t db.teams x y found ev (holds_session o' t' s) (set_session none)
        (λ z. refl) (λ z. set_session-TeamEvolves (holds_session o' t' s z) none z))
  Changed-TeamCameFrom _ _ _ (snapshotted o' h' t' s sel db db' (looked _ e)) h = rw e h
  Changed-TeamCameFrom _ _ _ (snapshotted o' h' t' s sel db db' (accepted _ _ _ _ _ _ e)) h = rw e h
  Changed-TeamCameFrom _ _ _ (deleted o' h' t' n db db' r) (y, found, ev) = rw r.tables (
      update_where-TeamCameFrom o t db.teams x y found ev (is_deletable o' h' t' n) set_deleted
        (λ z. refl) (λ z. set_deleted-TeamEvolves (is_deletable o' h' t' n z) z))

-- Whatever calls are made, a team that is there stays there, under one host, its revision number
-- never goes back, and once deleted it stays deleted.
pub perform_all-TeamEvolves :
    (sdk : TeamSdk) (owner_id team_id : String) (t : TeamRow) (actions : List (Action sdk))
    (db : Db)
    → find (is_team owner_id team_id) db.teams ≡ some t
    → TeamCameFrom owner_id team_id t (perform_all sdk actions db)
perform_all-TeamEvolves sdk owner_id team_id t actions db found =
    always_keeps sdk (TeamCameFrom owner_id team_id t) (Changed-TeamCameFrom owner_id team_id t)
      actions db (t, found, TeamEvolves-refl t)

-- A stored revision.
abbrev pub Stores : String → String → ℕ → TeamRevisionRow → Db → Type 0
Stores o t n row db = find (is_revision o t n) db.team_revisions ≡ some row

Changed-Stores :
    {sdk : TeamSdk} (o t : String) (n : ℕ) (row : TeamRevisionRow) (a : Action sdk) (db db' : Db)
    → Changed sdk a db db'
    → Stores o t n row db
    → Stores o t n row db'
Changed-Stores o t n row _ _ _ unchanged h = h
Changed-Stores {sdk} o t n row _ _ _ (saved o' h' t' m c db db' (replayed _ _ _ _ _ _ _ e)) h =
    rw e h
Changed-Stores {sdk} o t n row _ _ _ (saved o' h' t' m c db db' (created _ _ _ e)) h =
    rw e (find-append (is_revision o t n) db.team_revisions (saved_row sdk o' t' 1 c ∷ []) row h)
Changed-Stores {sdk} o t n row _ _ _ (saved o' h' t' m c db db' (advanced _ _ _ _ _ e)) h = rw e (
    find-append (is_revision o t n) db.team_revisions (saved_row sdk o' t' (pos_part m + 1) c ∷ [])
      row h)
Changed-Stores o t n row _ _ _ (reserved o' h' t' m s db db' r) h = rw r.revisions h
Changed-Stores o t n row _ _ _ (closed o' h' t' s st db db' r) h = rw r.tables h
Changed-Stores o t n row _ _ _ (snapshotted o' h' t' s sel db db' (looked _ e)) h = rw e h
Changed-Stores o t n row _ _ _ (snapshotted o' h' t' s sel db db' (accepted _ _ _ _ _ _ e)) h =
    rw e h
Changed-Stores o t n row _ _ _ (deleted o' h' t' m db db' r) h = rw r.tables h

pub perform_all-Stores :
    (sdk : TeamSdk) (o t : String) (n : ℕ) (row : TeamRevisionRow) (actions : List (Action sdk))
    (db : Db)
    → Stores o t n row db
    → Stores o t n row (perform_all sdk actions db)
perform_all-Stores sdk o t n row = always_keeps sdk (Stores o t n row) (Changed-Stores o t n row)
