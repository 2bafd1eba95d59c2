-- ===== src/Teams/Runs.antt =====
-- The record of a start under any calls.
use eidolon_data.Prelude.{
  ℕ, String, ◌≡◌, refl, ◌∙◌, Bool, true, Option, none, some, List, [], ◌∷◌, ◌++◌, arith,
  if◌then◌else◌, JsonDict, find, update_where, find-update_where, find-append, string_eq,
}
use eidolon_data.Schema.{Db, TeamStartRow}
use eidolon_data.Teams.Sdk.{TeamSdk}
use eidolon_data.Teams.Starts.{
  is_start, new_start, TerminalStatus, is_start_of, set_closed, keep_first,
}
use eidolon_data.Teams.Effects.{replayed, created, advanced}
use eidolon_data.Teams.StartEffects.{recorded, recorded_before, looked, accepted}
use eidolon_data.Teams.Calls.{
  Action, perform_all, Changed, unchanged, saved, reserved, closed, snapshotted, deleted,
  always_keeps,
}

-- How the record of a start may change.
pub record StartEvolves (r r' : TeamStartRow) : Type 0 where
  pub team : r'.team_id ≡ r.team_id
  pub revision : r'.revision ≡ r.revision
  pub stays_closed : r.closed ≡ true → r'.closed ≡ true
  pub first_selection : (s : JsonDict) → r.selection ≡ some s → r'.selection ≡ some s

StartEvolves-refl : (r : TeamStartRow) → StartEvolves r r
StartEvolves-refl r = record {
  team = refl;
  revision = refl;
  stays_closed = λ h. h;
  first_selection = λ s h. h;
}

StartEvolves-trans : (r s t : TeamStartRow) → StartEvolves r s → StartEvolves s t → StartEvolves r t
StartEvolves-trans r s t h k = record {
  team = k.team ∙ h.team;
  revision = k.revision ∙ h.revision;
  stays_closed = λ e. k.stays_closed (h.stays_closed e);
  first_selection = λ x e. k.first_selection x (h.first_selection x e);
}

set_closed-StartEvolves :
    (q : Bool) (status : Option TerminalStatus) (r : TeamStartRow)
    → StartEvolves r (if q then set_closed status r else r)
set_closed-StartEvolves q status r = record {
  team = ground arith;
  revision = ground arith;
  stays_closed = λ e. ground arith;
  first_selection = λ s e. ground arith;
}

keep_first-StartEvolves :
    (q : Bool) (d : JsonDict) (r : TeamStartRow) → StartEvolves r (if q then keep_first d r else r)
keep_first-StartEvolves q d r = record {
  team = ground arith;
  revision = ground arith;
  stays_closed = λ e. ground arith;
  first_selection = λ s e. ground arith;
}

set_closed-is_start :
    (o s : String) (status : Option TerminalStatus) (r : TeamStartRow)
    → is_start o s (set_closed status r) ≡ is_start o s r
set_closed-is_start o s none r = refl
set_closed-is_start o s (some status) r = refl

keep_first-is_start :
    (o s : String) (d : JsonDict) (r : TeamStartRow)
    → is_start o s (keep_first d r) ≡ is_start o s r
keep_first-is_start o s d r = ground arith

-- The start `s` of an Owner has come from `r`.
abbrev pub StartCameFrom : String → String → TeamStartRow → Db → Type 0
StartCameFrom o s r db =
    (r' : TeamStartRow) × (find (is_start o s) db.team_starts ≡ some r') × StartEvolves r r'

module _ (o s : String) (starts : List TeamStartRow) (x y : TeamStartRow)
    (found : find (is_start o s) starts ≡ some y) (ev : StartEvolves x y) where
  update_where-StartCameFrom :
      (q : TeamStartRow → Bool) (f : TeamStartRow → TeamStartRow)
      → ((z : TeamStartRow) → is_start o s (f z) ≡ is_start o s z)
      → ((z : TeamStartRow) → StartEvolves z (if q z then f z else z))
      → (x' : TeamStartRow) × (find (is_start o s) (update_where q f starts) ≡ some x')
        × StartEvolves x x'
  update_where-StartCameFrom q f same evolves = (
    if q y then f y else y,
    find-update_where (is_start o s) q f starts y same found,
    StartEvolves-trans x y (if q y then f y else y) ev (evolves y),
  )

  Recorded-StartCameFrom :
      (o' t' : String) (n : ℕ) (s' : String) (starts' : List TeamStartRow)
      → starts' ≡ starts ++ new_start o' s' t' n ∷ []
      → (x' : TeamStartRow) × (find (is_start o s) starts' ≡ some x') × StartEvolves x x'
  Recorded-StartCameFrom o' t' n s' starts' e =
      rw e (y, find-append (is_start o s) starts (new_start o' s' t' n ∷ []) y found, ev)

module _ {sdk : TeamSdk} (o s : String) (x : TeamStartRow) where
  Changed-StartCameFrom :
      (a : Action sdk) (db db' : Db)
      → Changed sdk a db db'
      → StartCameFrom o s x db
      → StartCameFrom o s x db'
  Changed-StartCameFrom _ _ _ unchanged h = h
  Changed-StartCameFrom _ _ _ (saved o' h' t' n c db db' (replayed _ _ _ _ _ _ _ e)) h = rw e h
  Changed-StartCameFrom _ _ _ (saved o' h' t' n c db db' (created _ _ _ e)) h = rw e h
  Changed-StartCameFrom _ _ _ (saved o' h' t' n c db db' (advanced _ _ _ _ _ e)) h = rw e h
  Changed-StartCameFrom _ _ _ (reserved o' h' t' n s' db db' r) (y, found, ev) = elim (r.starts) [
    | recorded missing e ↦
        Recorded-StartCameFrom o s db.team_starts x y found ev o' t' n s' db'.team_starts e
    | recorded_before _ _ _ _ _ e ↦ rw e (y, found, ev)
  ]
  Changed-StartCameFrom _ _ _ (closed o' h' t' s' st db db' r) (y, found, ev) = rw r.tables (
      update_where-StartCameFrom o s db.team_starts x y found ev (is_start_of o' s' t')
        (set_closed st) (set_closed-is_start o s st)
        (λ z. set_closed-StartEvolves (is_start_of o' s' t' z) st z))
  Changed-StartCameFrom _ _ _ (snapshotted o' h' t' s' sel db db' (looked _ e)) h = rw e h
  Changed-StartCameFrom _ _ _ (snapshotted o' h' t' s' sel db db' (accepted _ d _ _ _ _ e))
        (y, found, ev) =
      rw e (
        update_where-StartCameFrom o s db.team_starts x y found ev (is_start o' s')
          (keep_first (sdk.dump_selection d)) (keep_first-is_start o s (sdk.dump_selection d))
          (λ z. keep_first-StartEvolves (is_start o' s' z) (sdk.dump_selection d) z))
  Changed-StartCameFrom _ _ _ (deleted o' h' t' n db db' r) h = rw r.tables h

-- Whatever calls are made, the record of a start stays, under one team and revision; closed, it
-- stays closed; and the first selection it was given is the one it keeps.
pub perform_all-StartEvolves :
    (sdk : TeamSdk) (owner_id session_id : String) (r : TeamStartRow) (actions : List (Action sdk))
    (db : Db)
    → find (is_start owner_id session_id) db.team_starts ≡ some r
    → StartCameFrom owner_id session_id r (perform_all sdk actions db)
perform_all-StartEvolves sdk owner_id session_id r actions db found =
    always_keeps sdk (StartCameFrom owner_id session_id r)
      (Changed-StartCameFrom owner_id session_id r) actions db (r, found, StartEvolves-refl r)
