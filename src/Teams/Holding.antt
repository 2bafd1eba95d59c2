-- ===== src/Teams/Holding.antt =====
-- A team is held by one session at a time.
use eidolon_data.Prelude.{
  ℕ, ◌+◌, ◌≤◌, String, ◌≡◌, refl, inl, inr, Bool, true, false, ◌&&◌, none, some, List, [], ◌∷◌,
  ◌++◌, arith, eq_iff, if◌then◌else◌, ◌==◌, ==→≡, Bool-cases, pos_part, find, update_where,
  count_where, find-update_where, find-append, find_sound, count_where-none, count-append,
  count-update_where, find_of_count, string_eq, nat_eq, option_eq,
}
use eidolon_data.Schema.{Db, TeamRow}
use eidolon_data.Teams.Sdk.{TeamSdk}
use eidolon_data.Teams.Tables.{is_team}
use eidolon_data.Teams.Assets.{is_current, set_revision, new_team, is_deletable, set_deleted}
use eidolon_data.Teams.Starts.{is_reservable, set_session, holds_session}
use eidolon_data.Teams.Effects.{replayed, created, advanced}
use eidolon_data.Teams.StartEffects.{Reserved, looked, accepted}
use eidolon_data.Teams.Calls.{
  Action, call_save, call_reserve_start, call_confirm_closed, call_start_snapshot, call_delete,
  Changed, unchanged, saved, reserved, closed, snapshotted, deleted,
}

-- The primary key of the teams' table.
abbrev pub IsKeyed : Db → Type 0
IsKeyed db = (o t : String) → count_where (is_team o t) db.teams ≤ 1

new_team_keyed :
    (o h t : String) (teams : List TeamRow)
    → find (is_team o t) teams ≡ none
    → ((o' t' : String) → count_where (is_team o' t') teams ≤ 1)
    → (o' t' : String) → count_where (is_team o' t') (teams ++ new_team o h t ∷ []) ≤ 1
new_team_keyed o h t teams missing keyed o' t' =
    rw (count-append (is_team o' t') teams (new_team o h t ∷ []))
      (elim (Bool-cases (is_team o' t' (new_team o h t))) [
        | inl same ↦
            let owners : o ≡ o' = ground (arith, ==→≡ o o') in
            let ids : t ≡ t' = ground (arith, ==→≡ t t') in
            let zero_rows = count_where-none (is_team o t) (is_team o t) teams (λ x e. e) missing in
            ground arith
        | inr other ↦ ground (arith, keyed o' t')
      ])

pub Changed-IsKeyed :
    {sdk : TeamSdk} (a : Action sdk) (db db' : Db) → Changed sdk a db db' → IsKeyed db → IsKeyed db'
Changed-IsKeyed _ _ _ unchanged k = k
Changed-IsKeyed _ _ _ (saved o h t n c db db' (replayed _ _ _ _ _ _ _ e)) k = rw e k
Changed-IsKeyed _ _ _ (saved o h t n c db db' (created _ missing _ e)) k =
    rw e (new_team_keyed o h t db.teams missing k)
Changed-IsKeyed _ _ _ (saved o h t n c db db' (advanced _ _ _ _ _ e)) k = rw e (λ o' t'.
    rw
      (count-update_where (is_team o' t') (is_current o h t (pos_part n))
        (set_revision (pos_part n + 1)) db.teams (λ x. refl))
      (k o' t'))
Changed-IsKeyed _ _ _ (reserved o h t n s db db' r) k = λ o' t'. rw r.teams (
    rw
      (count-update_where (is_team o' t') (is_reservable o h t n s) (set_session (some s)) db.teams
        (λ x. refl))
      (k o' t'))
Changed-IsKeyed _ _ _ (closed o h t s st db db' r) k = λ o' t'. rw r.tables (
    rw
      (count-update_where (is_team o' t') (holds_session o t s) (set_session none) db.teams
        (λ x. refl))
      (k o' t'))
Changed-IsKeyed _ _ _ (snapshotted o h t s sel db db' (looked _ e)) k = rw e k
Changed-IsKeyed _ _ _ (snapshotted o h t s sel db db' (accepted _ _ _ _ _ _ e)) k = rw e k
Changed-IsKeyed _ _ _ (deleted o h t n db db' r) k = λ o' t'. rw r.tables (
    rw (count-update_where (is_team o' t') (is_deletable o h t n) set_deleted db.teams (λ x. refl))
      (k o' t'))

-- the close of this session's run of this team
abbrev pub frees : {sdk : TeamSdk} → String → String → String → Action sdk → Bool
frees o t s (call_confirm_closed o' h' t' s' status) = o' == o && t' == t && s' == s
frees o t s (call_save _ _ _ _ _) = false
frees o t s (call_reserve_start _ _ _ _ _) = false
frees o t s (call_start_snapshot _ _ _ _ _) = false
frees o t s (call_delete _ _ _ _) = false

-- The session has the team, which is not deleted.
abbrev pub HoldsTeam : String → String → String → Db → Type 0
HoldsTeam o t s db =
    (x : TeamRow) × (find (is_team o t) db.teams ≡ some x)
    × (x.active_session_id ≡ some s)
    × (x.deleted ≡ false)

-- A change to rows that leaves a held row alone leaves it held.
module _ (o t s : String) (teams : List TeamRow) (x : TeamRow)
    (found : find (is_team o t) teams ≡ some x) (held : x.active_session_id ≡ some s)
    (live : x.deleted ≡ false) where
  update_where-HoldsTeam :
      (q : TeamRow → Bool) (f : TeamRow → TeamRow)
      → ((z : TeamRow) → is_team o t (f z) ≡ is_team o t z)
      → ((if q x then f x else x).active_session_id ≡ some s)
      → ((if q x then f x else x).deleted ≡ false)
      → (x' : TeamRow) × (find (is_team o t) (update_where q f teams) ≡ some x')
        × (x'.active_session_id ≡ some s)
        × (x'.deleted ≡ false)
  update_where-HoldsTeam q f same held' live' =
      (if q x then f x else x, find-update_where (is_team o t) q f teams x same found, held', live')

  pub reservable_held :
      (o' h' t' : String) (n : ℕ) (s' : String) → is_reservable o' h' t' n s' x ≡ true → s' ≡ s
  reservable_held o' h' t' n s' fits = ground (arith, ==→≡ s s')

  pub not_deletable : (o' h' t' : String) (n : ℕ) → is_deletable o' h' t' n x ≡ false
  not_deletable o' h' t' n = ground arith

  not_freed :
      (o' t' s' : String) → o' == o && t' == t && s' == s ≡ false → holds_session o' t' s' x ≡ false
  not_freed o' t' s' other = ground (
    arith,
    find_sound (is_team o t) teams x found,
    ==→≡ x.owner_id o,
    ==→≡ x.owner_id o',
    ==→≡ x.team_id t,
    ==→≡ x.team_id t',
    ==→≡ s s',
    eq_iff o' o,
    eq_iff t' t,
    eq_iff s' s,
  )

module _ {sdk : TeamSdk} (o t s : String) where
  pub Changed-HoldsTeam :
      (a : Action sdk) (db db' : Db)
      → frees o t s a ≡ false
      → Changed sdk a db db'
      → HoldsTeam o t s db
      → HoldsTeam o t s db'
  Changed-HoldsTeam _ _ _ _ unchanged h = h
  Changed-HoldsTeam _ _ _ _ (saved o' h' t' n c db db' (replayed _ _ _ _ _ _ _ e)) h = rw e h
  Changed-HoldsTeam _ _ _ _ (saved o' h' t' n c db db' (created _ _ _ e)) (x, found, held, live) =
      rw e (x, find-append (is_team o t) db.teams (new_team o' h' t' ∷ []) x found, held, live)
  Changed-HoldsTeam _ _ _ _ (saved o' h' t' n c db db' (advanced _ _ _ _ _ e))
        (x, found, held, live) =
      rw e (
        update_where-HoldsTeam o t s db.teams x found held live (is_current o' h' t' (pos_part n))
          (set_revision (pos_part n + 1)) (λ z. refl) (ground arith) (ground arith))
  Changed-HoldsTeam _ _ _ _ (reserved o' h' t' n s' db db' r) (x, found, held, live) =
      let mine = reservable_held o t s db.teams x found held live o' h' t' n s' in
      rw r.teams (
        update_where-HoldsTeam o t s db.teams x found held live (is_reservable o' h' t' n s')
          (set_session (some s')) (λ z. refl) (ground (arith, mine)) (ground arith))
  Changed-HoldsTeam _ _ _ other (closed o' h' t' s' st db db' r) (x, found, held, live) =
      let kept = not_freed o t s db.teams x found held live o' t' s' other in
      rw r.tables (
        update_where-HoldsTeam o t s db.teams x found held live (holds_session o' t' s')
          (set_session none) (λ z. refl) (ground arith) (ground arith))
  Changed-HoldsTeam _ _ _ _ (snapshotted o' h' t' s' sel db db' (looked _ e)) h = rw e h
  Changed-HoldsTeam _ _ _ _ (snapshotted o' h' t' s' sel db db' (accepted _ _ _ _ _ _ e)) h = rw e h
  Changed-HoldsTeam _ _ _ _ (deleted o' h' t' n db db' r) (x, found, held, live) =
      let kept = not_deletable o t s db.teams x found held live o' h' t' n in
      rw r.tables (
        update_where-HoldsTeam o t s db.teams x found held live (is_deletable o' h' t' n)
          set_deleted (λ z. refl) (ground arith) (ground arith))

module _ (o h t : String) (n : ℕ) (s : String) (db db' : Db) (keyed : IsKeyed db)
    (r : Reserved o h t n s db db') where
  pub Reserved-HoldsTeam : HoldsTeam o t s db'
  Reserved-HoldsTeam =
      let (x, found, fits) =
        find_of_count (is_team o t) (is_reservable o h t n s) (λ z e. ground arith) db.teams
          (keyed o t) r.fitted in
      rw r.teams (
        (
          if is_reservable o h t n s x then set_session (some s) x else x,
          find-update_where (is_team o t) (is_reservable o h t n s) (set_session (some s)) db.teams
              x (λ z. refl) found,
          ground arith,
          ground arith,
        ))
