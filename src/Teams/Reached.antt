-- ===== src/Teams/Reached.antt =====
-- Every stored revision is one that its team has reached, whatever is called.
use eidolon_data.Teams.Replay.{new_team_found}
use eidolon_data.Teams.Calls.{
  Action, Changed, unchanged, saved, reserved, closed, snapshotted, deleted,
}
use eidolon_data.Teams.Assets.{is_current, set_revision, new_team}
use eidolon_data.Prelude.{
  ℕ, ◌+◌, ◌≤◌, String, ◌≡◌, refl, sym, ap, ◌∙◌, ◌⊎◌, inl, inr, true, some, List, [], ◌∷◌, ◌++◌,
  arith, if◌then◌else◌, ==→≡, Bool-cases, Option-cases, pos_part, find, find-update_where,
  find-append, find-append_none, find_of_count, string_eq, nat_eq, option_eq,
}
use eidolon_data.Schema.{Db, TeamRow, TeamRevisionRow}
use eidolon_data.Teams.Sdk.{TeamSdk}
use eidolon_data.Teams.Tables.{is_team, is_revision}
use eidolon_data.Teams.Effects.{saved_row, Saved, replayed, created, advanced}
use eidolon_data.Teams.StartEffects.{looked, accepted}
use eidolon_data.Teams.Lasting.{TeamEvolves-refl, Changed-TeamCameFrom, Stores}
use eidolon_data.Teams.Holding.{IsKeyed, Changed-IsKeyed}

-- The team of an Owner is there, and has had the revision `n`.
abbrev pub TeamReached : String → String → ℕ → Db → Type 0
TeamReached o t n db = (x : TeamRow) × (find (is_team o t) db.teams ≡ some x) × (n ≤ x.revision)

-- Every stored revision is one that its team has reached.
abbrev pub IsReached : Db → Type 0
IsReached db =
    (o t : String) (n : ℕ) (row : TeamRevisionRow) → Stores o t n row db → TeamReached o t n db

module _ (o t : String) (n : ℕ) (row : TeamRevisionRow) where
  -- a revision that is found after one more was stored
  found_in_append :
      (rows : List TeamRevisionRow) (new : TeamRevisionRow)
      → find (is_revision o t n) (rows ++ new ∷ []) ≡ some row
      → (find (is_revision o t n) rows ≡ some row) ⊎ (is_revision o t n new ≡ true)
  found_in_append rows new found = elim (Option-cases (find (is_revision o t n) rows)) [
    | inr (r, before) ↦
        inl (before ∙ (sym (find-append (is_revision o t n) rows (new ∷ []) r before) ∙ found))
    | inl missing ↦ elim (Bool-cases (is_revision o t n new)) [
      | inl fits ↦ inr fits
      | inr other ↦
          let nothing = find-append_none (is_revision o t n) rows (new ∷ []) missing in
          absurd (ground arith)
    ]
  ]

module _ (sdk : TeamSdk) (o t : String) (n : ℕ) (row : TeamRevisionRow) where
  -- what the new row says of the numbers
  same_revision :
      (o' t' : String) (k : ℕ) (c : sdk.Configuration)
      → is_revision o t n (saved_row sdk o' t' k c) ≡ true
      → (o ≡ o') × (t ≡ t') × (n ≡ k)
  same_revision o' t' k c fits = (
    sym (==→≡ o' o (ground arith)),
    sym (==→≡ t' t (ground arith)),
    sym (==→≡ k n (ground arith)),
  )

  Saved-TeamReached :
      (h' o' t' : String) (m : ℕ) (c : sdk.Configuration) (db db' : Db)
      → IsKeyed db
      → Saved sdk o' h' t' m c db db'
      → Stores o t n row db'
      → Stores o t n row db ⊎ TeamReached o t n db'
  Saved-TeamReached h' o' t' m c db db' keyed (replayed _ _ _ _ _ _ _ e) h =
      inl (ap (λ d. find (is_revision o t n) d.team_revisions) (sym e) ∙ h)
  Saved-TeamReached h' o' t' m c db db' keyed (created first missing fresh e) h =
      let stored = ap (λ d. find (is_revision o t n) d.team_revisions) (sym e) ∙ h in
      elim (found_in_append o t n row db.team_revisions (saved_row sdk o' t' 1 c) stored) [
        | inl before ↦ inl before
        | inr fits ↦
            let (owners, ids, number) = same_revision o' t' 1 c fits in
            let there : TeamReached o' t' 1 db' = (
              new_team o' h' t',
              ap (λ d. find (is_team o' t') d.teams) e ∙ new_team_found sdk o' h' t' 1 c db missing,
              omega arith,
            ) in
            inr (rw (owners, ids, number) there)
      ]
  Saved-TeamReached h' o' t' m c db db' keyed (advanced team found host one fresh e) h =
      let stored = ap (λ d. find (is_revision o t n) d.team_revisions) (sym e) ∙ h in
      elim (found_in_append o t n row db.team_revisions (saved_row sdk o' t' (m + 1) c) stored) [
        | inl before ↦ inl before
        | inr fits ↦
            let (owners, ids, number) = same_revision o' t' (m + 1) c fits in
            let (x, at, current) =
              find_of_count (is_team o' t') (is_current o' h' t' m) (λ z k. ground arith) db.teams
                (keyed o' t') one in
            let moved =
              find-update_where (is_team o' t') (is_current o' h' t' m) (set_revision (m + 1))
                db.teams x (λ z. refl) at in
            let there : TeamReached o' t' (m + 1) db' = (
              if is_current o' h' t' m x then set_revision (m + 1) x else x,
              ap (λ d. find (is_team o' t') d.teams) e ∙ moved,
              ground (arith, current),
            ) in
            inr (rw (owners, ids, number) there)
      ]

  -- the tables of revisions alone decide
  Changed-TeamReached :
      (a : Action sdk) (db db' : Db)
      → IsKeyed db
      → Changed sdk a db db'
      → Stores o t n row db'
      → Stores o t n row db ⊎ TeamReached o t n db'
  Changed-TeamReached _ _ _ keyed unchanged h = inl h
  Changed-TeamReached _ _ _ keyed (saved o' h' t' m c db db' s) h =
      Saved-TeamReached h' o' t' (pos_part m) c db db' keyed s h
  Changed-TeamReached _ _ _ keyed (reserved o' h' t' m s db db' r) h =
      inl (ap (find (is_revision o t n)) (sym r.revisions) ∙ h)
  Changed-TeamReached _ _ _ keyed (closed o' h' t' s st db db' r) h =
      inl (ap (λ d. find (is_revision o t n) d.team_revisions) (sym r.tables) ∙ h)
  Changed-TeamReached _ _ _ keyed (snapshotted o' h' t' s sel db db' (looked _ e)) h =
      inl (ap (λ d. find (is_revision o t n) d.team_revisions) (sym e) ∙ h)
  Changed-TeamReached _ _ _ keyed (snapshotted o' h' t' s sel db db' (accepted _ _ _ _ _ _ e)) h =
      inl (ap (λ d. find (is_revision o t n) d.team_revisions) (sym e) ∙ h)
  Changed-TeamReached _ _ _ keyed (deleted o' h' t' m db db' r) h =
      inl (ap (λ d. find (is_revision o t n) d.team_revisions) (sym r.tables) ∙ h)

pub Changed-IsReached :
    {sdk : TeamSdk} (a : Action sdk) (db db' : Db)
    → Changed sdk a db db'
    → IsKeyed db × IsReached db
    → IsKeyed db' × IsReached db'
Changed-IsReached {sdk} a db db' ch (keyed, reached) = (
  Changed-IsKeyed a db db' ch keyed,
  λ o t n row stored. elim (Changed-TeamReached sdk o t n row a db db' keyed ch stored) [
    | inr there ↦ there
    | inl before ↦
        let (x, found, le) = reached o t n row before in
        let (y, found', ev) =
          Changed-TeamCameFrom o t x a db db' ch (x, found, TeamEvolves-refl x) in
        (y, found', omega (arith, le, ev.revision))
  ],
)
