-- ===== src/Teams/Keys.antt =====
-- What keeps `save` from the constraints of the database.
use eidolon_data.Teams.Reached.{IsReached, Changed-IsReached}
use eidolon_data.Teams.Replay.{new_team_found}
use eidolon_data.Teams.Calls.{Action, perform_all, always_keeps}
use eidolon_data.Teams.Assets.{
  is_current, set_revision, advance_team, new_team, write_team, TeamRevision, make_revision,
  read_configuration, replay_accepted, replay, save_new, save,
}
use eidolon_data.Prelude.{
  ℕ, zero, suc, ◌+◌, ◌≤◌, ◌<◌, String, ◌≡◌, refl, ◌≢◌, inl, inr, false, none, some, List, [], ◌∷◌,
  ◌++◌, arith, if◌then◌else◌, ◌==◌, Bool-cases, Option-cases, ℤ, pos_part, find, update_where,
  count_where, exists_where, find-update_where, exists-of_find, exists-none_of_find,
  count_where-none, find_of_count, err, string_eq, nat_eq, option_eq,
}
use eidolon_data.Schema.{Db, TeamRow}
use eidolon_data.Teams.Sdk.{TeamSdk, integrity_error}
use eidolon_data.Teams.Tables.{is_team, is_revision, add_team, add_revision}
use eidolon_data.Teams.Holding.{IsKeyed}

-- the number that a `save` is to store is not stored yet, when the team stands before it
not_stored :
    (o t : String) (n : ℕ) (x : TeamRow) (db : Db)
    → IsReached db
    → find (is_team o t) db.teams ≡ some x
    → x.revision < n
    → exists_where (is_revision o t n) db.team_revisions ≡ false
not_stored o t n x db reached found below =
    elim (Option-cases (find (is_revision o t n) db.team_revisions)) [
      | inl missing ↦ exists-none_of_find (is_revision o t n) db.team_revisions missing
      | inr (row, stored) ↦
          let (y, found', le) = reached o t n row stored in
          let same : x ≡ y = cc (found, found') in
          let le' : n ≤ x.revision = rw same le in absurd (omega (arith, le', below))
    ]

module _ (sdk : TeamSdk) (o h t : String) (c : sdk.Configuration) (db : Db) (keyed : IsKeyed db)
    (reached : IsReached db) where
  abbrev numbered : ℕ → TeamRevision sdk.Configuration
  numbered n = record { team_id = t; revision = n + 1; configuration = c }

  save_new_absent_keys :
      (n : ℕ)
      → find (is_team o t) db.teams ≡ none
      → save_new sdk o h n (numbered n) db ≢ err integrity_error
  unfolding save_new write_team advance_team add_team add_revision
  save_new_absent_keys zero missing broke =
      let no_team = exists-none_of_find (is_team o t) db.teams missing in
      let made =
        exists-of_find (is_team o t) (db.teams ++ new_team o h t ∷ []) (new_team o h t)
          (new_team_found sdk o h t 1 c db missing) in
      elim (Option-cases (find (is_revision o t 1) db.team_revisions)) [
        | inl unstored ↦
            let fresh = exists-none_of_find (is_revision o t 1) db.team_revisions unstored in
            ground arith
        | inr (row, stored) ↦
            let (y, found, le) = reached o t 1 row stored in absurd (cc (missing, found))
      ]
  save_new_absent_keys (suc n) missing broke =
      let nothing =
        count_where-none (is_team o t) (is_current o h t (suc n)) db.teams (λ x e. ground arith)
          missing in
      ground arith

  save_new_present_keys :
      (n : ℕ) (x : TeamRow)
      → find (is_team o t) db.teams ≡ some x
      → save_new sdk o h n (numbered n) db ≢ err integrity_error
  unfolding save_new write_team advance_team add_team add_revision
  save_new_present_keys zero x found broke =
      let there = exists-of_find (is_team o t) db.teams x found in ground arith
  save_new_present_keys (suc n) x found broke =
      elim (Bool-cases (count_where (is_current o h t (suc n)) db.teams == 1)) [
        | inr other ↦ ground arith
        | inl one ↦
            let (y, found', current) =
              find_of_count (is_team o t) (is_current o h t (suc n)) (λ z k. ground arith) db.teams
                (keyed o t) (ground arith) in
            let fresh = not_stored o t (suc n + 1) y db reached found' (ground (arith, current)) in
            let there =
              exists-of_find (is_team o t)
                (update_where (is_current o h t (suc n)) (set_revision (suc n + 1)) db.teams)
                (if is_current o h t (suc n) y then set_revision (suc n + 1) y else y)
                (find-update_where (is_team o t) (is_current o h t (suc n))
                  (set_revision (suc n + 1)) db.teams y (λ z. refl) found') in
            ground arith
      ]

  save_keys : (expected : ℤ) → save sdk o h t expected c db ≢ err integrity_error
  unfolding save make_revision replay replay_accepted read_configuration
  save_keys expected broke = elim (Option-cases (find (is_team o t) db.teams)) [
    | inl missing ↦ ground (arith, save_new_absent_keys (pos_part expected) missing)
    | inr (x, found) ↦
        elim (Option-cases (find (is_revision o t (pos_part expected + 1)) db.team_revisions)) [
          | inl unstored ↦ ground (arith, save_new_present_keys (pos_part expected) x found)
          | inr (row, stored) ↦ elim (Option-cases (sdk.validate row.configuration)) [
            | inl invalid ↦ ground arith
            | inr (c', reads) ↦ ground arith
          ]
        ]
  ]

-- Whatever calls are made, `save` never runs into a primary or foreign key of the team tables: it is
-- refused, if at all, by its own checks. This holds if at first an Owner's team id stands in one row
-- at most, and every stored revision is one that its team has reached.
pub save-keeps_keys :
    (sdk : TeamSdk) (actions : List (Action sdk)) (db : Db) (o h t : String) (expected : ℤ)
    (c : sdk.Configuration)
    → IsKeyed db
    → IsReached db
    → save sdk o h t expected c (perform_all sdk actions db) ≢ err integrity_error
save-keeps_keys sdk actions db o h t expected c keyed reached =
    let (keyed', reached') =
      always_keeps sdk (λ s. IsKeyed s × IsReached s) Changed-IsReached actions db
        (keyed, reached) in
    save_keys sdk o h t c (perform_all sdk actions db) keyed' reached' expected
