-- ===== src/Teams/Replay.antt =====
-- What an accepted revision means for every later `save`.
use eidolon_data.Prelude.{
  ℕ, ◌+◌, String, ◌≡◌, refl, ap, ◌∙◌, ◌≢◌, true, false, ◌||◌, none, some, List, [], ◌∷◌, ◌++◌,
  arith, eq_iff, if◌then◌else◌, ltb, length, ℤ, pos_part, ltb_ℤ, find, count_where,
  find-update_where, find-append_none, find-none_of_exists, ok, is_empty, codes, string_eq, nat_eq,
  option_eq,
}
use eidolon_data.Schema.{Db, TeamRow, TeamRevisionRow}
use eidolon_data.Teams.Sdk.{TeamSdk}
use eidolon_data.Teams.Tables.{is_active_owner, is_team, is_revision}
use eidolon_data.Teams.Assets.{
  is_current, set_revision, new_team, TeamRevision, make_revision, read_configuration,
  replay_accepted, replay, save,
}
use eidolon_data.Teams.Effects.{
  saved_row, Saved, replayed, created, advanced, save_result, save-Saved,
}
use eidolon_data.Teams.StartEffects.{looked, accepted}
use eidolon_data.Teams.Calls.{
  Action, call_save, perform_all, Changed, unchanged, saved, reserved, closed, snapshotted, deleted,
  always_keeps,
}
use eidolon_data.Teams.Lasting.{perform_all-TeamEvolves, Stores, perform_all-Stores}

-- The Owners' table is only read.
Changed-owners :
    {sdk : TeamSdk} (a : Action sdk) (db db' : Db) → Changed sdk a db db' → db'.owners ≡ db.owners
Changed-owners _ _ _ unchanged = refl
Changed-owners _ _ _ (saved o h t n c db db' (replayed _ _ _ _ _ _ _ e)) = rw e refl
Changed-owners _ _ _ (saved o h t n c db db' (created _ _ _ e)) = rw e refl
Changed-owners _ _ _ (saved o h t n c db db' (advanced _ _ _ _ _ e)) = rw e refl
Changed-owners _ _ _ (reserved o h t n s db db' r) = r.owners
Changed-owners _ _ _ (closed o h t s st db db' r) = rw r.tables refl
Changed-owners _ _ _ (snapshotted o h t s sel db db' (looked _ e)) = rw e refl
Changed-owners _ _ _ (snapshotted o h t s sel db db' (accepted _ _ _ _ _ _ e)) = rw e refl
Changed-owners _ _ _ (deleted o h t n db db' r) = rw r.tables refl

perform_all_owners :
    (sdk : TeamSdk) (actions : List (Action sdk)) (db : Db)
    → (perform_all sdk actions db).owners ≡ db.owners
perform_all_owners sdk actions db =
    always_keeps sdk (λ s. s.owners ≡ db.owners) (λ a s s' ch e. Changed-owners a s s' ch ∙ e)
      actions db refl

-- The team of the host has this configuration as its revision `n`.
pub record Accepted (sdk : TeamSdk) (owner_id host_id team_id : String) (n : ℕ)
    (c : sdk.Configuration) (db : Db) : Type 0 where
  pub team : TeamRow
  pub team_found : find (is_team owner_id team_id) db.teams ≡ some team
  pub host : team.host_id ≡ host_id
  pub row : TeamRevisionRow
  pub stored : Stores owner_id team_id n row db
  pub reads : sdk.validate row.configuration ≡ some c

pub is_team_refl : (o h t : String) → is_team o t (new_team o h t) ≡ true
is_team_refl o h t = ground (arith, eq_iff o o, eq_iff t t)

is_revision_refl :
    (sdk : TeamSdk) (o t : String) (n : ℕ) (c : sdk.Configuration)
    → is_revision o t n (saved_row sdk o t n c) ≡ true
is_revision_refl sdk o t n c = ground (arith, eq_iff o o, eq_iff t t)

module _ (sdk : TeamSdk) (o h t : String) (n : ℕ) (c : sdk.Configuration) where
  new_revision_found :
      (db : Db)
      → find (is_revision o t n) db.team_revisions ≡ none
      → find (is_revision o t n) (db.team_revisions ++ saved_row sdk o t n c ∷ [])
        ≡ some (saved_row sdk o t n c)
  new_revision_found db missing =
      find-append_none (is_revision o t n) db.team_revisions (saved_row sdk o t n c ∷ []) missing
      ∙ ground (arith, is_revision_refl sdk o t n c)

  pub new_team_found :
      (db : Db)
      → find (is_team o t) db.teams ≡ none
      → find (is_team o t) (db.teams ++ new_team o h t ∷ []) ≡ some (new_team o h t)
  new_team_found db missing =
      find-append_none (is_team o t) db.teams (new_team o h t ∷ []) missing
      ∙ ground (arith, is_team_refl o h t)

module _ (sdk : TeamSdk) (o h t : String) (c : sdk.Configuration) where
  Saved-Accepted :
      (m : ℕ) (db db' : Db) → Saved sdk o h t m c db db' → Accepted sdk o h t (m + 1) c db'
  Saved-Accepted m db db' (replayed team row found host live stored reads e) = rw e (record {
    team = team;
    team_found = found;
    host = host;
    row = row;
    stored = stored;
    reads = reads;
  })
  Saved-Accepted m db db' (created first missing fresh e) = rw e (
      rw first (record {
        team = new_team o h t;
        team_found = new_team_found sdk o h t 1 c db missing;
        host = refl;
        row = saved_row sdk o t 1 c;
        stored =
            new_revision_found sdk o h t 1 c db
              (find-none_of_exists (is_revision o t 1) db.team_revisions fresh);
        reads = sdk.validate-dump c;
      }))
  Saved-Accepted m db db' (advanced team found host one fresh e) = rw e (record {
    team = if is_current o h t m team then set_revision (m + 1) team else team;
    team_found =
        find-update_where (is_team o t) (is_current o h t m) (set_revision (m + 1)) db.teams team
          (λ z. refl) found;
    host = ground arith;
    row = saved_row sdk o t (m + 1) c;
    stored =
        new_revision_found sdk o h t (m + 1) c db
          (find-none_of_exists (is_revision o t (m + 1)) db.team_revisions fresh);
    reads = sdk.validate-dump c;
  })

  -- once accepted, accepted for ever
  perform_all-Accepted :
      (n : ℕ) (actions : List (Action sdk)) (db : Db)
      → Accepted sdk o h t n c db
      → Accepted sdk o h t n c (perform_all sdk actions db)
  perform_all-Accepted n actions db a =
      let (x, found, ev) = perform_all-TeamEvolves sdk o t a.team actions db a.team_found in
      record {
        team = x;
        team_found = found;
        host = ev.host ∙ a.host;
        row = a.row;
        stored = perform_all-Stores sdk o t n a.row actions db a.stored;
        reads = a.reads;
      }

  -- what a `save` has checked before it looks at the team
  pub record Admissible (expected : ℤ) (db : Db) : Type 0 where
    pub natural : ltb_ℤ expected 0 ≡ false
    pub host_fits : is_empty h || ltb 128 (length (codes h)) ≡ false
    pub one_owner : count_where (is_active_owner o) db.owners ≡ 1
    pub valid : sdk.accepts t (pos_part expected + 1) c ≡ true

  save-Admissible :
      (expected : ℤ) (db db' : Db) (result : TeamRevision sdk.Configuration)
      → save sdk o h t expected c db ≡ ok (result, db')
      → Admissible expected db
  unfolding save make_revision
  save-Admissible expected db db' result ran = record {
    natural = ground arith;
    host_fits = ground arith;
    one_owner = ground arith;
    valid = ground arith;
  }

  save-Accepted :
      (expected : ℤ) (db : Db)
      → Admissible expected db
      → (a : Accepted sdk o h t (pos_part expected + 1) c db) → a.team.deleted ≡ false
      → save sdk o h t expected c db
        ≡ ok (record { team_id = t; revision = pos_part expected + 1; configuration = c }, db)
  unfolding save make_revision replay replay_accepted read_configuration
  save-Accepted expected db ad a live =
      ground (arith, eq_iff a.team.host_id h, sdk.same_configuration_iff c c)

  module _ (expected : ℤ) (actions : List (Action sdk)) (db db' : Db)
      (result : TeamRevision sdk.Configuration)
      (ran : save sdk o h t expected c db ≡ ok (result, db')) where
    pub later : Accepted sdk o h t (pos_part expected + 1) c (perform_all sdk actions db')
    later = perform_all-Accepted (pos_part expected + 1) actions db' (
        Saved-Accepted (pos_part expected) db db'
          (save-Saved sdk o h t c db db' result expected ran))

    pub still_Admissible : Admissible expected (perform_all sdk actions db')
    still_Admissible =
        let ad = save-Admissible expected db db' result ran in
        let same : (perform_all sdk actions db').owners ≡ db.owners =
          perform_all_owners sdk actions db'
          ∙ Changed-owners (call_save o h t expected c) db db'
              (saved o h t expected c db db' (save-Saved sdk o h t c db db' result expected ran)) in
        record {
          natural = ad.natural;
          host_fits = ad.host_fits;
          one_owner = ap (count_where (is_active_owner o)) same ∙ ad.one_owner;
          valid = ad.valid;
        }

  Accepted-unique :
      (h' : String) (c' : sdk.Configuration) (m : ℕ) (db db' : Db)
      → Accepted sdk o h t (m + 1) c db
      → Saved sdk o h' t m c' db db'
      → c' ≡ c
  Accepted-unique h' c' m db db' a (replayed team row found host live stored reads e) =
      let same : row ≡ a.row = cc (stored, a.stored) in
      cc (ap (λ r. sdk.validate r.configuration) same, reads, a.reads)
  Accepted-unique h' c' m db db' a (created first missing fresh e) =
      absurd (cc (missing, a.team_found))
  Accepted-unique h' c' m db db' a (advanced team found host one fresh e) =
      absurd (cc (a.stored, find-none_of_exists (is_revision o t (m + 1)) db.team_revisions fresh))

  -- A save that has returned can be sent again: after any other calls, and unless the team has been
  -- deleted meanwhile, it returns the same revision and changes nothing.
  pub save_again :
      (expected : ℤ) (actions : List (Action sdk)) (db db' : Db)
      (result : TeamRevision sdk.Configuration) (team : TeamRow)
      → save sdk o h t expected c db ≡ ok (result, db')
      → find (is_team o t) (perform_all sdk actions db').teams ≡ some team
      → team.deleted ≡ false
      → save sdk o h t expected c (perform_all sdk actions db')
        ≡ ok (result, perform_all sdk actions db')
  save_again expected actions db db' result team ran found live =
      let last = perform_all sdk actions db' in
      let a = later expected actions db db' result ran in
      let same : a.team ≡ team = cc (a.team_found, found) in
      let ad = still_Admissible expected actions db db' result ran in
      save-Accepted expected last ad a (ap (λ x. x.deleted) same ∙ live)
      ∙ cc (save_result sdk o h t c db db' result expected ran)

  -- Once a save has returned, no save of another configuration as the same revision of the team ever
  -- returns, whatever is called in between and whichever host sends it.
  pub save_once :
      (h' : String) (c' : sdk.Configuration) (expected : ℤ) (actions : List (Action sdk))
      (db db' db'' : Db) (result result' : TeamRevision sdk.Configuration)
      → save sdk o h t expected c db ≡ ok (result, db')
      → c' ≢ c
      → save sdk o h' t expected c' (perform_all sdk actions db') ≢ ok (result', db'')
  save_once h' c' expected actions db db' db'' result result' ran other ran' = other (
      Accepted-unique h' c' (pos_part expected) (perform_all sdk actions db') db''
        (later expected actions db db' result ran)
        (save-Saved sdk o h' t c' (perform_all sdk actions db') db'' result' expected ran'))
