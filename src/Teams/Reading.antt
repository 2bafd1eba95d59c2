-- ===== src/Teams/Reading.antt =====
-- `get` after `save`.
use eidolon_data.Teams.Calls.{Action, call_save, perform_all, saved}
use eidolon_data.Teams.Replay.{later, still_Admissible}
use eidolon_data.Teams.Exclusion.{perform_all-IsKeyed}
use eidolon_data.Teams.Effects.{save_result, save-Saved}
use eidolon_data.Teams.Lasting.{Stores}
use eidolon_data.Teams.Sdk.{TeamSdk}
use eidolon_data.Prelude.{
  ◌+◌, String, ◌≡◌, sym, ap, ◌∙◌, Bool, true, false, ◌&&◌, some, List, arith, eq_iff, ◌==◌, ==→≡,
  ==_symm, ℤ, pos_part, find, exists_where, find_sound, exists_of_one, exists_of_find, find_ext, ok,
  string_eq, nat_eq, option_eq,
}
use eidolon_data.Schema.{Db, TeamRow, TeamRevisionRow}
use eidolon_data.Teams.Tables.{is_active_owner, require_owner, is_team, is_revision}
use eidolon_data.Teams.Assets.{
  TeamRevision, shown_team, joins, is_shown_revision, make_revision, read_configuration, save,
  read_revision, get,
}
use eidolon_data.Teams.Holding.{IsKeyed, Changed-IsKeyed}

-- The join of `get` looks for the stored revision that the team names.
module _ (o h t : String) (db : Db) (team : TeamRow) (keyed : IsKeyed db)
    (found : find (is_team o t) db.teams ≡ some team) (host : team.host_id ≡ h)
    (live : team.deleted ≡ false) where
  abbrev joined : TeamRevisionRow → TeamRow → Bool
  joined row x = joins row x && shown_team o h x && x.team_id == t

  same_row : (row : TeamRevisionRow) → joined row team ≡ is_revision o t team.revision row
  same_row row =
      let fits = find_sound (is_team o t) db.teams team found in
      let mine : team.owner_id ≡ o = ground (arith, ==→≡ team.owner_id o) in
      let name : team.team_id ≡ t = ground (arith, ==→≡ team.team_id t) in
      ground (
        arith,
        eq_iff team.host_id h,
        ==_symm o row.owner_id,
        ==_symm t row.team_id,
        ==_symm team.revision row.revision,
      )

  shown_revision :
      (row : TeamRevisionRow)
      → is_shown_revision o h (λ x. x == t) db row ≡ is_revision o t team.revision row
  shown_revision row =
      exists_of_find (is_team o t) (joined row) (λ x e. ground arith) db.teams team (keyed o t)
        found
      ∙ same_row row

  -- `require_owner` and the rest of `get`
  module _ (sdk : TeamSdk) (c : sdk.Configuration) (row : TeamRevisionRow)
      (stored : Stores o t team.revision row db) (reads : sdk.validate row.configuration ≡ some c)
      (valid : sdk.accepts t team.revision c ≡ true)
      (owner : exists_where (is_active_owner o) db.owners ≡ true) where
    shown : find (is_shown_revision o h (λ x. x == t) db) db.team_revisions ≡ some row
    shown =
        find_ext (is_shown_revision o h (λ x. x == t) db) (is_revision o t team.revision)
          db.team_revisions shown_revision
        ∙ stored

    named : (row.team_id ≡ t) × (row.revision ≡ team.revision)
    named =
        let fits = find_sound (is_revision o t team.revision) db.team_revisions row stored in
        (ground (arith, ==→≡ row.team_id t), ground (arith, ==→≡ row.revision team.revision))

    pub get_current :
        get sdk o h t db
        ≡ ok (record { team_id = t; revision = team.revision; configuration = c }, db)
    unfolding get require_owner read_revision make_revision read_configuration
    get_current = let (id, number) = named in ground (arith, shown)

module _ (sdk : TeamSdk) (o h t : String) (c : sdk.Configuration) (expected : ℤ)
    (actions : List (Action sdk)) (db db' : Db) (result : TeamRevision sdk.Configuration)
    (team : TeamRow) where
  -- What has been saved is what `get` returns, after any other calls, as long as the team is not
  -- deleted and this is its newest revision. This holds if at first an Owner's team id stands in one
  -- row at most.
  pub get-save :
      IsKeyed db
      → save sdk o h t expected c db ≡ ok (result, db')
      → find (is_team o t) (perform_all sdk actions db').teams ≡ some team
      → team.deleted ≡ false
      → team.revision ≡ result.revision
      → get sdk o h t (perform_all sdk actions db') ≡ ok (result, perform_all sdk actions db')
  get-save keyed ran found live newest =
      let last = perform_all sdk actions db' in
      let a = later sdk o h t c expected actions db db' result ran in
      let ad = still_Admissible sdk o h t c expected actions db db' result ran in
      let answer = save_result sdk o h t c db db' result expected ran in
      let same : a.team ≡ team = cc (a.team_found, found) in
      let number : team.revision ≡ pos_part expected + 1 = cc (answer, newest) in
      let keyed' = perform_all-IsKeyed sdk actions db' (
        Changed-IsKeyed {sdk = sdk} (call_save o h t expected c) db db'
          (saved o h t expected c db db' (save-Saved sdk o h t c db db' result expected ran))
          keyed) in
      get_current o h t last team keyed' found (ap (λ x. x.host_id) (sym same) ∙ a.host) live sdk c
        a.row (rw number a.stored) (a.reads) (rw number ad.valid)
        (exists_of_one (is_active_owner o) last.owners ad.one_owner)
      ∙ cc (number, answer)
