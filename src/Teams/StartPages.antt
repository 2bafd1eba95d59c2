-- ===== src/Teams/StartPages.antt =====
-- `TeamAssets.starts_page` and `starts`.
use eidolon_data.Prelude.{
  ℕ, ◌+◌, String, Bool, false, not, ◌&&◌, ◌||◌, Option, none, some, List, map, if◌then◌else◌, ltb,
  ◌==◌, ◌!=◌, length, take, get_last?, ℤ, pos, pos_part, in_range, find, select_where, sort_by,
  pure, gets, or_raise, raise_if, ◌>>=◌, ◌>>◌, is_empty, text_ltb, text_leb, nat_eq, string_eq,
  option_eq,
}
use eidolon_data.Schema.{TeamStartRow}
use eidolon_data.Teams.Sdk.{not_found, invalid_limit}
use eidolon_data.Teams.Tables.{TeamCall, require_owner, is_team}

pub record TeamStartRecord : Type 0 where
  pub team_id : String
  pub session_id : String
  pub revision : ℕ
  pub closed : Bool

pub record TeamStarts : Type 0 where
  pub starts : List TeamStartRecord
  pub next_cursor : Option String

abbrev pub start_record : TeamStartRow → TeamStartRecord
start_record row = record {
  team_id = row.team_id;
  session_id = row.session_id;
  revision = row.revision;
  closed = row.closed;
}

abbrev pub is_listed : String → String → Bool → String → TeamStartRow → Bool
is_listed owner_id team_id include_closed after row =
    row.owner_id == owner_id
    && row.team_id == team_id
    && (include_closed || not row.closed)
    && (is_empty after || text_ltb row.session_id after)

abbrev pub session_of : Option TeamStartRow → Option String
session_of none = none
session_of (some row) = some row.session_id

unfoldable pub starts_page : String → String → String → Bool → String → ℤ → TeamCall TeamStarts
starts_page owner_id host_id team_id include_closed after limit = do
  raise_if (not (in_range 1 limit 100)) invalid_limit
  require_owner owner_id
  existing ← gets (λ db. find (is_team owner_id team_id) db.teams)
  t ← or_raise existing not_found
  raise_if (t.host_id != host_id) not_found
  found ← gets (λ db.
      sort_by (λ a b. text_leb b.session_id a.session_id)
        (select_where (is_listed owner_id team_id include_closed after) db.team_starts))
  let rows = take (pos_part limit + 1) found
  let visible = take (pos_part limit) rows
  pure (record {
    starts = map start_record visible;
    next_cursor =
        if ltb (pos_part limit) (length rows) then session_of (get_last? visible) else none;
  })

-- `starts`, with the defaults of `starts_page`
unfoldable pub starts : String → String → String → TeamCall (List TeamStartRecord)
starts owner_id host_id team_id = do
  page ← starts_page owner_id host_id team_id false "" (pos 50)
  pure page.starts
