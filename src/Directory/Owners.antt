-- ===== src/Directory/Owners.antt =====
-- `OwnersRepository`.
use eidolon_data.Prelude.{
  String, Option, none, some, List, find, update_where, order_by, string_eq, option_eq, nat_eq,
}
use eidolon_data.Schema.{Db, Env, OwnerRow}
use eidolon_data.Deletion.Cascades.{has_owner_id}

unfoldable pub get_owner : String → Db → Option OwnerRow
get_owner owner_id db = find (has_owner_id owner_id) db.owners

unfoldable pub list_owners : Db → List OwnerRow
list_owners db = order_by (λ o. o.created_at) db.owners

abbrev pub renamed : Env → String → OwnerRow → OwnerRow
renamed env display_name o = record o { display_name = display_name; updated_at = env.now }

-- `rename`: the row as it is read again after the commit, and the new tables
unfoldable pub rename_owner : Env → String → String → Db → Option OwnerRow × Db
rename_owner env owner_id display_name db = elim (find (has_owner_id owner_id) db.owners) [
  | none ↦ (none, db)
  | some o ↦ (
    some (renamed env display_name o),
    record db {
      owners = update_where (has_owner_id owner_id) (renamed env display_name) db.owners;
    },
  )
]
