-- ===== src/Directory/Realms.antt =====
-- `MemoryRealmsRepository`.
use eidolon_data.Prelude.{
  String, Bool, Option, List, ◌==◌, find, select_where, order_by, string_eq, option_eq, nat_eq,
}
use eidolon_data.Schema.{Db, MemoryRealmRow}
use eidolon_data.Deletion.Cascades.{is_realm_of}

abbrev pub has_realm_id : String → MemoryRealmRow → Bool
has_realm_id realm_id r = r.realm_id == realm_id

unfoldable pub get_realm : String → Db → Option MemoryRealmRow
get_realm realm_id db = find (has_realm_id realm_id) db.memory_realms

unfoldable pub list_realms : String → Db → List MemoryRealmRow
list_realms owner_id db =
    order_by (λ r. r.created_at) (select_where (is_realm_of owner_id) db.memory_realms)
