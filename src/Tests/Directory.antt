-- ===== src/Tests/Directory.antt =====
-- The reads of Owners, Companions and realms, and the facade of the persona commands.
use eidolon_data.Prelude.{
  ℕ, String, ◌≡◌, refl, Option, none, some, List, [], ◌∷◌, map, ok, string_eq, nat_eq, option_eq,
}
use eidolon_data.Schema.{Db, conversational, CompanionRow}
use eidolon_data.Directory.Owners.{get_owner, list_owners, rename_owner}
use eidolon_data.Directory.Companions.{
  get_companion, list_companions, page_for_owner, get_default_for_owner,
}
use eidolon_data.Directory.Realms.{get_realm, list_realms}
use eidolon_data.Directory.Access.{author, restore}
use eidolon_data.Tests.Fixtures.{owner_named, companion_named, db_fixture}
use eidolon_data.Tests.Personas.{sdk, persona_code, env_of, db_edited}

-- what a run needs unfolded
directory_code : Unit {0}
unfolding get_owner list_owners rename_owner get_companion list_companions page_for_owner
    get_default_for_owner get_realm list_realms author restore
directory_code = tt

abbrev ids_of : List CompanionRow → List String
ids_of rows = map (λ c. c.companion_id) rows

-- both Companions of the Owner were made at one time, so their ids order them
page_ok :
    (ids_of (page_for_owner "owner-a" 1 none db_fixture) ≡ "guard-a" ∷ [])
    × (ids_of (page_for_owner "owner-a" 1 (some (0, "guard-a")) db_fixture) ≡ "talker" ∷ [])
    × (ids_of (page_for_owner "owner-a" 5 (some (0, "talker")) db_fixture) ≡ [])
    × (ids_of (list_companions "owner-a" db_fixture) ≡ "guard-a" ∷ "talker" ∷ [])
unfolding directory_code
page_ok = (refl, refl, refl, refl)

abbrev db_default : Db
db_default = record db_fixture {
  owners = record (owner_named "owner-a") { default_companion_id = some "talker" } ∷ [];
}

default_ok :
    (get_default_for_owner "owner-a" db_default
      ≡ some (companion_named "owner-a" "talker" conversational))
    × (get_default_for_owner "owner-a" db_fixture ≡ none)
    × (get_default_for_owner "owner-c" db_default ≡ none)
unfolding directory_code
default_ok = (refl, refl, refl)

rename_ok :
    ((rename_owner (env_of "r" 50) "owner-c" "Cat" db_default).0 ≡ none)
    × (get_owner "owner-a" (rename_owner (env_of "r" 50) "owner-a" "Ada" db_default).1
        ≡ (rename_owner (env_of "r" 50) "owner-a" "Ada" db_default).0)
unfolding directory_code
rename_ok = (refl, refl)

-- the id and the version of the genome that an authoring leaves
abbrev authored : Option (String × ℕ)
authored = elim (author sdk (env_of "c" 30) "talker" "Cy" "s" "g_b3" "op-3" 2 db_edited) [
  | ok (some row, db) ↦ some (row.genome_id, row.version)
  | _ ↦ none
]

author_ok : authored ≡ some ("g_c3", 3)
unfolding persona_code directory_code
author_ok = refl
