-- ===== src/Deletion/Cascades.antt =====
-- What the database does on DELETE FROM companions and DELETE FROM owners, by the foreign keys of
-- eidolon_data/schema. A reference with ON DELETE CASCADE goes with its target, one with
-- ON DELETE SET NULL is cleared, and one without either refuses the DELETE.
use eidolon_data.Prelude.{
  String, Bool, Option, none, some, List, map, if◌then◌else◌, ◌==◌, select_where, delete_where,
  exists_where, mem, Tx, gets, raise_if, modify, ◌>>=◌, ◌>>◌, string_eq, option_eq, nat_eq,
}
use eidolon_data.Schema.{
  Db, CompanionFaceAssetRow, OwnerFaceProfileRevisionRow, OwnerRow, CompanionRow, GuardBindingRow,
  PersonaGenomeRow, MemoryRealmRow, TeamRow,
}

-- a reference with ON DELETE SET NULL to a key that is gone
abbrev pub unless_gone : List String → Option String → Option String
unless_gone gone none = none
unless_gone gone (some key) = if mem key gone then none else some key

abbrev pub is_companion_in : List String → CompanionRow → Bool
is_companion_in ids c = mem c.companion_id ids

abbrev pub is_genome_in : List String → PersonaGenomeRow → Bool
is_genome_in ids row = mem row.companion_id ids

abbrev pub is_face_in : List String → CompanionFaceAssetRow → Bool
is_face_in ids a = mem a.companion_id ids

abbrev pub is_binding_in : List String → GuardBindingRow → Bool
is_binding_in ids b = mem b.guard_companion_id ids

abbrev pub clear_default : List String → OwnerRow → OwnerRow
clear_default ids o = record o { default_companion_id = unless_gone ids o.default_companion_id }

abbrev pub clear_genome : List String → CompanionRow → CompanionRow
clear_genome gone c = record c { current_genome_id = unless_gone gone c.current_genome_id }

abbrev pub clear_base : List String → PersonaGenomeRow → PersonaGenomeRow
clear_base gone row = record row { base_genome_id = unless_gone gone row.base_genome_id }

abbrev pub clear_realm : List String → CompanionRow → CompanionRow
clear_realm gone c = record c {
  default_memory_realm_id = unless_gone gone c.default_memory_realm_id;
}

abbrev pub genomes_in : List String → Db → List String
genomes_in ids db = map (λ r. r.genome_id) (select_where (is_genome_in ids) db.persona_genomes)

-- DELETE FROM companions of these ids
unfoldable pub delete_companion_rows : List String → Db → Db
delete_companion_rows ids db = record db {
  owners = map (clear_default ids) db.owners;
  companions =
      map (clear_genome (genomes_in ids db)) (delete_where (is_companion_in ids) db.companions);
  persona_genomes =
      map (clear_base (genomes_in ids db)) (delete_where (is_genome_in ids) db.persona_genomes);
  companion_face_assets = delete_where (is_face_in ids) db.companion_face_assets;
  guard_bindings = delete_where (is_binding_in ids) db.guard_bindings;
}

abbrev pub has_owner_id : String → OwnerRow → Bool
has_owner_id owner_id o = o.owner_id == owner_id

abbrev pub is_companion_of : String → CompanionRow → Bool
is_companion_of owner_id c = c.owner_id == owner_id

abbrev pub is_realm_of : String → MemoryRealmRow → Bool
is_realm_of owner_id r = r.owner_id == owner_id

abbrev pub is_profile_of : String → OwnerFaceProfileRevisionRow → Bool
is_profile_of owner_id r = r.owner_id == owner_id

abbrev pub is_team_of : String → TeamRow → Bool
is_team_of owner_id t = t.owner_id == owner_id

abbrev pub companions_of : String → Db → List String
companions_of owner_id db =
    map (λ c. c.companion_id) (select_where (is_companion_of owner_id) db.companions)

abbrev pub realms_of : String → Db → List String
realms_of owner_id db = map (λ r. r.realm_id) (select_where (is_realm_of owner_id) db.memory_realms)

abbrev pub profiles_of : String → Db → List String
profiles_of owner_id db =
    map (λ r. r.profile_revision_id)
      (select_where (is_profile_of owner_id) db.owner_face_profile_revisions)

-- the rows that name the Owner and go with it, apart from the Companions and theirs
unfoldable pub delete_owned_rows : String → Db → Db
delete_owned_rows owner_id db = record db {
  owners = delete_where (has_owner_id owner_id) db.owners;
  companions = map (clear_realm (realms_of owner_id db)) db.companions;
  companion_face_assets = delete_where (λ a. a.owner_id == owner_id) db.companion_face_assets;
  guard_bindings = delete_where (λ b. b.owner_id == owner_id) db.guard_bindings;
  memory_realms = delete_where (is_realm_of owner_id) db.memory_realms;
  owner_face_profile_revisions =
      delete_where (is_profile_of owner_id) db.owner_face_profile_revisions;
  owner_face_references =
      delete_where (λ r. mem r.profile_revision_id (profiles_of owner_id db))
        db.owner_face_references;
  persons = delete_where (λ p. p.owner_id == owner_id) db.persons;
  person_face_profiles = delete_where (λ p. p.owner_id == owner_id) db.person_face_profiles;
}

-- DELETE FROM owners of one id: the foreign key of `teams` has no ON DELETE
unfoldable pub delete_owner_row : {E : Type 0} → E → String → Tx Db E (Unit {0})
delete_owner_row integrity owner_id = do
  raise_if (← gets (λ db. exists_where (is_team_of owner_id) db.teams)) integrity
  modify (λ db. delete_owned_rows owner_id (delete_companion_rows (companions_of owner_id db) db))
