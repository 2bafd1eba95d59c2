-- ===== src/Tests/Fixtures.antt =====
-- Test data: two Owners, a guard Companion, and what the environment supplies.
use eidolon_data.Prelude.{ℕ, zero, suc, ◌+◌, String, none, [], ◌∷◌}
use eidolon_data.Schema.{
  Db, empty_db, Env, person, OwnerStatus, OwnerRow, CompanionKind, conversational, guard,
  LifecycleState, CompanionRow,
}

abbrev nth : String → String → ℕ → String
nth a b zero = a
nth a b (suc n) = b

-- the ids drawn are `a` and then `b`; the outbox row gets the id `k`
abbrev pub env_at : ℕ → String → String → ℕ → Env
env_at now a b k = record { now = now; uuid = nth a b; outbox_id = λ n. k + n }

abbrev pub owner_named : String → OwnerRow
owner_named owner_id = record {
  owner_id = owner_id;
  display_name = "";
  kind = person;
  status = OwnerStatus.active;
  default_companion_id = none;
  revision = 1;
  profile_json = [];
  settings_json = [];
  created_at = 0;
  updated_at = 0;
}

abbrev pub companion_named : String → String → CompanionKind → CompanionRow
companion_named owner_id companion_id kind = record {
  companion_id = companion_id;
  owner_id = owner_id;
  display_name = "";
  kind = kind;
  lifecycle_state = LifecycleState.active;
  revision = 1;
  current_genome_id = none;
  default_memory_realm_id = none;
  profile_json = [];
  runtime_config_json = [];
  metadata_json = [];
  created_at = 0;
  updated_at = 0;
}

abbrev pub db_fixture : Db
db_fixture = record empty_db {
  owners = owner_named "owner-a" ∷ owner_named "owner-b" ∷ [];
  companions =
      companion_named "owner-a" "guard-a" guard
      ∷ companion_named "owner-a" "talker" conversational
      ∷ companion_named "owner-b" "guard-b" guard
      ∷ [];
}
