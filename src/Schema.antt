-- ===== src/Schema.antt =====
-- eidolon_data/schema: the persistence rows, and the database as one record of tables. A column
-- with a CHECK of the form `x IN (…)` is an enumeration; times are instants in microseconds.
mod Assets
mod Audit
mod Core
mod Guard
mod Persona
mod Persons
mod Teams
pub use Assets.*
pub use Audit.*
pub use Core.*
pub use Guard.*
pub use Persona.*
pub use Persons.*
pub use Teams.*
use eidolon_data.Prelude.{ℕ, String, List, []}

-- The tables that the modelled services read and write.
pub record Db : Type 0 where
  pub owners : List OwnerRow
  pub companions : List CompanionRow
  pub guard_bindings : List GuardBindingRow
  pub teams : List TeamRow
  pub team_revisions : List TeamRevisionRow
  pub team_starts : List TeamStartRow
  pub companion_face_assets : List CompanionFaceAssetRow
  pub owner_face_profile_revisions : List OwnerFaceProfileRevisionRow
  pub owner_face_references : List OwnerFaceReferenceRow
  pub persona_genomes : List PersonaGenomeRow
  pub memory_realms : List MemoryRealmRow
  pub persons : List PersonRow
  pub person_face_profiles : List PersonFaceRow
  pub audit_outbox : List AuditOutboxRow

abbrev pub empty_db : Db
empty_db = record {
  owners = [];
  companions = [];
  guard_bindings = [];
  teams = [];
  team_revisions = [];
  team_starts = [];
  companion_face_assets = [];
  owner_face_profile_revisions = [];
  owner_face_references = [];
  persona_genomes = [];
  memory_realms = [];
  persons = [];
  person_face_profiles = [];
  audit_outbox = [];
}

-- What one transaction is given from outside: the clock's reading, the ids that `uuid4().hex`
-- draws in turn, and the row ids that the database assigns to the outbox rows in turn.
pub record Env : Type 0 where
  pub now : ℕ
  pub uuid : ℕ → String
  pub outbox_id : ℕ → ℕ
