-- ===== src/Personas/Evolution/Rows.antt =====
-- The rows and payloads of the commands on proposals, and their checks.
use eidolon_data.Prelude.{
  ℕ, ◌+◌, String, Bool, false, not, ◌||◌, Option, none, some, [], ◌∷◌, if◌then◌else◌, ◌==◌, ◌!=◌,
  Json, null, str, JsonDict, dict_get, str_or_null, find, pure, gets, or_raise, raise_if, ◌>>=◌,
  ◌>>◌, ◌⧺◌, strip, nat_eq, string_eq, option_eq,
}
use eidolon_data.Schema.{
  Env, Outcome, CompanionRow, GenomeStatus, proposed, rejected, stale, PersonaGenomeRow,
  is_committed, is_proposed, denied,
}
use eidolon_data.Audit.Facts.{add_fact}
use eidolon_data.Personas.Genomes.{
  state_not_eligible, current_changed, PersonaError, conflict, not_found, bad_value,
  integrity_error, PersonaCall, is_genome, write_companion, write_genome, event,
}

-- `session.add` of an event of one genome
unfoldable pub add_event :
    Env
    → ℕ
    → String
    → String
    → String
    → String
    → Outcome
    → JsonDict
    → Option String
    → PersonaCall (Unit {0})
add_event env n owner_id companion_id genome_id event_type outcome payload event_id =
    add_fact integrity_error
      (event env n owner_id companion_id genome_id event_type outcome payload event_id)

-- the test of `base_genome_id` in `create_genome`
unfoldable pub check_base : String → Option String → PersonaCall (Unit {0})
check_base companion_id none = pure tt
check_base companion_id (some base_genome_id) = do
  found ← gets (λ db. find (is_genome base_genome_id) db.persona_genomes)
  base ← or_raise found bad_value
  raise_if (base.companion_id != companion_id) bad_value

abbrev pub set_current : ℕ → String → CompanionRow → CompanionRow
set_current now genome_id c = record c { current_genome_id = some genome_id; updated_at = now }

unfoldable pub point_if_committed :
    Env → CompanionRow → String → GenomeStatus → PersonaCall (Unit {0})
point_if_committed env companion genome_id status =
    if is_committed status
    then write_companion (set_current env.now genome_id companion)
    else pure tt

abbrev pub status_text : GenomeStatus → String
status_text proposed = "proposed"
status_text GenomeStatus.committed = "committed"
status_text rejected = "rejected"
status_text stale = "stale"

abbrev pub created_type : GenomeStatus → String
created_type status =
    if is_committed status then "persona.genome.committed" else "persona.evolution.proposed"

abbrev pub genome_payload : PersonaGenomeRow → JsonDict → JsonDict
genome_payload row rest =
    ("companion_id", str row.companion_id)
    ∷ ("genome_id", str row.genome_id)
    ∷ ("genome_hash", str row.genome_hash)
    ∷ ("schema_version", str row.schema_version)
    ∷ ("realizer_version", str row.realizer_version)
    ∷ rest

abbrev pub denied_payload : String → String → Option String → JsonDict
denied_payload companion_id genome_id expected_base =
    ("companion_id", str companion_id)
    ∷ ("genome_id", str genome_id)
    ∷ ("expected_base_genome_id", str_or_null expected_base)
    ∷ ("reason", str "current genome changed before activation")
    ∷ []

-- The keyword arguments of `create_genome`.
pub record CreateGenome : Type 0 where
  pub genome_id : String
  pub companion_id : String
  pub owner_id : String
  pub event_id : String
  pub version : ℕ
  pub genome_json : Option JsonDict
  pub source_json : Option JsonDict
  pub status : GenomeStatus
  pub base_genome_id : Option String
  pub change_summary : String

abbrev pub set_stale : ℕ → PersonaGenomeRow → PersonaGenomeRow
set_stale now row = record row { status = stale; updated_at = now }

abbrev pub set_rejected : ℕ → String → PersonaGenomeRow → PersonaGenomeRow
set_rejected now reason row = record row {
  status = rejected;
  change_summary = strip (row.change_summary ⧺ "\n\n" ⧺ reason);
  updated_at = now;
}

abbrev pub set_committed : ℕ → String → PersonaGenomeRow → PersonaGenomeRow
set_committed now event_id row = record row {
  status = GenomeStatus.committed;
  applied_event_id = some event_id;
  updated_at = now;
}

abbrev pub approved_companion : ℕ → String → CompanionRow → CompanionRow
approved_companion now genome_id c = record c {
  current_genome_id = some genome_id;
  revision = c.revision + 1;
  updated_at = now;
}

-- How `approve_evolution` ends after its commit: it returns the genome, or it raises.
pub data Approval : Type 0 where
  approved : PersonaGenomeRow → Approval
  conflicted : PersonaError → Approval

-- the test that finds a stale proposal
abbrev pub is_outdated : CompanionRow → PersonaGenomeRow → Option String → Bool
is_outdated companion genome expected =
    companion.current_genome_id != genome.base_genome_id
    || elim expected [ none ↦ false | some base ↦ not (some base == genome.base_genome_id) ]

-- the branch of a stale proposal: the commit stands, and the conflict is raised after it
unfoldable pub make_stale :
    Env → String → CompanionRow → PersonaGenomeRow → Option String → PersonaCall Approval
unfolding add_event
make_stale env owner_id companion genome expected = do
  write_genome genome.genome_id (set_stale env.now)
  add_event env 0 owner_id companion.companion_id genome.genome_id "persona.evolution.rejected"
      denied (denied_payload companion.companion_id genome.genome_id expected) none
  pure (conflicted (conflict current_changed (some genome.genome_id)))

-- `source_json.get("proposal_id")`, as JSON
abbrev pub proposal_id_json : PersonaGenomeRow → Json
proposal_id_json genome = elim (dict_get "proposal_id" genome.source_json) [
  | none ↦ null
  | some json ↦ json
]

abbrev pub approved_payload : PersonaGenomeRow → JsonDict
approved_payload genome =
    ("companion_id", str genome.companion_id)
    ∷ ("genome_id", str genome.genome_id)
    ∷ ("base_genome_id", str_or_null genome.base_genome_id)
    ∷ ("proposal_id", proposal_id_json genome)
    ∷ []

unfoldable pub load_proposed : String → String → PersonaCall PersonaGenomeRow
load_proposed companion_id genome_id = do
  found ← gets (λ db. find (is_genome genome_id) db.persona_genomes)
  genome ← or_raise found not_found
  raise_if (genome.companion_id != companion_id) not_found
  raise_if (not (is_proposed genome.status)) (conflict state_not_eligible none)
  pure genome
