-- ===== src/Personas/Evolution/Proposals.antt =====
-- The commands on proposals, and `get_current_genome` and `record_observation`.
use eidolon_data.Prelude.{
  ◌+◌, String, Bool, false, not, Option, none, some, List, [], ◌∷◌, if◌then◌else◌, ◌!=◌, is_none,
  Json, num, str, arr, obj, nil, JsonDict, dict_get, to_fields, str_or_null, find, select_where,
  order_by, pure, gets, or_raise, raise_if, ◌>>=◌, ◌>>◌, ◌⧺◌, or_text, or_value, is_empty, nat_eq,
  string_eq, option_eq,
}
use eidolon_data.Schema.{
  Db, Env, success, CompanionRow, proposed, PersonaGenomeRow, is_committed, is_proposed, denied,
}
use eidolon_data.Audit.Row.{details, governance_fact}
use eidolon_data.Audit.Facts.{add_fact}
use eidolon_data.Personas.Sdk.{PersonaProposal, PersonaSdk}
use eidolon_data.Personas.Genomes.{
  base_not_current, state_not_eligible, conflict, not_found, bad_value, validation_error,
  attribute_error, integrity_error, PersonaCall, has_companion_id, is_genome, is_genome_of,
  owned_companion, add_genome, write_companion, write_genome, max_version, normalized, genome_row,
}
use eidolon_data.Personas.Evolution.Rows.{
  add_event, check_base, point_if_committed, status_text, created_type, genome_payload,
  CreateGenome, set_rejected, set_committed, approved_companion, Approval, approved, is_outdated,
  make_stale, approved_payload, load_proposed,
}

abbrev or_else : Option Json → Json → Json
or_else none default = default
or_else (some json) default = json

module _ (sdk : PersonaSdk) where
  open sdk use {
    Genome, normalize, to_json, read_proposal_id, read_evidence, validate_evolution, dump_proposal,
  }

  unfoldable pub create_genome : Env → CreateGenome → PersonaCall PersonaGenomeRow
  unfolding add_event
  create_genome env a = do
    companion ← owned_companion a.owner_id a.companion_id
    check_base a.companion_id a.base_genome_id
    row ← genome_row sdk env (record {
      genome_id = a.genome_id;
      companion_id = a.companion_id;
      owner_id = a.owner_id;
      version = a.version;
      status = a.status;
      base_genome_id = a.base_genome_id;
      source_json = or_value a.source_json [];
      genome_json = a.genome_json;
      applied_event_id = if is_committed a.status then some a.event_id else none;
      change_summary = a.change_summary;
    })
    add_genome row
    point_if_committed env companion a.genome_id a.status
    add_event env 0 a.owner_id a.companion_id a.genome_id (created_type a.status) success
        (genome_payload row (
          ("version", num a.version)
          ∷ ("status", str (status_text a.status))
          ∷ ("source", obj (to_fields (or_value a.source_json [])))
          ∷ []))
        (some a.event_id)
    pure row

  abbrev proposal_source : PersonaProposal Genome → JsonDict
  proposal_source proposal =
      ("source_type", str "memory_reflection")
      ∷ ("proposal_id", str proposal.proposal_id)
      ∷ ("base_genome_id", str proposal.base_genome_id)
      ∷ ("base_genome_hash", str proposal.base_genome_hash)
      ∷ ("evidence_refs", arr proposal.evidence_refs)
      ∷ []

  unfoldable pub check_evolution :
      PersonaGenomeRow → PersonaProposal Genome → PersonaCall (Unit {0})
  unfolding normalized
  check_evolution base proposal = do
    genome ← normalized sdk base.genome_json
    raise_if (not (validate_evolution genome proposal)) bad_value

  unfoldable pub create_evolution_proposal :
      Env → PersonaProposal Genome → PersonaCall PersonaGenomeRow
  unfolding check_evolution add_event
  create_evolution_proposal env proposal = do
    companion ← owned_companion proposal.owner_id proposal.companion_id
    raise_if (companion.current_genome_id != some proposal.base_genome_id)
        (conflict base_not_current (some proposal.base_genome_id))
    found ← gets (λ db. find (is_genome proposal.base_genome_id) db.persona_genomes)
    base ← or_raise found (conflict base_not_current (some proposal.base_genome_id))
    check_evolution base proposal
    highest ← gets (λ db. max_version proposal.companion_id db.persona_genomes)
    row ← genome_row sdk env (record {
      genome_id = proposal.proposed_genome_id;
      companion_id = proposal.companion_id;
      owner_id = proposal.owner_id;
      version = highest + 1;
      status = proposed;
      base_genome_id = some proposal.base_genome_id;
      source_json = proposal_source proposal;
      genome_json = some (to_json proposal.proposed_genome);
      applied_event_id = none;
      change_summary = proposal.rationale;
    })
    add_genome row
    add_event env 0 proposal.owner_id proposal.companion_id row.genome_id
        "persona.evolution.proposed" success (dump_proposal proposal) none
    pure row

  -- the proposal that `approve_evolution` builds again from the stored genome, and validates
  unfoldable pub revalidate : String → PersonaGenomeRow → PersonaGenomeRow → PersonaCall (Unit {0})
  unfolding check_evolution normalized
  revalidate owner_id genome base = do
    candidate ← normalized sdk genome.genome_json
    proposal_id ←
        or_raise
          (read_proposal_id
            (or_else (dict_get "proposal_id" genome.source_json) (str genome.genome_id)))
          validation_error
    evidence_refs ←
        or_raise (read_evidence (or_else (dict_get "evidence_refs" genome.source_json) (arr nil)))
          validation_error
    check_evolution base (record {
      proposal_id = proposal_id;
      owner_id = owner_id;
      companion_id = genome.companion_id;
      base_genome_id = base.genome_id;
      base_genome_hash = base.genome_hash;
      proposed_genome_id = genome.genome_id;
      proposed_genome = candidate;
      rationale = genome.change_summary;
      evidence_refs = evidence_refs;
    })

  -- the branch that activates a proposal
  unfoldable pub activate_proposal :
      Env → String → CompanionRow → PersonaGenomeRow → Option String → PersonaCall Approval
  unfolding revalidate add_event
  activate_proposal env owner_id companion genome expected = do
    raise_if (is_none genome.base_genome_id) attribute_error
    found ← gets (λ db. find (is_genome (or_text genome.base_genome_id "")) db.persona_genomes)
    base ← or_raise found attribute_error
    revalidate owner_id genome base
    add_event env 0 owner_id companion.companion_id genome.genome_id "persona.evolution.approved"
        success (approved_payload genome) none
    write_genome genome.genome_id (set_committed env.now ("audit-" ⧺ env.uuid 1))
    write_companion (approved_companion env.now genome.genome_id companion)
    add_event env 1 owner_id companion.companion_id genome.genome_id "persona.genome.committed"
        success (genome_payload genome (("expected_base_genome_id", str_or_null expected) ∷ []))
        none
    pure (approved (set_committed env.now ("audit-" ⧺ env.uuid 1) genome))

  unfoldable pub approve_evolution :
      Env → String → String → String → Option String → PersonaCall Approval
  unfolding make_stale activate_proposal
  approve_evolution env companion_id owner_id proposed_genome_id expected = do
    companion ← owned_companion owner_id companion_id
    genome ← load_proposed companion_id proposed_genome_id
    if is_outdated companion genome expected
        then make_stale env owner_id companion genome expected
        else activate_proposal env owner_id companion genome expected

unfoldable pub get_current_genome : String → Db → Option PersonaGenomeRow
get_current_genome companion_id db = elim (find (has_companion_id companion_id) db.companions) [
  | none ↦ none
  | some companion ↦
      if is_empty (or_text companion.current_genome_id "")
      then none
      else find (is_genome (or_text companion.current_genome_id "")) db.persona_genomes
]

-- `PersonaObservationEvent`, with its `model_dump`
pub record PersonaObservation : Type 0 where
  pub observation_id : String
  pub owner_id : String
  pub companion_id : String
  pub dumped : JsonDict

unfoldable pub record_observation : Env → PersonaObservation → PersonaCall (Unit {0})
record_observation env observation = do
  companion ← owned_companion observation.owner_id observation.companion_id
  add_fact integrity_error (
      governance_fact env 0 observation.owner_id "persona_observation" observation.observation_id
        "persona.observation.created"
        (record details {
          event_id = some observation.observation_id;
          payload = some observation.dumped;
        }))

-- the two tests of `companion_id` in `reject_evolution`
abbrev pub is_elsewhere : Option String → PersonaGenomeRow → Bool
is_elsewhere none genome = false
is_elsewhere (some companion_id) genome = genome.companion_id != companion_id

unfoldable pub reject_evolution :
    Env → String → String → Option String → String → PersonaCall PersonaGenomeRow
unfolding add_event
reject_evolution env owner_id genome_id companion_id reason = do
  found ← gets (λ db. find (is_genome genome_id) db.persona_genomes)
  genome ← or_raise found not_found
  raise_if (is_elsewhere companion_id genome) not_found
  companion ← owned_companion owner_id genome.companion_id
  raise_if (not (is_proposed genome.status)) (conflict state_not_eligible none)
  write_genome genome.genome_id (set_rejected env.now reason)
  add_event env 0 owner_id genome.companion_id genome.genome_id "persona.evolution.rejected" denied
      (("companion_id", str genome.companion_id)
        ∷ ("genome_id", str genome.genome_id)
        ∷ ("genome_hash", str genome.genome_hash)
        ∷ ("reason", str reason)
        ∷ [])
      none
  pure (set_rejected env.now reason genome)

-- `PersonaRepository.list_for_companion`
unfoldable pub list_for_companion : String → Db → List PersonaGenomeRow
list_for_companion companion_id db =
    order_by (λ r. r.version) (select_where (is_genome_of companion_id) db.persona_genomes)
