-- ===== src/Personas/Decisions.antt =====
-- What `create_genome`, `create_evolution_proposal` and the decisions on a proposal have done when
-- they return.
use eidolon_data.Prelude.{
  String, ◌≡◌, inl, inr, true, Option, some, arith, ==→≡, Bool-cases, Option-cases, find, ok, ◌⧺◌,
  string_eq,
}
use eidolon_data.Schema.{Db, Env, CompanionRow, PersonaGenomeRow, is_committed, is_proposed}
use eidolon_data.Audit.Row.{governance_fact}
use eidolon_data.Audit.Facts.{add_fact}
use eidolon_data.Personas.Sdk.{PersonaProposal, PersonaSdk}
use eidolon_data.Personas.Genomes.{
  has_companion_id, is_genome, owned_companion, add_genome, write_companion, write_genome, event,
  normalized, genome_of_arguments, owned_payload, genome_row,
}
use eidolon_data.Personas.Evolution.{
  add_event, check_base, set_current, point_if_committed, CreateGenome, approved_companion,
  Approval, is_outdated, make_stale, load_proposed, create_genome, check_evolution,
  create_evolution_proposal, revalidate, activate_proposal, approve_evolution, PersonaObservation,
  record_observation, reject_evolution,
}
use eidolon_data.Personas.Changes.{
  PersonaChange, same, appended, drafted, activated, made_stale, made_rejected,
  KeepsReceipts-of_metadata,
}
use eidolon_data.Personas.Commands.{loaded_self, loaded_genome}

module _ (sdk : PersonaSdk) (env : Env) (db db' : Db) where
  pub create_evolution_proposal_change :
      (proposal : PersonaProposal sdk.Genome) (row : PersonaGenomeRow)
      → create_evolution_proposal sdk env proposal db ≡ ok (row, db')
      → PersonaChange db db'
  unfolding create_evolution_proposal owned_companion check_evolution add_event add_genome add_fact
      genome_row genome_of_arguments normalized owned_payload event governance_fact
  create_evolution_proposal_change proposal row ran =
      drafted proposal.companion_id row (record { free = ground arith; companion = ground arith })
        (ground arith) (ground arith) (ground arith)

  pub record_observation_change :
      (observation : PersonaObservation) (u : Unit {0})
      → record_observation env observation db ≡ ok (u, db')
      → PersonaChange db db'
  unfolding record_observation owned_companion add_fact governance_fact
  record_observation_change observation u ran = same (ground arith) (ground arith)

  pub reject_evolution_change :
      (owner genome_id : String) (companion_id : Option String) (reason : String)
      (row : PersonaGenomeRow)
      → reject_evolution env owner genome_id companion_id reason db ≡ ok (row, db')
      → PersonaChange db db'
  unfolding reject_evolution owned_companion add_event write_genome add_fact event governance_fact
  reject_evolution_change owner genome_id companion_id reason row ran =
      elim (Option-cases (find (is_genome genome_id) db.persona_genomes)) [
        | inl missing ↦ absurd (ground arith)
        | inr (genome, found) ↦
            made_rejected env.now reason genome
              (loaded_genome genome_id db.persona_genomes genome found) (ground arith)
              (ground arith) (ground arith)
      ]

  create_genome_loaded :
      (a : CreateGenome) (row : PersonaGenomeRow) (companion : CompanionRow)
      → find (has_companion_id a.companion_id) db.companions ≡ some companion
      → create_genome sdk env a db ≡ ok (row, db')
      → PersonaChange db db'
  unfolding create_genome owned_companion check_base point_if_committed write_companion add_event
      add_genome add_fact genome_row genome_of_arguments normalized owned_payload event
      governance_fact
  create_genome_loaded a row companion found ran = elim (Bool-cases (is_committed a.status)) [
    | inl settled ↦
        appended a.companion_id companion (set_current env.now a.genome_id companion) row
          (record {
            loaded = found;
            id = ground arith;
            receipts =
                KeepsReceipts-of_metadata companion (set_current env.now a.genome_id companion)
                  (ground arith);
          })
          (record { free = ground arith; companion = ground arith }) (ground arith) (ground arith)
          (ground arith, ground arith)
    | inr other ↦
        drafted a.companion_id row (record { free = ground arith; companion = ground arith })
          (ground arith) (ground arith) (ground arith)
  ]

  pub create_genome_change :
      (a : CreateGenome) (row : PersonaGenomeRow)
      → create_genome sdk env a db ≡ ok (row, db')
      → PersonaChange db db'
  unfolding create_genome owned_companion
  create_genome_change a row ran =
      elim (Option-cases (find (has_companion_id a.companion_id) db.companions)) [
        | inl missing ↦ absurd (ground arith)
        | inr (companion, found) ↦ create_genome_loaded a row companion found ran
      ]

  make_stale_change :
      (owner : String) (companion : CompanionRow) (genome : PersonaGenomeRow)
      (expected : Option String) (answer : Approval)
      → find (is_genome genome.genome_id) db.persona_genomes ≡ some genome
      → is_proposed genome.status ≡ true
      → make_stale env owner companion genome expected db ≡ ok (answer, db')
      → PersonaChange db db'
  unfolding make_stale write_genome add_event add_fact event governance_fact
  make_stale_change owner companion genome expected answer found still ran =
      made_stale env.now genome found still (ground arith) (ground arith)

  activate_proposal_change :
      (owner i : String) (companion : CompanionRow) (genome : PersonaGenomeRow)
      (expected : Option String) (answer : Approval)
      → find (has_companion_id companion.companion_id) db.companions ≡ some companion
      → find (is_genome genome.genome_id) db.persona_genomes ≡ some genome
      → genome.companion_id ≡ companion.companion_id
      → is_proposed genome.status ≡ true
      → activate_proposal sdk env owner companion genome expected db ≡ ok (answer, db')
      → PersonaChange db db'
  unfolding activate_proposal revalidate check_evolution normalized write_genome write_companion
      add_event add_fact event governance_fact
  activate_proposal_change owner i companion genome expected answer loaded found owned still ran =
      activated companion.companion_id ("audit-" ⧺ env.uuid 1) env.now companion
        (approved_companion env.now genome.genome_id companion) genome
        (record {
          loaded = loaded;
          id = ground arith;
          receipts =
              KeepsReceipts-of_metadata companion
                (approved_companion env.now genome.genome_id companion) (ground arith);
        })
        found owned still (ground arith) (ground arith, ground arith)

  approve_evolution_loaded :
      (i owner genome_id : String) (expected : Option String) (answer : Approval)
      (companion : CompanionRow) (genome : PersonaGenomeRow)
      → find (has_companion_id i) db.companions ≡ some companion
      → find (is_genome genome_id) db.persona_genomes ≡ some genome
      → approve_evolution sdk env i owner genome_id expected db ≡ ok (answer, db')
      → PersonaChange db db'
  unfolding approve_evolution owned_companion load_proposed
  approve_evolution_loaded i owner genome_id expected answer companion genome e e' ran =
      let (self, loaded) = loaded_self i db.companions companion e in
      let found = loaded_genome genome_id db.persona_genomes genome e' in
      elim (Bool-cases (is_outdated companion genome expected)) [
        | inl late ↦
            make_stale_change owner companion genome expected answer found (ground arith)
              (ground arith)
        | inr fresh ↦
            activate_proposal_change owner i companion genome expected answer loaded found
              (ground (arith, ==→≡ genome.companion_id i)) (ground arith) (ground arith)
      ]

  pub approve_evolution_change :
      (i owner genome_id : String) (expected : Option String) (answer : Approval)
      → approve_evolution sdk env i owner genome_id expected db ≡ ok (answer, db')
      → PersonaChange db db'
  unfolding approve_evolution owned_companion load_proposed
  approve_evolution_change i owner genome_id expected answer ran =
      elim (Option-cases (find (has_companion_id i) db.companions)) [
        | inl missing ↦ absurd (ground arith)
        | inr (companion, e) ↦ elim (Option-cases (find (is_genome genome_id) db.persona_genomes)) [
          | inl missing ↦ absurd (ground arith)
          | inr (genome, e') ↦
              approve_evolution_loaded i owner genome_id expected answer companion genome e e' ran
        ]
      ]
