-- ===== src/Personas/Approvals.antt =====
-- What `approve_evolution` decides.
use eidolon_data.Prelude.{
  String, subst, ◌≡◌, refl, sym, ap, ◌∙◌, ◌⊎◌, inl, inr, true, false, Option, none, some, arith,
  if◌then◌else◌, ◌==◌, ==-refl, ==→≡, Bool-cases, find, update_where, find-update_where, ok, ◌⧺◌,
  string_eq, option_eq, nat_eq,
}
use eidolon_data.Schema.{Db, Env, CompanionRow, PersonaGenomeRow, is_proposed}
use eidolon_data.Audit.Row.{governance_fact}
use eidolon_data.Audit.Facts.{add_fact}
use eidolon_data.Personas.Sdk.{PersonaSdk}
use eidolon_data.Personas.Genomes.{
  current_changed, conflict, has_companion_id, is_genome, owned_companion, copy_persona,
  write_companion, write_genome, event, normalized,
}
use eidolon_data.Personas.Evolution.{
  add_event, set_stale, set_committed, approved_companion, Approval, approved, conflicted,
  is_outdated, make_stale, load_proposed, check_evolution, revalidate, activate_proposal,
  approve_evolution,
}
use eidolon_data.Personas.Commands.{loaded_self, loaded_genome}

-- What an approval of the proposal `row` of the Companion `c` has done, by its answer.
pub data Decision (env : Env) (expected : Option String) (c : CompanionRow) (row : PersonaGenomeRow)
    (db db' : Db) : Approval → Type 0 where
  activation :
      c.current_genome_id ≡ row.base_genome_id
      → ((expected ≡ none) ⊎ (expected ≡ c.current_genome_id))
      → find (is_genome row.genome_id) db'.persona_genomes
        ≡ some (set_committed env.now ("audit-" ⧺ env.uuid 1) row)
      → find (has_companion_id c.companion_id) db'.companions
        ≡ some (approved_companion env.now row.genome_id c)
      → Decision env expected c row db db'
          (approved (set_committed env.now ("audit-" ⧺ env.uuid 1) row))
  refusal :
      is_outdated c row expected ≡ true
      → find (is_genome row.genome_id) db'.persona_genomes ≡ some (set_stale env.now row)
      → db'.companions ≡ db.companions
      → Decision env expected c row db db'
          (conflicted (conflict current_changed (some row.genome_id)))

not_outdated :
    (c : CompanionRow) (row : PersonaGenomeRow) (expected : Option String)
    → is_outdated c row expected ≡ false
    → (c.current_genome_id ≡ row.base_genome_id)
      × ((expected ≡ none) ⊎ (expected ≡ c.current_genome_id))
not_outdated c row none h = (==→≡ c.current_genome_id row.base_genome_id (ground arith), inl refl)
not_outdated c row (some e) h =
    let current = ==→≡ c.current_genome_id row.base_genome_id (ground arith) in
    (current, inr (==→≡ (some e) row.base_genome_id (ground arith) ∙ sym current))

module _ (sdk : PersonaSdk) (env : Env) (owner : String) (expected : Option String) (db db' : Db)
    (c : CompanionRow) (row : PersonaGenomeRow)
    (found : find (has_companion_id c.companion_id) db.companions ≡ some c)
    (stored : find (is_genome row.genome_id) db.persona_genomes ≡ some row) where
  -- the rows that the two branches leave
  written_genome :
      (f : PersonaGenomeRow → PersonaGenomeRow)
      → ((r : PersonaGenomeRow) → (f r).genome_id ≡ r.genome_id)
      → db'.persona_genomes ≡ update_where (is_genome row.genome_id) f db.persona_genomes
      → find (is_genome row.genome_id) db'.persona_genomes ≡ some (f row)
  written_genome f f_id table =
      ap (λ rows. find (is_genome row.genome_id) rows) table
      ∙ find-update_where (is_genome row.genome_id) (is_genome row.genome_id) f db.persona_genomes
          row (λ r. ap (λ k. k == row.genome_id) (f_id r)) stored
      ∙ ap (λ b. some (if b then f row else row)) (==-refl row.genome_id)

  moved_companion :
      (c' : CompanionRow)
      → c'.companion_id ≡ c.companion_id
      → db'.companions
        ≡ update_where (has_companion_id c.companion_id) (copy_persona c') db.companions
      → find (has_companion_id c.companion_id) db'.companions ≡ some (copy_persona c' c)
  moved_companion c' id kept =
      ap (λ rows. find (has_companion_id c.companion_id) rows) kept
      ∙ find-update_where (has_companion_id c.companion_id) (has_companion_id c.companion_id)
          (copy_persona c') db.companions c (λ r. refl) found
      ∙ ap (λ b. some (if b then copy_persona c' c else c)) (==-refl c.companion_id)

  make_stale-Decision :
      (answer : Approval)
      → is_outdated c row expected ≡ true
      → make_stale env owner c row expected db ≡ ok (answer, db')
      → Decision env expected c row db db' answer
  unfolding make_stale write_genome add_event add_fact event governance_fact
  make_stale-Decision answer late ran =
      let is_answer : conflicted (conflict current_changed (some row.genome_id)) ≡ answer =
        ground arith in
      subst (Decision env expected c row db db') is_answer (
        refusal late (written_genome (set_stale env.now) (λ r. refl) (ground arith)) (ground arith))

  activate_proposal-Decision :
      (answer : Approval)
      → is_outdated c row expected ≡ false
      → activate_proposal sdk env owner c row expected db ≡ ok (answer, db')
      → Decision env expected c row db db' answer
  unfolding activate_proposal revalidate check_evolution normalized write_genome write_companion
      add_event add_fact event governance_fact
  activate_proposal-Decision answer fresh ran =
      let (current, as_expected) = not_outdated c row expected fresh in
      let is_answer : approved (set_committed env.now ("audit-" ⧺ env.uuid 1) row) ≡ answer =
        ground arith in
      subst (Decision env expected c row db db') is_answer (
        activation current as_expected
          (written_genome (set_committed env.now ("audit-" ⧺ env.uuid 1)) (λ r. refl)
            (ground arith))
          (moved_companion (approved_companion env.now row.genome_id c) refl (ground arith)))

-- What an approval that returns has decided of a stored genome, which was a proposal of the Companion.
-- It is activated when its base is the current genome and, where the caller expects a base, that
-- one: then it is committed and current, and the Companion has one revision more. Else it is stale,
-- no Companion has changed, and the answer is the conflict.
pub approve_evolution_lem :
    (sdk : PersonaSdk) (env : Env) (i owner g : String) (expected : Option String) (db db' : Db)
    (c : CompanionRow) (row : PersonaGenomeRow) (answer : Approval)
    → find (has_companion_id i) db.companions ≡ some c
    → find (is_genome g) db.persona_genomes ≡ some row
    → approve_evolution sdk env i owner g expected db ≡ ok (answer, db')
    → (is_proposed row.status ≡ true)
      × (row.companion_id ≡ c.companion_id)
      × (c.owner_id ≡ owner)
      × Decision env expected c row db db' answer
unfolding approve_evolution owned_companion load_proposed
approve_evolution_lem sdk env i owner g expected db db' c row answer found stored ran =
    let (is_i, loaded) = loaded_self i db.companions c found in
    let kept = loaded_genome g db.persona_genomes row stored in
    (
      ground arith,
      ==→≡ row.companion_id i (ground arith) ∙ sym is_i,
      ==→≡ c.owner_id owner (ground arith),
      elim (Bool-cases (is_outdated c row expected)) [
        | inl late ↦
            make_stale-Decision sdk env owner expected db db' c row loaded kept answer late
              (ground arith)
        | inr fresh ↦
            activate_proposal-Decision sdk env owner expected db db' c row loaded kept answer fresh
              (ground arith)
      ],
    )
