-- ===== src/Personas/Decided.antt =====
-- What becomes of a stored genome.
use eidolon_data.Personas.Evolution.{
  set_stale, set_rejected, set_committed, load_proposed, approve_evolution, reject_evolution,
}
use eidolon_data.Personas.Calls.{PersonaAction, perform_all, always_keeps}
use eidolon_data.Personas.Sdk.{PersonaSdk}
use eidolon_data.Personas.Changes.{
  PersonaChange, same, written, appended, drafted, activated, made_stale, made_rejected,
}
use eidolon_data.Prelude.{
  String, ◌≡◌, refl, sym, ap, ◌∙◌, ◌⊎◌, inl, inr, true, false, Option, none, some, List, [], ◌∷◌,
  ◌++◌, arith, if◌then◌else◌, ◌==◌, ==→≡, Bool-cases, find, update_where, find-update_where,
  find-append, find_sound, err, string_eq, option_eq, nat_eq,
}
use eidolon_data.Schema.{Db, Env, PersonaGenomeRow, is_proposed}
use eidolon_data.Personas.Genomes.{
  state_not_eligible, conflict, not_found, is_genome, owned_companion,
}

-- A later state of a stored genome: what it says stays, and once it is decided all of it does.
pub record Evolves (row row' : PersonaGenomeRow) : Type 0 where
  pub genome_id : row'.genome_id ≡ row.genome_id
  pub companion_id : row'.companion_id ≡ row.companion_id
  pub version : row'.version ≡ row.version
  pub base : row'.base_genome_id ≡ row.base_genome_id
  pub hash : row'.genome_hash ≡ row.genome_hash
  pub content : row'.genome_json ≡ row.genome_json
  pub source : row'.source_json ≡ row.source_json
  pub decided : is_proposed row.status ≡ false → row' ≡ row

abbrev pub EvolvesIn : String → PersonaGenomeRow → Db → Type 0
EvolvesIn g row db =
    (row' : PersonaGenomeRow) × (find (is_genome g) db.persona_genomes ≡ some row')
    × Evolves row row'

Evolves-of_same : (row row' : PersonaGenomeRow) → row' ≡ row → Evolves row row'
Evolves-of_same row row' e = record {
  genome_id = ap (λ r. r.genome_id) e;
  companion_id = ap (λ r. r.companion_id) e;
  version = ap (λ r. r.version) e;
  base = ap (λ r. r.base_genome_id) e;
  hash = ap (λ r. r.genome_hash) e;
  content = ap (λ r. r.genome_json) e;
  source = ap (λ r. r.source_json) e;
  decided = λ d. e;
}

Evolves-trans : (r s t : PersonaGenomeRow) → Evolves r s → Evolves s t → Evolves r t
Evolves-trans r s t a b = record {
  genome_id = b.genome_id ∙ a.genome_id;
  companion_id = b.companion_id ∙ a.companion_id;
  version = b.version ∙ a.version;
  base = b.base ∙ a.base;
  hash = b.hash ∙ a.hash;
  content = b.content ∙ a.content;
  source = b.source ∙ a.source;
  decided = λ d.
      let same_row = a.decided d in
      b.decided (ap (λ r. is_proposed r.status) same_row ∙ d) ∙ same_row;
}

-- The two rows of one id are one row.
pub one_genome :
    (g k : String) (rows : List PersonaGenomeRow) (row target : PersonaGenomeRow)
    → find (is_genome g) rows ≡ some row
    → find (is_genome k) rows ≡ some target
    → row.genome_id ≡ k
    → row ≡ target
one_genome g k rows row target e e' is_k =
    let is_g = ==→≡ row.genome_id g (find_sound (is_genome g) rows row e) in
    let again : find (is_genome k) rows ≡ some row =
      ap (λ j. find (is_genome j) rows) (sym is_k ∙ is_g) ∙ e in
    ground arith

-- A decision changes the row of a proposal alone, and only its status, summary, event and time.
module _ (f : PersonaGenomeRow → PersonaGenomeRow) (db db' : Db) (target : PersonaGenomeRow)
    (found : find (is_genome target.genome_id) db.persona_genomes ≡ some target)
    (was : is_proposed target.status ≡ true)
    (decides : (r : PersonaGenomeRow) → is_proposed r.status ≡ true → Evolves r (f r))
    (f_id : (r : PersonaGenomeRow) → (f r).genome_id ≡ r.genome_id)
    (table : db'.persona_genomes
      ≡ update_where (is_genome target.genome_id) f db.persona_genomes) where
  Evolves_of_decision :
      (g : String) (row : PersonaGenomeRow)
      → find (is_genome g) db.persona_genomes ≡ some row
      → EvolvesIn g row db'
  Evolves_of_decision g row e =
      let later =
        ap (λ rows. find (is_genome g) rows) table
        ∙ find-update_where (is_genome g) (is_genome target.genome_id) f db.persona_genomes row
            (λ r. ap (λ k. k == g) (f_id r)) e in
      elim (Bool-cases (is_genome target.genome_id row)) [
        | inl hit ↦
            let is_target =
              one_genome g target.genome_id db.persona_genomes row target e found
                (==→≡ row.genome_id target.genome_id hit) in
            (
              f row,
              later ∙ ap (λ b. some (if b then f row else row)) hit,
              decides row (ap (λ r. is_proposed r.status) is_target ∙ was),
            )
        | inr miss ↦ (
          row,
          later ∙ ap (λ b. some (if b then f row else row)) miss,
          Evolves-of_same row row refl,
        )
      ]

module _ (f : PersonaGenomeRow → PersonaGenomeRow) (r : PersonaGenomeRow) where
  -- the fields that each decision leaves
  abbrev KeepsContent : Type 0
  KeepsContent =
      ((f r).genome_id ≡ r.genome_id)
      × ((f r).companion_id ≡ r.companion_id)
      × ((f r).version ≡ r.version)
      × ((f r).base_genome_id ≡ r.base_genome_id)
      × ((f r).genome_hash ≡ r.genome_hash)
      × ((f r).genome_json ≡ r.genome_json)
      × ((f r).source_json ≡ r.source_json)

  Evolves-of_content : KeepsContent → is_proposed r.status ≡ true → Evolves r (f r)
  Evolves-of_content (a, b, c, d, e, h, k) was = record {
    genome_id = a;
    companion_id = b;
    version = c;
    base = d;
    hash = e;
    content = h;
    source = k;
    decided = λ settled. absurd (ground arith);
  }

module _ (g : String) (row : PersonaGenomeRow) (db db' : Db) where
  EvolvesIn-of_same : find (is_genome g) db'.persona_genomes ≡ some row → EvolvesIn g row db'
  EvolvesIn-of_same e = (row, e, Evolves-of_same row row refl)

  EvolvesIn-of_append :
      (new : PersonaGenomeRow)
      → find (is_genome g) db.persona_genomes ≡ some row
      → db'.persona_genomes ≡ db.persona_genomes ++ new ∷ []
      → EvolvesIn g row db'
  EvolvesIn-of_append new e table = EvolvesIn-of_same (
      ap (λ rows. find (is_genome g) rows) table
      ∙ find-append (is_genome g) db.persona_genomes (new ∷ []) row e)

  pub change-Evolves :
      PersonaChange db db' → find (is_genome g) db.persona_genomes ≡ some row → EvolvesIn g row db'
  change-Evolves (same companions table) e =
      EvolvesIn-of_same (ap (λ rows. find (is_genome g) rows) table ∙ e)
  change-Evolves (written i c c' w pointer (kept, table)) e =
      EvolvesIn-of_same (ap (λ rows. find (is_genome g) rows) table ∙ e)
  change-Evolves (appended i c c' new w added settled pointer (kept, table)) e =
      EvolvesIn-of_append new e table
  change-Evolves (drafted i new added open_row companions table) e = EvolvesIn-of_append new e table
  change-Evolves (activated i event_id now c c' target w found owned was pointer (kept, table)) e =
      Evolves_of_decision (set_committed now event_id) db db' target found was
        (λ r.
          Evolves-of_content (set_committed now event_id) r
            (refl, refl, refl, refl, refl, refl, refl))
        (λ r. refl) table g row e
  change-Evolves (made_stale now target found was companions table) e =
      Evolves_of_decision (set_stale now) db db' target found was
        (λ r. Evolves-of_content (set_stale now) r (refl, refl, refl, refl, refl, refl, refl))
        (λ r. refl) table g row e
  change-Evolves (made_rejected now reason target found was companions table) e =
      Evolves_of_decision (set_rejected now reason) db db' target found was
        (λ r.
          Evolves-of_content (set_rejected now reason) r (refl, refl, refl, refl, refl, refl, refl))
        (λ r. refl) table g row e

pub EvolvesIn-step :
    (g : String) (row : PersonaGenomeRow) (db db' : Db)
    → PersonaChange db db'
    → EvolvesIn g row db
    → EvolvesIn g row db'
EvolvesIn-step g row db db' change (row', e, evolved) =
    let (row'', e', evolved') = change-Evolves g row' db db' change e in
    (row'', e', Evolves-trans row row' row'' evolved evolved')

-- After any calls a stored genome is there still, with its Companion, version, base and content;
-- once it is committed, rejected or stale, its whole row stays as it is.
pub perform_all-EvolvesIn :
    (sdk : PersonaSdk) (actions : List (Env × PersonaAction sdk)) (db : Db) (g : String)
    (row : PersonaGenomeRow)
    → find (is_genome g) db.persona_genomes ≡ some row
    → EvolvesIn g row (perform_all sdk actions db)
perform_all-EvolvesIn sdk actions db g row e =
    always_keeps sdk (EvolvesIn g row) (EvolvesIn-step g row) actions db
      (row, e, Evolves-of_same row row refl)

module _ (sdk : PersonaSdk) (env : Env) (actions : List (Env × PersonaAction sdk)) (db : Db)
    (g : String) (row : PersonaGenomeRow) (found : find (is_genome g) db.persona_genomes ≡ some row)
    (settled : is_proposed row.status ≡ false) where
  -- a genome that is decided is found as it was
  decided_after : find (is_genome g) (perform_all sdk actions db).persona_genomes ≡ some row
  decided_after =
      let (row', e, evolved) = perform_all-EvolvesIn sdk actions db g row found in
      e ∙ ap some (evolved.decided settled)

  -- A genome that is committed, rejected or stale is never decided again: after any calls each
  -- approval and each rejection of it raises, one that there is no such genome of the Companion or
  -- the Owner, or that its state does not allow it.
  pub approve_evolution-err_of_decided :
      (owner companion_id reason : String) (i expected : Option String)
      → ((approve_evolution sdk env companion_id owner g expected (perform_all sdk actions db)
            ≡ err not_found)
          ⊎ (approve_evolution sdk env companion_id owner g expected (perform_all sdk actions db)
              ≡ err (conflict state_not_eligible none)))
        × ((reject_evolution env owner g i reason (perform_all sdk actions db) ≡ err not_found)
            ⊎ (reject_evolution env owner g i reason (perform_all sdk actions db)
                ≡ err (conflict state_not_eligible none)))
  unfolding approve_evolution owned_companion load_proposed reject_evolution
  approve_evolution-err_of_decided owner companion_id reason i expected =
      let later = decided_after in (ground arith, ground arith)
