-- ===== src/Personas/Sdk.antt =====
-- What services/persona_service.py uses of `eidolon_sdk.biz.persona`, of `hashlib` and of `json`,
-- which are not part of the repository: a parameter of the model, with the laws of its data classes.
use eidolon_data.Prelude.{ℕ, String, ◌≡◌, Bool, Option, some, Json, Items, JsonDict}

-- `PersonaEditSnapshot`, with its authoring and preferences
pub record PersonaEditSnapshot (A P : Type 0) : Type 0 where
  pub genome_id : String
  pub display_name : String
  pub companion_revision : ℕ
  pub persona : A
  pub preferences : P
  pub preference_revision : ℕ

-- `action` of a `PersonaEditRequest`, with the field that each needs
pub data EditAction (A : Type 0) : Type 0 where
  rename_to : String → EditAction A
  restore_from : String → EditAction A
  author_persona : A → EditAction A

pub record PersonaEditRequest (A P : Type 0) : Type 0 where
  pub operation_id : String
  pub expected_base_genome_id : String
  pub expected_preference_revision : ℕ
  pub action : EditAction A
  pub preferences : Option P

-- `PersonaEvolutionProposalEvent`
pub record PersonaProposal (G : Type 0) : Type 0 where
  pub proposal_id : String
  pub owner_id : String
  pub companion_id : String
  pub base_genome_id : String
  pub base_genome_hash : String
  pub proposed_genome_id : String
  pub proposed_genome : G
  pub rationale : String
  pub evidence_refs : Items

pub record PersonaSdk : Type 1 where
  -- `PersonaGenome`: `normalize_persona_genome` (`none` for a ValidationError),
  -- `persona_genome_to_json`, `persona_genome_hash` and `build_default_persona_genome`
  pub Genome : Type 0
  pub normalize : JsonDict → Option Genome
  pub to_json : Genome → JsonDict
  pub hash : JsonDict → String
  pub default_genome : String → String → Option String → Genome
  -- `constitution.name`, and copies with another name or provenance (origin and base)
  pub name_of : Genome → String
  pub with_name : String → Genome → Genome
  pub with_provenance : String → String → Genome → Genome
  -- `==` of two dumps without their provenance
  pub same_persona : Genome → Genome → Bool
  -- `PersonaAuthoring`: `persona_authoring_of` and `apply_persona_authoring`
  pub Authoring : Type 0
  pub authoring_of : Genome → Authoring
  pub apply_authoring : Genome → Authoring → String → Option Genome
  -- `ConversationPreferences`: `model_validate`, `model_dump` and `==`
  pub Preferences : Type 0
  pub validate_preferences : JsonDict → Option Preferences
  pub dump_preferences : Preferences → JsonDict
  pub same_preferences : Preferences → Preferences → Bool
  pub validate-dump_preferences :
      (p : Preferences) → validate_preferences (dump_preferences p) ≡ some p
  -- whether `PersonaEditSnapshot` accepts its fields
  pub accepts_snapshot : PersonaEditSnapshot Authoring Preferences → Bool
  -- the SHA-256 of the request's canonical JSON
  pub fingerprint : PersonaEditRequest Authoring Preferences → String
  -- a stored proposal id and stored evidence, as the fields of a proposal accept them
  pub read_proposal_id : Json → Option String
  pub read_evidence : Json → Option Items
  -- `validate_persona_evolution` of a base, and `model_dump` of a proposal
  pub validate_evolution : Genome → PersonaProposal Genome → Bool
  pub dump_proposal : PersonaProposal Genome → JsonDict
  -- Python's `str` of a value that is no text
  pub text_of : Json → String
