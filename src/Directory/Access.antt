-- ===== src/Directory/Access.antt =====
-- `PersonaAccess` and `CompanionsAccess`: their own commands; the reads are those of the
-- repositories.
use eidolon_data.Prelude.{ℕ, String, Option, none, find, gets, ◌>>=◌, string_eq, option_eq, nat_eq}
use eidolon_data.Schema.{Env, PersonaGenomeRow}
use eidolon_data.Personas.Sdk.{author_persona, PersonaSdk}
use eidolon_data.Personas.Genomes.{PersonaCall, is_genome}
use eidolon_data.Personas.Edits.{EditRequest, edit}
use eidolon_data.Personas.Restores.{restore_chapter}

module _ (sdk : PersonaSdk) where
  abbrev pub author_request : sdk.Authoring → String → ℕ → String → EditRequest sdk
  author_request persona base revision operation_id = record {
    operation_id = operation_id;
    expected_base_genome_id = base;
    expected_preference_revision = revision;
    action = author_persona persona;
    preferences = none;
  }

  -- `PersonaAccess.author`: the edit, and then a read of the genome that it names
  unfoldable pub author :
      Env
      → String
      → sdk.Authoring
      → String
      → String
      → String
      → ℕ
      → PersonaCall (Option PersonaGenomeRow)
  author env companion_id persona change_summary base operation_id revision = do
    result ←
        edit sdk env companion_id (author_request persona base revision operation_id) change_summary
    gets (λ db. find (is_genome result.genome_id) db.persona_genomes)

  -- `PersonaAccess.restore`
  unfoldable pub restore : Env → String → String → String → PersonaCall PersonaGenomeRow
  restore env companion_id genome_id change_summary =
      restore_chapter sdk env companion_id genome_id change_summary none
