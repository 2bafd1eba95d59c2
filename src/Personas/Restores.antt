-- ===== src/Personas/Restores.antt =====
-- `PersonaService.rename`, `restore_chapter`, `rollback_to_genome` and `reset_to_origin`.
use eidolon_data.Prelude.{
  ℕ, zero, suc, ◌+◌, String, Bool, false, ◌&&◌, ◌||◌, Option, none, some, List, [], ◌∷◌,
  if◌then◌else◌, ltb, ◌==◌, ◌!=◌, length, str, dict_get, find, mem, pure, gets, or_raise, raise_if,
  ◌>>=◌, ◌>>◌, or_text, is_empty, codes, strip, nat_eq, string_eq, option_eq,
}
use eidolon_data.Schema.{Env, CompanionRow, PersonaGenomeRow}
use eidolon_data.Personas.Sdk.{PersonaSdk}
use eidolon_data.Personas.Genomes.{
  not_found, bad_value, attribute_error, PersonaCall, has_companion_id, is_genome,
  companion_for_edit, current_for_edit, owned_companion, write_companion, normalized,
  append_persona,
}
use eidolon_data.Personas.Edits.{load_target}

-- `(current.source_json or {}).get("restored_from") == genome_id`
abbrev pub is_restored_from : String → PersonaGenomeRow → Bool
is_restored_from genome_id current = elim (dict_get "restored_from" current.source_json) [
  | some (str s) ↦ s == genome_id
  | _ ↦ false
]

-- `base_genome_id not in visited`, where there is one
abbrev pub base_to_visit : PersonaGenomeRow → List String → Option String
base_to_visit genome visited = elim genome.base_genome_id [
  | none ↦ none
  | some base ↦ if is_empty base || mem base visited then none else some base
]

-- the parent that the loop goes on to
abbrev pub parent_of :
    String → List PersonaGenomeRow → PersonaGenomeRow → List String → Option PersonaGenomeRow
parent_of companion_id rows genome visited = elim (base_to_visit genome visited) [
  | none ↦ none
  | some base ↦ elim (find (is_genome base) rows) [
    | none ↦ none
    | some parent ↦ if parent.companion_id == companion_id then some parent else none
  ]
]

-- the loop of `reset_to_origin`, in at most `fuel` rounds; `none` when they are used up
unfoldable pub walk_to_origin :
    ℕ → String → List PersonaGenomeRow → List String → PersonaGenomeRow → Option PersonaGenomeRow
walk_to_origin zero companion_id rows visited genome = none
walk_to_origin (suc fuel) companion_id rows visited genome =
    elim (parent_of companion_id rows genome visited) [
      | none ↦ some genome
      | some parent ↦ walk_to_origin fuel companion_id rows (genome.genome_id ∷ visited) parent
    ]

module _ (sdk : PersonaSdk) where
  open sdk use {name_of, with_name}

  -- the end of every restore
  unfoldable pub append_restored :
      Env
      → CompanionRow
      → PersonaGenomeRow
      → PersonaGenomeRow
      → String
      → PersonaCall PersonaGenomeRow
  unfolding normalized
  append_restored env companion current target summary = do
    genome ← normalized sdk target.genome_json
    appended ←
        append_persona sdk env companion current (with_name companion.display_name genome)
          "owner_restore" summary (some target)
    write_companion appended.1
    pure appended.0

  unfoldable pub restore_chapter :
      Env → String → String → String → Option String → PersonaCall PersonaGenomeRow
  restore_chapter env companion_id genome_id change_summary owner_id = do
    companion ← companion_for_edit companion_id
    raise_if (elim owner_id [ none ↦ false | some owner ↦ companion.owner_id != owner ]) not_found
    current ← current_for_edit companion
    target ← load_target companion_id genome_id
    if current.genome_id == genome_id || is_restored_from genome_id current
        then pure current
        else append_restored env companion current target change_summary

  unfoldable pub rollback_to_genome : Env → String → String → String → PersonaCall PersonaGenomeRow
  unfolding restore_chapter
  rollback_to_genome env owner_id companion_id genome_id =
      restore_chapter env companion_id genome_id "恢复历史人格" (some owner_id)

  -- `rename`, of a Companion that is there
  unfoldable pub rename_companion : Env → CompanionRow → String → PersonaCall CompanionRow
  unfolding normalized
  rename_companion env companion name = do
    current ← current_for_edit companion
    base ← normalized sdk current.genome_json
    let renamed = record companion { display_name = name }
    if companion.display_name == name && name_of base == name then pure companion else (do
      appended ←
          append_persona sdk env renamed current (with_name name base) "owner_rename" "更新伙伴名字" none
      write_companion appended.1
      pure appended.1)

  unfoldable pub rename : Env → String → String → PersonaCall (Option CompanionRow)
  unfolding rename_companion
  rename env companion_id display_name = do
    let name = strip display_name
    raise_if (is_empty name || ltb 128 (length (codes name))) bad_value
    found ← gets (λ db. find (has_companion_id companion_id) db.companions)
    elim found [
      | none ↦ pure none
      | some companion ↦ (do renamed ← rename_companion env companion name; pure (some renamed))
    ]

  -- `reset_to_origin`, with as many rounds as there are genomes
  unfoldable pub reset_to_origin : Env → String → String → PersonaCall PersonaGenomeRow
  unfolding walk_to_origin
  reset_to_origin env owner_id companion_id = do
    companion ← owned_companion owner_id companion_id
    raise_if (is_empty (or_text companion.current_genome_id "")) not_found
    found ←
        gets (λ db. find (is_genome (or_text companion.current_genome_id "")) db.persona_genomes)
    first ← or_raise found not_found
    walked ← gets (λ db.
        walk_to_origin (length db.persona_genomes + 1) companion_id db.persona_genomes [] first)
    origin ← or_raise walked attribute_error
    current ← current_for_edit companion
    if current.genome_id == origin.genome_id || is_restored_from origin.genome_id current
        then pure current
        else append_restored env companion current origin "恢复初始性格设定"
