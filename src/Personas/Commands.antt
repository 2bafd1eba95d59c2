-- ===== src/Personas/Commands.antt =====
-- What each command but `edit` has done when it returns.
use eidolon_data.Prelude.{
  ◌+◌, String, ◌≡◌, ap, ◌∙◌, inl, inr, ◌&&◌, ◌||◌, Option, none, some, List, [], arith, ◌==◌, ==→≡,
  Bool-cases, Option-cases, length, find, find_sound, ok, Result-cases, or_text, strip, nat_eq,
  string_eq, option_eq,
}
use eidolon_data.Schema.{Db, Env, CompanionRow, PersonaGenomeRow}
use eidolon_data.Personas.Sdk.{PersonaSdk}
use eidolon_data.Personas.Genomes.{
  has_companion_id, is_genome, companion_for_edit, current_for_edit, owned_companion,
  write_companion, normalized, append_persona,
}
use eidolon_data.Personas.Edits.{load_target}
use eidolon_data.Personas.Restores.{
  is_restored_from, walk_to_origin, restore_chapter, rename_companion, rename, reset_to_origin,
}
use eidolon_data.Personas.Changes.{
  PersonaChange, same, appended, append_persona_effect, KeepsReceipts-of_metadata,
  append_restored_change,
}

pub loaded_self :
    (i : String) (companions : List CompanionRow) (c : CompanionRow)
    → find (has_companion_id i) companions ≡ some c
    → (c.companion_id ≡ i) × (find (has_companion_id c.companion_id) companions ≡ some c)
loaded_self i companions c found =
    let is_i = ==→≡ c.companion_id i (find_sound (has_companion_id i) companions c found) in
    (is_i, ap (λ k. find (has_companion_id k) companions) is_i ∙ found)

pub loaded_genome :
    (i : String) (rows : List PersonaGenomeRow) (row : PersonaGenomeRow)
    → find (is_genome i) rows ≡ some row
    → find (is_genome row.genome_id) rows ≡ some row
loaded_genome i rows row found =
    let is_i = ==→≡ row.genome_id i (find_sound (is_genome i) rows row found) in
    ap (λ k. find (is_genome k) rows) is_i ∙ found

module _ (sdk : PersonaSdk) (env : Env) (db db' : Db) where
  restore_chapter_loaded :
      (i genome_id summary : String) (owner : Option String) (row : PersonaGenomeRow)
      (companion : CompanionRow)
      → find (has_companion_id i) db.companions ≡ some companion
      → restore_chapter sdk env i genome_id summary owner db ≡ ok (row, db')
      → PersonaChange db db'
  unfolding restore_chapter companion_for_edit current_for_edit load_target
  restore_chapter_loaded i genome_id summary owner row companion found ran =
      elim (Option-cases
        (find (is_genome (or_text companion.current_genome_id "")) db.persona_genomes)) [
          | inl missing ↦ absurd (ground arith)
          | inr (current, e) ↦ elim (Option-cases (find (is_genome genome_id) db.persona_genomes)) [
            | inl missing ↦ absurd (ground arith)
            | inr (target, e') ↦
                elim (Bool-cases
                  (current.genome_id == genome_id || is_restored_from genome_id current)) [
                    | inl yet ↦ same (ground arith) (ground arith)
                    | inr other ↦
                        append_restored_change sdk env companion current target row summary db db'
                          (loaded_self i db.companions companion found).1 (ground arith)
                  ]
          ]
        ]

  pub restore_chapter_change :
      (i genome_id summary : String) (owner : Option String) (row : PersonaGenomeRow)
      → restore_chapter sdk env i genome_id summary owner db ≡ ok (row, db')
      → PersonaChange db db'
  unfolding restore_chapter companion_for_edit
  restore_chapter_change i genome_id summary owner row ran =
      elim (Option-cases (find (has_companion_id i) db.companions)) [
        | inl missing ↦ absurd (ground arith)
        | inr (companion, found) ↦
            restore_chapter_loaded i genome_id summary owner row companion found ran
      ]

  rename_companion_change :
      (name : String) (companion c' : CompanionRow)
      → find (has_companion_id companion.companion_id) db.companions ≡ some companion
      → rename_companion sdk env companion name db ≡ ok (c', db')
      → PersonaChange db db'
  unfolding rename_companion current_for_edit normalized write_companion
  rename_companion_change name companion c' loaded ran =
      elim (Option-cases
        (find (is_genome (or_text companion.current_genome_id "")) db.persona_genomes)) [
          | inl missing ↦ absurd (ground arith)
          | inr (current, e) ↦ elim (Option-cases (sdk.normalize current.genome_json)) [
            | inl missing ↦ absurd (ground arith)
            | inr (base, valid) ↦
                elim (Bool-cases (companion.display_name == name && sdk.name_of base == name)) [
                  | inl yet ↦ same (ground arith) (ground arith)
                  | inr other ↦
                      let renamed : CompanionRow = record companion { display_name = name } in
                      elim (Result-cases (
                        append_persona sdk env renamed current (sdk.with_name name base)
                          "owner_rename" "更新伙伴名字" none db)) [
                            | inr (x, broke) ↦ absurd (ground arith)
                            | inl (((row, c''), s), done) ↦
                                let (is_added, is_settled, moved, kept, table) =
                                  append_persona_effect sdk env renamed c'' current row
                                    (sdk.with_name name base) "owner_rename" "更新伙伴名字" none db s
                                    done in
                                appended companion.companion_id companion c'' row
                                  (record {
                                    loaded = loaded;
                                    id = ground arith;
                                    receipts =
                                        KeepsReceipts-of_metadata companion c'' (ground arith);
                                  })
                                  is_added is_settled (ground arith) (ground arith, ground arith)
                          ]
                ]
          ]
        ]

  pub rename_change :
      (i name : String) (answer : Option CompanionRow)
      → rename sdk env i name db ≡ ok (answer, db')
      → PersonaChange db db'
  unfolding rename
  rename_change i name answer ran = elim (Option-cases (find (has_companion_id i) db.companions)) [
    | inl missing ↦ same (ground arith) (ground arith)
    | inr (companion, found) ↦
        elim (Result-cases (rename_companion sdk env companion (strip name) db)) [
          | inr (x, broke) ↦ absurd (ground arith)
          | inl ((c', s), done) ↦
              let ends : s ≡ db' = ground arith in
              rename_companion_change (strip name) companion c'
                (loaded_self i db.companions companion found).1 (done ∙ ap (λ x. ok (c', x)) ends)
        ]
  ]

  reset_to_origin_walked :
      (owner i : String) (row first : PersonaGenomeRow) (companion : CompanionRow)
      → find (has_companion_id i) db.companions ≡ some companion
      → find (is_genome (or_text companion.current_genome_id "")) db.persona_genomes ≡ some first
      → reset_to_origin sdk env owner i db ≡ ok (row, db')
      → PersonaChange db db'
  unfolding reset_to_origin owned_companion current_for_edit
  reset_to_origin_walked owner i row first companion found e ran =
      elim (Option-cases
        (walk_to_origin (length db.persona_genomes + 1) i db.persona_genomes [] first)) [
          | inl missing ↦ absurd (ground arith)
          | inr (origin, walked) ↦
              elim (Bool-cases
                (first.genome_id == origin.genome_id || is_restored_from origin.genome_id first)) [
                  | inl yet ↦ same (ground arith) (ground arith)
                  | inr other ↦
                      append_restored_change sdk env companion first origin row "恢复初始性格设定" db db'
                        (loaded_self i db.companions companion found).1 (ground arith)
                ]
        ]

  pub reset_to_origin_change :
      (owner i : String) (row : PersonaGenomeRow)
      → reset_to_origin sdk env owner i db ≡ ok (row, db')
      → PersonaChange db db'
  unfolding reset_to_origin owned_companion
  reset_to_origin_change owner i row ran =
      elim (Option-cases (find (has_companion_id i) db.companions)) [
        | inl missing ↦ absurd (ground arith)
        | inr (companion, found) ↦
            elim (Option-cases
              (find (is_genome (or_text companion.current_genome_id "")) db.persona_genomes)) [
                | inl missing ↦ absurd (ground arith)
                | inr (first, e) ↦ reset_to_origin_walked owner i row first companion found e ran
              ]
      ]
