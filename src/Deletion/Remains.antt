-- ===== src/Deletion/Remains.antt =====
-- What a deletion leaves, and what it reports.
use eidolon_data.Prelude.{
  ◌+◌, String, subst, ◌≡◌, refl, sym, ap, inl, inr, Bool, false, some, List, [], ◌∷◌, map, arith,
  ◌==◌, Bool-cases, Option-cases, length, find, count_where, delete_where, exists_where,
  exists_where_imp, exists_where-delete_where, exists_where-map, length-delete_where,
  length-select_where, count_where_ext, length-map, ok, string_eq, option_eq, nat_eq,
}
use eidolon_data.Schema.{Db, Env, OwnerRow}
use eidolon_data.Audit.Row.{governance_fact}
use eidolon_data.Audit.Facts.{add_fact}
use eidolon_data.Personas.Genomes.{has_companion_id, is_genome_of}
use eidolon_data.Faces.Assets.{is_face_of}
use eidolon_data.Deletion.Cascades.{
  is_companion_in, is_genome_in, is_face_in, is_binding_in, clear_default, clear_genome, clear_base,
  genomes_in, delete_companion_rows, has_owner_id,
}
use eidolon_data.Deletion.Companions.{
  CompanionDeletionResult, is_default_of, is_guard_of, count_rows, break_pointers, delete_companion,
}

-- No row names the Companion.
abbrev pub IsGone : String → Db → Type 0
IsGone i db =
    (exists_where (has_companion_id i) db.companions ≡ false)
    × (exists_where (is_genome_of i) db.persona_genomes ≡ false)
    × (exists_where (is_face_of i) db.companion_face_assets ≡ false)
    × (exists_where (is_guard_of i) db.guard_bindings ≡ false)
    × (exists_where (λ o. is_default_of i (some o)) db.owners ≡ false)

-- a default that is left is no deleted Companion
clear_default-is_default_of :
    (i : String) (o : OwnerRow) → is_default_of i (some (clear_default (i ∷ []) o)) ≡ false
clear_default-is_default_of i o = elim (Option-cases o.default_companion_id) [
  | inl none_set ↦ ground arith
  | inr (d, e) ↦ elim (Bool-cases (d == i)) [ inl hit ↦ ground arith | inr other ↦ ground arith ]
]

no_default_left :
    (i : String) (owners : List OwnerRow)
    → exists_where (λ o. is_default_of i (some o)) (map (clear_default (i ∷ [])) owners) ≡ false
no_default_left i [] = refl
no_default_left i (o ∷ owners) =
    ground (arith, clear_default-is_default_of i o, no_default_left i owners)

IsGone-delete_companion_rows : (i : String) (db : Db) → IsGone i (delete_companion_rows (i ∷ []) db)
unfolding delete_companion_rows
IsGone-delete_companion_rows i db = (
  exists_where-map (has_companion_id i) (clear_genome (genomes_in (i ∷ []) db))
      (delete_where (is_companion_in (i ∷ [])) db.companions) (λ c h. h)
      (exists_where_imp (is_companion_in (i ∷ [])) (has_companion_id i)
        (delete_where (is_companion_in (i ∷ [])) db.companions) (λ c h. ground arith)
        (exists_where-delete_where (is_companion_in (i ∷ [])) db.companions)),
  exists_where-map (is_genome_of i) (clear_base (genomes_in (i ∷ []) db))
      (delete_where (is_genome_in (i ∷ [])) db.persona_genomes) (λ c h. h)
      (exists_where_imp (is_genome_in (i ∷ [])) (is_genome_of i)
        (delete_where (is_genome_in (i ∷ [])) db.persona_genomes) (λ c h. ground arith)
        (exists_where-delete_where (is_genome_in (i ∷ [])) db.persona_genomes)),
  exists_where_imp (is_face_in (i ∷ [])) (is_face_of i)
      (delete_where (is_face_in (i ∷ [])) db.companion_face_assets) (λ c h. ground arith)
      (exists_where-delete_where (is_face_in (i ∷ [])) db.companion_face_assets),
  exists_where_imp (is_binding_in (i ∷ [])) (is_guard_of i)
      (delete_where (is_binding_in (i ∷ [])) db.guard_bindings) (λ c h. ground arith)
      (exists_where-delete_where (is_binding_in (i ∷ [])) db.guard_bindings),
  no_default_left i db.owners,
)

-- what a count and the rows that are left make up
count_left :
    {A : Type 0} (p q : A → Bool) (f : A → A) (rows : List A)
    → ((x : A) → p x ≡ q x)
    → length (map f (delete_where q rows)) + count_where p rows ≡ length rows
count_left p q f rows h = ground (
  arith,
  length-map f (delete_where q rows),
  length-delete_where q rows,
  count_where_ext p q rows h,
)

pub delete_companion_tables :
    (env : Env) (owner i : String) (allow : Bool) (db db' : Db) (result : CompanionDeletionResult)
    → delete_companion env owner i allow db ≡ ok (result, db')
    → (result.deleted_rows ≡ count_rows i db)
      × (db'
          ≡ record (delete_companion_rows
              (i ∷ [])
              (break_pointers owner i (is_default_of i (find (has_owner_id owner) db.owners)) db)) {
                audit_outbox = db'.audit_outbox;
              })
unfolding delete_companion add_fact governance_fact delete_companion_rows break_pointers
delete_companion_tables env owner i allow db db' result ran = (ground arith, ground arith)

-- When a Companion is deleted, no row is left that has it as its Companion: it is gone itself, no
-- genome, face or guard binding is of it, and no Owner has it as its default. The report counts the
-- genomes, faces and guard bindings that went, and no memory realm did.
pub delete_companion-IsGone :
    (env : Env) (owner i : String) (allow : Bool) (db db' : Db) (result : CompanionDeletionResult)
    → delete_companion env owner i allow db ≡ ok (result, db')
    → IsGone i db'
      × (length db'.persona_genomes + result.deleted_rows.persona_genomes
          ≡ length db.persona_genomes)
      × (length db'.companion_face_assets + result.deleted_rows.companion_face_assets
          ≡ length db.companion_face_assets)
      × (length db'.guard_bindings + result.deleted_rows.guard_bindings ≡ length db.guard_bindings)
      × (db'.memory_realms ≡ db.memory_realms)
unfolding delete_companion_rows break_pointers
delete_companion-IsGone env owner i allow db db' result ran =
    let (counted, tables) = delete_companion_tables env owner i allow db db' result ran in
    let s = break_pointers owner i (is_default_of i (find (has_owner_id owner) db.owners)) db in
    let gone = genomes_in (i ∷ []) s in
    let genomes : length db'.persona_genomes
        ≡ length (map (clear_base gone) (delete_where (is_genome_in (i ∷ [])) db.persona_genomes)) =
      ap (λ d. length d.persona_genomes) tables in
    let faces : length db'.companion_face_assets
        ≡ length (delete_where (is_face_in (i ∷ [])) db.companion_face_assets) =
      ap (λ d. length d.companion_face_assets) tables in
    let bindings : length db'.guard_bindings
        ≡ length (delete_where (is_binding_in (i ∷ [])) db.guard_bindings) =
      ap (λ d. length d.guard_bindings) tables in
    (
      subst (IsGone i) (sym tables) (IsGone-delete_companion_rows i s),
      ground (
        arith,
        count_left (is_genome_of i) (is_genome_in (i ∷ [])) (clear_base gone) db.persona_genomes
            (λ r. ground arith),
      ),
      ground (
        arith,
        length-select_where (is_face_of i) db.companion_face_assets,
        length-delete_where (is_face_in (i ∷ [])) db.companion_face_assets,
        count_where_ext (is_face_of i) (is_face_in (i ∷ [])) db.companion_face_assets
            (λ r. ground arith),
      ),
      ground (
        arith,
        length-delete_where (is_binding_in (i ∷ [])) db.guard_bindings,
        count_where_ext (is_guard_of i) (is_binding_in (i ∷ [])) db.guard_bindings
            (λ r. ground arith),
      ),
      ap (λ d. d.memory_realms) tables,
    )
