-- ===== src/Deletion/Pointers.antt =====
-- The pointers of the Companions that are left.
use eidolon_data.Deletion.OwnerGone.{delete_owner_tables}
use eidolon_data.Deletion.Owners.{break_owned_pointers, delete_owner}
use eidolon_data.Deletion.Remains.{delete_companion_tables}
use eidolon_data.Deletion.Companions.{is_default_of, no_pointers, break_pointers, delete_companion}
use eidolon_data.Personas.Genomes.{has_companion_id, is_genome}
use eidolon_data.Prelude.{
  String, subst, ◌≡◌, refl, sym, ap, ◌∙◌, inl, inr, Bool, false, Option, none, some, List, [], ◌∷◌,
  map, arith, if◌then◌else◌, ◌==◌, ==→≡, Option-cases, find, update_where, delete_where, mem,
  find-update_where, find-update_where-none, find-map, find-delete_where, find-map_back,
  find-delete_back, committed, Result-cases, string_eq, option_eq, nat_eq,
}
use eidolon_data.Schema.{Db, Env, CompanionRow}
use eidolon_data.Personas.Current.{HasCommitted}
use eidolon_data.Deletion.Cascades.{
  unless_gone, is_companion_in, is_genome_in, clear_genome, clear_base, clear_realm, genomes_in,
  delete_companion_rows, has_owner_id, is_companion_of, companions_of, realms_of, delete_owned_rows,
}

unless_gone-some :
    (gone : List String) (pointer : Option String) (g : String)
    → unless_gone gone pointer ≡ some g
    → pointer ≡ some g
unless_gone-some gone none g e = absurd (ground arith)
unless_gone-some gone (some k) g e = ground arith

HasCommitted-delete_companion_rows :
    (ids : List String) (db : Db) → HasCommitted db → HasCommitted (delete_companion_rows ids db)
unfolding delete_companion_rows
HasCommitted-delete_companion_rows ids db h i g c' found points =
    let gone = genomes_in ids db in
    let left = delete_where (is_companion_in ids) db.companions in
    let (c, e, is_c) =
      find-map_back (has_companion_id i) (clear_genome gone) left c' (λ x. refl) found in
    let (e', out) =
      find-delete_back (has_companion_id i) (is_companion_in ids) (mem i ids) db.companions c
        (λ y hit. ap (λ k. mem k ids) (==→≡ y.companion_id i hit)) e in
    let pointed : unless_gone gone c.current_genome_id ≡ some g =
      ap (λ x. x.current_genome_id) (sym is_c) ∙ points in
    let (row, there, owned, settled) =
      h i g c e' (unless_gone-some gone c.current_genome_id g pointed) in
    let not_in : is_genome_in ids row ≡ false = ap (λ k. mem k ids) owned ∙ out in
    (
      clear_base gone row,
      find-map (is_genome g) (clear_base gone) (delete_where (is_genome_in ids) db.persona_genomes)
          row (λ r. refl)
          (find-delete_where (is_genome g) (is_genome_in ids) db.persona_genomes row there not_in),
      owned,
      settled,
    )

-- clearing pointers, wholly or in part, points to nothing new
HasCommitted-no_pointers :
    (p : CompanionRow → Bool) (db db' : Db)
    → db'.persona_genomes ≡ db.persona_genomes
    → db'.companions ≡ update_where p no_pointers db.companions
    → HasCommitted db
    → HasCommitted db'
HasCommitted-no_pointers p db db' genomes kept h i g c' found points =
    elim (Option-cases (find (has_companion_id i) db.companions)) [
      | inl missing ↦
          let none_yet =
            find-update_where-none (has_companion_id i) p no_pointers db.companions (λ x. refl)
              missing in
          absurd (ground (arith, ap (λ rows. find (has_companion_id i) rows) kept))
      | inr (c, e) ↦
          let later =
            ap (λ rows. find (has_companion_id i) rows) kept
            ∙ find-update_where (has_companion_id i) p no_pointers db.companions c (λ x. refl) e in
          let same_row : c' ≡ (if p c then no_pointers c else c) = ground arith in
          let pointed : (if p c then no_pointers c else c).current_genome_id ≡ some g =
            ap (λ x. x.current_genome_id) (sym same_row) ∙ points in
          let (row, there, owned, settled) = h i g c e (ground arith) in
          (row, ap (λ rows. find (is_genome g) rows) genomes ∙ there, owned, settled)
    ]

-- a change of other columns of the Companions
HasCommitted-map :
    (f : CompanionRow → CompanionRow) (db db' : Db)
    → ((c : CompanionRow) → (f c).companion_id ≡ c.companion_id)
    → ((c : CompanionRow) → (f c).current_genome_id ≡ c.current_genome_id)
    → db'.persona_genomes ≡ db.persona_genomes
    → db'.companions ≡ map f db.companions
    → HasCommitted db
    → HasCommitted db'
HasCommitted-map f db db' id pointer genomes kept h i g c' found points =
    let (c, e, is_c) =
      find-map_back (has_companion_id i) f db.companions c' (λ x. ap (λ k. k == i) (id x))
        (ap (λ rows. find (has_companion_id i) rows) (sym kept) ∙ found) in
    let pointed = sym (pointer c) ∙ ap (λ x. x.current_genome_id) (sym is_c) ∙ points in
    let (row, there, owned, settled) = h i g c e pointed in
    (row, ap (λ rows. find (is_genome g) rows) genomes ∙ there, owned, settled)

delete_companion_step :
    (env : Env) (owner i : String) (allow : Bool) (db : Db)
    → HasCommitted db
    → HasCommitted (committed (delete_companion env owner i allow db) db)
unfolding break_pointers
delete_companion_step env owner i allow db h =
    elim (Result-cases (delete_companion env owner i allow db)) [
      | inr (x, broke) ↦ subst (λ r. HasCommitted (committed r db)) (sym broke) h
      | inl ((result, db'), done) ↦
          let tables = (delete_companion_tables env owner i allow db db' result done).1 in
          let is_default = is_default_of i (find (has_owner_id owner) db.owners) in
          let s = break_pointers owner i is_default db in
          let broken = HasCommitted-no_pointers (has_companion_id i) db s refl refl h in
          subst (λ r. HasCommitted (committed r db)) (sym done)
            (subst HasCommitted (sym tables) (HasCommitted-delete_companion_rows (i ∷ []) s broken))
    ]

delete_owner_step :
    (env : Env) (o : String) (db : Db)
    → HasCommitted db
    → HasCommitted (committed (delete_owner env o db) db)
unfolding break_owned_pointers delete_owned_rows delete_owner
delete_owner_step env o db h = elim (Result-cases (delete_owner env o db)) [
  | inr (x, broke) ↦ subst (λ r. HasCommitted (committed r db)) (sym broke) h
  | inl ((result, db'), done) ↦ elim (Option-cases (find (has_owner_id o) db.owners)) [
    | inl missing ↦
        let is_db : db ≡ db' = ground arith in
        subst (λ r. HasCommitted (committed r db)) (sym done) (subst HasCommitted is_db h)
    | inr (owner, found) ↦
        let (counted, no_team, tables, recorded) =
          delete_owner_tables o env db db' owner result found done in
        let s = break_owned_pointers o db in
        let broken = HasCommitted-no_pointers (is_companion_of o) db s refl refl h in
        let t = delete_companion_rows (companions_of o s) s in
        subst (λ r. HasCommitted (committed r db)) (sym done)
          (subst HasCommitted (sym tables) (
            HasCommitted-map (clear_realm (realms_of o t)) t (delete_owned_rows o t) (λ c. refl)
              (λ c. refl) refl refl
              (HasCommitted-delete_companion_rows (companions_of o s) s broken)))
  ]
]

-- Where every Companion's pointer names a committed genome of that Companion, each that is left does
-- after the deletion of a Companion or of an Owner, whether it returns or raises.
pub deletions-HasCommitted :
    (env : Env) (owner i : String) (allow : Bool) (db : Db)
    → HasCommitted db
    → HasCommitted (committed (delete_companion env owner i allow db) db)
      × HasCommitted (committed (delete_owner env owner db) db)
deletions-HasCommitted env owner i allow db h =
    (delete_companion_step env owner i allow db h, delete_owner_step env owner db h)
