-- ===== src/Personas/Walk.antt =====
-- The loop of `reset_to_origin`, up the chain of base genomes.
use eidolon_data.Prelude.{
  ℕ, zero, suc, ◌+◌, ◌≤◌, ◌<◌, String, ◌≡◌, refl, sym, ap, ◌∙◌, ◌⊎◌, inl, inr, Bool, true, false,
  not, none, some, List, [], ◌∷◌, arith, ◌==◌, ==→≡, Bool-cases, Option-cases, length, find,
  count_where, mem, find_sound, string_eq, option_eq, nat_eq,
}
use eidolon_data.Schema.{PersonaGenomeRow}
use eidolon_data.Personas.Commands.{loaded_genome}
use eidolon_data.Personas.Decided.{one_genome}
use eidolon_data.Personas.Genomes.{is_genome}
use eidolon_data.Personas.Restores.{base_to_visit, parent_of, walk_to_origin}

-- a genome whose id has not been visited
abbrev unvisited : List String → PersonaGenomeRow → Bool
unvisited visited r = not (mem r.genome_id visited)

count_where_le :
    (p : PersonaGenomeRow → Bool) (rows : List PersonaGenomeRow) → count_where p rows ≤ length rows
count_where_le p [] = omega arith
count_where_le p (r ∷ rows) = ground (arith, count_where_le p rows)

-- A visit of a stored genome leaves fewer to be visited.
module _ (visited : List String) (g : String) where
  visit_le :
      (rows : List PersonaGenomeRow)
      → count_where (unvisited (g ∷ visited)) rows ≤ count_where (unvisited visited) rows
  visit_le [] = omega arith
  visit_le (r ∷ rows) = ground (arith, visit_le rows)

  visit_lt :
      (rows : List PersonaGenomeRow) (row : PersonaGenomeRow)
      → find (is_genome g) rows ≡ some row
      → mem g visited ≡ false
      → count_where (unvisited (g ∷ visited)) rows < count_where (unvisited visited) rows
  visit_lt [] row e fresh = absurd (ground arith)
  visit_lt (r ∷ rows) row e fresh =
      ground (arith, visit_le rows, visit_lt rows row, ==→≡ r.genome_id g)

module _ (i : String) (rows : List PersonaGenomeRow) where
  -- where the loop stands: at a stored genome that is new, or that is its own base
  record Walking (visited : List String) (genome : PersonaGenomeRow) : Type 0 where
    stored : find (is_genome genome.genome_id) rows ≡ some genome
    fresh : (mem genome.genome_id visited ≡ false) ⊎ (base_to_visit genome visited ≡ none)

  -- the base that the loop goes up to
  base_of_step :
      (visited : List String) (genome parent : PersonaGenomeRow)
      → parent_of i rows genome visited ≡ some parent
      → (base : String) × (genome.base_genome_id ≡ some base)
        × (base_to_visit genome visited ≡ some base)
        × (mem base visited ≡ false)
        × (find (is_genome base) rows ≡ some parent)
        × (parent.companion_id ≡ i)
  base_of_step visited genome parent up = elim (Option-cases genome.base_genome_id) [
    | inl root ↦ absurd (ground arith)
    | inr (base, e) ↦ elim (Option-cases (find (is_genome base) rows)) [
      | inl missing ↦ absurd (ground arith)
      | inr (row, e') ↦ (
        base,
        e,
        ground arith,
        ground arith,
        ground arith,
        ground (arith, ==→≡ row.companion_id i),
      )
    ]
  ]

  -- a genome that is its own base ends the loop
  own_base :
      (visited : List String) (genome parent : PersonaGenomeRow) (base : String)
      → genome.base_genome_id ≡ some base
      → parent.genome_id ≡ base
      → (parent.genome_id == genome.genome_id) ≡ true
      → base_to_visit genome (genome.genome_id ∷ visited) ≡ none
  own_base visited genome parent base e at_base hit =
      let again : (base == genome.genome_id) ≡ true =
        ap (λ k. k == genome.genome_id) (sym at_base) ∙ hit in
      ground arith

  Walking-step :
      (visited : List String) (genome parent : PersonaGenomeRow)
      → Walking visited genome
      → parent_of i rows genome visited ≡ some parent
      → (mem genome.genome_id visited ≡ false) × Walking (genome.genome_id ∷ visited) parent
  Walking-step visited genome parent w up =
      let (base, e, to_visit, new, found, owned) = base_of_step visited genome parent up in
      let at_base = ==→≡ parent.genome_id base (find_sound (is_genome base) rows parent found) in
      let unseen : mem parent.genome_id visited ≡ false = ap (λ k. mem k visited) at_base ∙ new in
      (
        elim w.fresh [ inl new_id ↦ new_id | inr ended ↦ absurd (ground arith) ],
        record {
          stored = loaded_genome base rows parent found;
          fresh = elim (Bool-cases (parent.genome_id == genome.genome_id)) [
            | inl hit ↦
                let is_genome_itself =
                  one_genome base genome.genome_id rows parent genome found w.stored
                    (==→≡ parent.genome_id genome.genome_id hit) in
                inr (
                  ap (λ r. base_to_visit r (genome.genome_id ∷ visited)) is_genome_itself
                  ∙ own_base visited genome parent base e at_base hit)
            | inr other ↦ inl (ground arith)
          ];
        },
      )

  -- the answer of any run with enough rounds, from one round later
  stops_here :
      (fuel : ℕ) (visited : List String) (genome : PersonaGenomeRow)
      → parent_of i rows genome visited ≡ none
      → (n : ℕ) → suc fuel ≤ n
      → walk_to_origin n i rows visited genome ≡ some genome
  unfolding walk_to_origin
  stops_here fuel visited genome top zero enough = absurd (omega arith)
  stops_here fuel visited genome top (suc n) enough = ground arith

  goes_up :
      (fuel : ℕ) (visited : List String) (genome parent origin : PersonaGenomeRow)
      → parent_of i rows genome visited ≡ some parent
      → ((n : ℕ)
          → fuel ≤ n
          → walk_to_origin n i rows (genome.genome_id ∷ visited) parent ≡ some origin)
      → (n : ℕ) → suc fuel ≤ n
      → walk_to_origin n i rows visited genome ≡ some origin
  unfolding walk_to_origin
  goes_up fuel visited genome parent origin up ends zero enough = absurd (omega arith)
  goes_up fuel visited genome parent origin up ends (suc n) enough =
      let rest = ends n (omega arith) in ground arith

  walk_ends :
      (fuel : ℕ) (visited : List String) (genome : PersonaGenomeRow)
      → Walking visited genome
      → count_where (unvisited visited) rows < fuel
      → (origin : PersonaGenomeRow) × ((n : ℕ)
          → fuel ≤ n
          → walk_to_origin n i rows visited genome ≡ some origin)
  walk_ends zero visited genome w h = absurd (omega arith)
  walk_ends (suc fuel) visited genome w h = elim (Option-cases (parent_of i rows genome visited)) [
    | inl top ↦ (genome, stops_here fuel visited genome top)
    | inr (parent, up) ↦
        let (new, w') = Walking-step visited genome parent w up in
        let fewer = visit_lt visited genome.genome_id rows genome w.stored new in
        let (origin, ends) = walk_ends fuel (genome.genome_id ∷ visited) parent w' (omega arith) in
        (origin, goes_up fuel visited genome parent origin up ends)
  ]

-- The loop of `reset_to_origin` ends, whatever bases the stored genomes have: from a stored genome,
-- as many rounds as there are genomes and one more are enough, and more rounds give the same origin.
pub walk_to_origin_ends :
    (i : String) (rows : List PersonaGenomeRow) (first : PersonaGenomeRow)
    → find (is_genome first.genome_id) rows ≡ some first
    → (origin : PersonaGenomeRow) × ((n : ℕ)
        → length rows + 1 ≤ n
        → walk_to_origin n i rows [] first ≡ some origin)
walk_to_origin_ends i rows first stored =
    let few = count_where_le (unvisited []) rows in
    walk_ends i rows (length rows + 1) [] first (record { stored = stored; fresh = inl refl })
      (omega arith)
