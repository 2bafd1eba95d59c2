-- ===== src/Prelude/Table.antt =====
-- SQL statements over a table, a list of rows in the order of insertion.
use native.Mathlib.Omega.{arith}
use mathlib.Core.Path.{◌≡◌, refl}
use Prim.Native.Nat.{ℕ, suc}
use mathlib.Core.Logic.{inl, inr}
use mathlib.Core.Bool.{Bool, false, ◌||◌, true}
use mathlib.Core.Option.{Option, none, some}
use mathlib.Core.List.{List, [], ◌∷◌, map, ◌++◌}
use eidolon_data.Prelude.Tests.{if◌then◌else◌, leb, Eq, ◌==◌, Bool-cases}

module _ {ℓ} {A : Type ℓ} where
  -- `session.get`, or `session.scalar` of a SELECT: the first row that fits
  abbrev pub find : (A → Bool) → List A → Option A
  find p [] = none
  find p (x ∷ xs) = if p x then some x else find p xs

  -- SELECT … WHERE
  abbrev pub select_where : (A → Bool) → List A → List A
  select_where p [] = []
  select_where p (x ∷ xs) = let rest = select_where p xs in if p x then x ∷ rest else rest

  -- UPDATE … SET … WHERE
  abbrev pub update_where : (A → Bool) → (A → A) → List A → List A
  update_where p f [] = []
  update_where p f (x ∷ xs) = (if p x then f x else x) ∷ update_where p f xs

  -- `rowcount`
  abbrev pub count_where : (A → Bool) → List A → ℕ
  count_where p [] = 0
  count_where p (x ∷ xs) = let n = count_where p xs in if p x then suc n else n

  -- DELETE … WHERE
  abbrev pub delete_where : (A → Bool) → List A → List A
  delete_where p [] = []
  delete_where p (x ∷ xs) = let rest = delete_where p xs in if p x then rest else x ∷ rest

  abbrev pub exists_where : (A → Bool) → List A → Bool
  exists_where p [] = false
  exists_where p (x ∷ xs) = p x || exists_where p xs

-- ORDER BY a number, ascending and descending. Rows with one number keep their order.
module _ {ℓ} {A : Type ℓ} (key : A → ℕ) where
  abbrev pub insert_by : A → List A → List A
  insert_by x [] = x ∷ []
  insert_by x (y ∷ ys) = if leb (key x) (key y) then x ∷ y ∷ ys else y ∷ insert_by x ys

  abbrev pub order_by : List A → List A
  order_by [] = []
  order_by (x ∷ xs) = insert_by x (order_by xs)

  abbrev pub insert_by_desc : A → List A → List A
  insert_by_desc x [] = x ∷ []
  insert_by_desc x (y ∷ ys) = if leb (key y) (key x) then x ∷ y ∷ ys else y ∷ insert_by_desc x ys

  abbrev pub order_by_desc : List A → List A
  order_by_desc [] = []
  order_by_desc (x ∷ xs) = insert_by_desc x (order_by_desc xs)

-- `x in xs`, for a set held as a list
abbrev pub mem {ℓ} : {A : Type ℓ} ⦃e : Eq A⦄ → A → List A → Bool
mem a [] = false
mem a (x ∷ xs) = a == x || mem a xs

module _ {A : Type 0} (p : A → Bool) where
  -- A change to rows that keeps a test keeps which row is found by it.
  pub find-update_where :
      (q : A → Bool) (f : A → A) (xs : List A) (x : A)
      → ((y : A) → p (f y) ≡ p y)
      → find p xs ≡ some x
      → find p (update_where q f xs) ≡ some (if q x then f x else x)
  find-update_where q f [] x h e = cc
  find-update_where q f (y ∷ ys) x h e = ground (arith, h y, find-update_where q f ys x h)

  pub find-update_where-none :
      (q : A → Bool) (f : A → A) (xs : List A)
      → ((y : A) → p (f y) ≡ p y)
      → find p xs ≡ none
      → find p (update_where q f xs) ≡ none
  find-update_where-none q f [] h e = refl
  find-update_where-none q f (y ∷ ys) h e = ground (arith, h y, find-update_where-none q f ys h)

  pub find-map :
      (f : A → A) (xs : List A) (x : A)
      → ((y : A) → p (f y) ≡ p y)
      → find p xs ≡ some x
      → find p (map f xs) ≡ some (f x)
  find-map f [] x h e = cc
  find-map f (y ∷ ys) x h e = ground (arith, h y, find-map f ys x h)

  -- The row that was found is found still, unless it is deleted.
  pub find-delete_where :
      (q : A → Bool) (xs : List A) (x : A)
      → find p xs ≡ some x
      → q x ≡ false
      → find p (delete_where q xs) ≡ some x
  find-delete_where q [] x e h = cc
  find-delete_where q (y ∷ ys) x e h = ground (arith, find-delete_where q ys x)

  pub find-append : (xs ys : List A) (x : A) → find p xs ≡ some x → find p (xs ++ ys) ≡ some x
  find-append [] ys x e = cc
  find-append (y ∷ xs) ys x e = ground (arith, find-append xs ys x)

  -- A row that is found after a change of all rows is a changed row that was found before.
  pub find-map_back :
      (f : A → A) (xs : List A) (y : A)
      → ((x : A) → p (f x) ≡ p x)
      → find p (map f xs) ≡ some y
      → (x : A) × (find p xs ≡ some x) × (y ≡ f x)
  find-map_back f [] y h e = cc
  find-map_back f (x ∷ xs) y h e = elim (Bool-cases (p x)) [
    | inl hit ↦ (x, ground arith, ground (arith, h x))
    | inr miss ↦
        let (z, found, changed) = find-map_back f xs y h (ground (arith, h x)) in
        (z, ground arith, changed)
  ]

  -- A DELETE whose test is one on the rows that are looked for takes all of them or none.
  pub find-delete_back :
      (q : A → Bool) (b : Bool) (xs : List A) (x : A)
      → ((y : A) → p y ≡ true → q y ≡ b)
      → find p (delete_where q xs) ≡ some x
      → (find p xs ≡ some x) × (b ≡ false)
  find-delete_back q b [] x h e = cc
  find-delete_back q b (y ∷ ys) x h e = elim (Bool-cases (q y)) [
    | inl gone ↦
        let (found, left) = find-delete_back q b ys x h (ground arith) in
        (ground (arith, h y), left)
    | inr kept ↦ elim (Bool-cases (p y)) [
      | inl hit ↦ (ground arith, ground (arith, h y))
      | inr miss ↦
          let (found, left) = find-delete_back q b ys x h (ground arith) in (ground arith, left)
    ]
  ]

  -- What is found passes the test.
  pub find_sound : (xs : List A) (x : A) → find p xs ≡ some x → p x ≡ true
  find_sound [] x e = cc
  find_sound (y ∷ ys) x e = ground (arith, find_sound ys x)

  pub find-append_none : (xs ys : List A) → find p xs ≡ none → find p (xs ++ ys) ≡ find p ys
  find-append_none [] ys e = refl
  find-append_none (x ∷ xs) ys e = ground (arith, find-append_none xs ys)

  pub find-append_other : (xs : List A) (x : A) → p x ≡ false → find p (xs ++ x ∷ []) ≡ find p xs
  find-append_other [] x e = ground arith
  find-append_other (y ∷ ys) x e = ground (arith, find-append_other ys x)

  pub find-none_of_exists : (xs : List A) → exists_where p xs ≡ false → find p xs ≡ none
  find-none_of_exists [] e = refl
  find-none_of_exists (x ∷ xs) e = ground (arith, find-none_of_exists xs)

  pub exists-of_find : (xs : List A) (x : A) → find p xs ≡ some x → exists_where p xs ≡ true
  exists-of_find [] x e = cc
  exists-of_find (y ∷ ys) x e = ground (arith, exists-of_find ys x)

  pub exists-none_of_find : (xs : List A) → find p xs ≡ none → exists_where p xs ≡ false
  exists-none_of_find [] e = refl
  exists-none_of_find (x ∷ xs) e = ground (arith, exists-none_of_find xs)

module _ {A : Type 0} (p q : A → Bool) where
  pub exists_where_imp :
      (xs : List A)
      → ((x : A) → q x ≡ true → p x ≡ true)
      → exists_where p xs ≡ false
      → exists_where q xs ≡ false
  exists_where_imp [] h e = refl
  exists_where_imp (x ∷ xs) h e = ground (arith, h x, exists_where_imp xs h)

  -- Where nothing passes a test, nothing passes a narrower one.
  pub count_where-none :
      (xs : List A) → ((x : A) → q x ≡ true → p x ≡ true) → find p xs ≡ none → count_where q xs ≡ 0
  count_where-none [] h e = refl
  count_where-none (x ∷ xs) h e = ground (arith, h x, count_where-none xs h)

-- ORDER BY a text.
module _ {A : Type 0} (le : A → A → Bool) where
  abbrev pub insert_sorted : A → List A → List A
  insert_sorted x [] = x ∷ []
  insert_sorted x (y ∷ ys) = if le x y then x ∷ y ∷ ys else y ∷ insert_sorted x ys

  abbrev pub sort_by : List A → List A
  sort_by [] = []
  sort_by (x ∷ xs) = insert_sorted x (sort_by xs)
