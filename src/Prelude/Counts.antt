-- ===== src/Prelude/Counts.antt =====
-- `rowcount` under changes to a table, and for a test that at most one row passes.
use eidolon_data.Prelude.Tests.{Bool-cases}
use eidolon_data.Prelude.Table.{
  find, select_where, update_where, count_where, delete_where, exists_where,
}
use Prim.Native.Nat.{◌+◌, ◌≤◌, suc}
use eidolon_data.Prelude.Lists.{length}
use mathlib.Core.Path.{◌≡◌, refl, ap}
use mathlib.Core.Bool.{Bool, true, false}
use mathlib.Core.Logic.{inl, inr}
use mathlib.Core.Option.{some}
use mathlib.Core.List.{List, [], ◌∷◌, ◌++◌, map}
use native.Mathlib.Omega.{arith}

module _ {A : Type 0} (p : A → Bool) where
  pub count-append :
      (xs ys : List A) → count_where p (xs ++ ys) ≡ count_where p xs + count_where p ys
  count-append [] ys = omega arith
  count-append (x ∷ xs) ys = ground (arith, count-append xs ys)

  pub count-update_where :
      (q : A → Bool) (f : A → A) (xs : List A)
      → ((x : A) → p (f x) ≡ p x)
      → count_where p (update_where q f xs) ≡ count_where p xs
  count-update_where q f [] h = refl
  count-update_where q f (x ∷ xs) h = ground (arith, h x, count-update_where q f xs h)

module _ {A : Type 0} (q : A → Bool) where
  pub exists_of_count : (xs : List A) → count_where q xs ≡ 0 → exists_where q xs ≡ false
  exists_of_count [] e = refl
  exists_of_count (x ∷ xs) e = ground (arith, exists_of_count xs)

  pub exists_of_one : (xs : List A) → count_where q xs ≡ 1 → exists_where q xs ≡ true
  exists_of_one [] e = absurd (omega arith)
  exists_of_one (x ∷ xs) e = ground (arith, exists_of_one xs)

module _ {A : Type 0} (p q : A → Bool) (h : (x : A) → q x ≡ true → p x ≡ true) where
  pub count_where_le : (xs : List A) → count_where q xs ≤ count_where p xs
  count_where_le [] = omega arith
  count_where_le (x ∷ xs) = ground (arith, h x, count_where_le xs)

  -- The one row that passes the narrower test is the one that passes the wider.
  pub find_of_count :
      (xs : List A)
      → count_where p xs ≤ 1
      → count_where q xs ≡ 1
      → (x : A) × (find p xs ≡ some x) × (q x ≡ true)
  find_of_count [] few one = absurd (omega arith)
  find_of_count (x ∷ xs) few one = elim (Bool-cases (q x)) [
    | inl fits ↦ (x, ground (arith, h x), fits)
    | inr other ↦
        let (y, found, passes) = find_of_count xs (ground arith) (ground arith) in
        (y, ground (arith, h x, count_where_le xs), passes)
  ]

  -- Where one row at most passes the wider test, the narrower one is a matter of the row it finds.
  pub exists_of_find :
      (xs : List A) (x : A) → count_where p xs ≤ 1 → find p xs ≡ some x → exists_where q xs ≡ q x
  exists_of_find [] x few found = cc
  exists_of_find (y ∷ ys) x few found = elim (Bool-cases (p y)) [
    | inl fits ↦
        let same : y ≡ x = ground arith in
        let none_left : count_where q ys ≡ 0 = ground (arith, count_where_le ys) in
        ground (arith, exists_of_count q ys, h y, ap q same)
    | inr other ↦ ground (arith, h y, exists_of_find ys x)
  ]

pub find_ext :
    {A : Type 0} (p q : A → Bool) (xs : List A) → ((x : A) → p x ≡ q x) → find p xs ≡ find q xs
find_ext p q [] h = refl
find_ext p q (x ∷ xs) h = ground (arith, h x, find_ext p q xs h)

module _ {A : Type 0} (p : A → Bool) where
  pub exists_where-delete_where : (xs : List A) → exists_where p (delete_where p xs) ≡ false
  exists_where-delete_where [] = refl
  exists_where-delete_where (x ∷ xs) = ground (arith, exists_where-delete_where xs)

  -- what is missing stays missing under a DELETE
  pub missing-delete_where :
      (q : A → Bool) (xs : List A)
      → exists_where p xs ≡ false
      → exists_where p (delete_where q xs) ≡ false
  missing-delete_where q [] h = refl
  missing-delete_where q (x ∷ xs) h = ground (arith, missing-delete_where q xs)

  pub exists_where-map :
      (f : A → A) (xs : List A)
      → ((x : A) → p (f x) ≡ true → p x ≡ true)
      → exists_where p xs ≡ false
      → exists_where p (map f xs) ≡ false
  exists_where-map f [] h e = refl
  exists_where-map f (x ∷ xs) h e = ground (arith, h x, exists_where-map f xs h)

  -- What a DELETE leaves and what it takes are all the rows.
  pub length-delete_where :
      (xs : List A) → length (delete_where p xs) + count_where p xs ≡ length xs
  length-delete_where [] = refl
  length-delete_where (x ∷ xs) = ground (arith, length-delete_where xs)

  pub length-select_where : (xs : List A) → length (select_where p xs) ≡ count_where p xs
  length-select_where [] = refl
  length-select_where (x ∷ xs) = ground (arith, length-select_where xs)

pub count_where_ext :
    {A : Type 0} (p q : A → Bool) (xs : List A)
    → ((x : A) → p x ≡ q x)
    → count_where p xs ≡ count_where q xs
count_where_ext p q [] h = refl
count_where_ext p q (x ∷ xs) h = ground (arith, h x, count_where_ext p q xs h)

pub length-map : {A B : Type 0} (f : A → B) (xs : List A) → length (map f xs) ≡ length xs
length-map f [] = refl
length-map f (x ∷ xs) = ap suc (length-map f xs)
