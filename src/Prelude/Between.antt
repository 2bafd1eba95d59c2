-- ===== src/Prelude/Between.antt =====
-- A relation between every two rows of a table, earlier before later, under changes to the table.
use eidolon_data.Prelude.Tests.{if◌then◌else◌}
use eidolon_data.Prelude.Lists.{All, All-append}
use eidolon_data.Prelude.Table.{find, update_where, exists_where}
use mathlib.Core.Path.{◌≡◌}
use mathlib.Core.Bool.{Bool, false}
use mathlib.Core.Option.{some}
use mathlib.Core.List.{List, [], ◌∷◌, ◌++◌}
use native.Mathlib.Omega.{arith}

module _ {A : Type 0} where
  abbrev pub Pairwise : (A → A → Type 0) → List A → Type 0
  Pairwise R [] = Unit
  Pairwise R (x ∷ xs) = All (R x) xs × Pairwise R xs

  pub All-imp : (P Q : A → Type 0) (xs : List A) → ((x : A) → P x → Q x) → All P xs → All Q xs
  All-imp P Q [] h a = tt
  All-imp P Q (x ∷ xs) h a = (h x a.0, All-imp P Q xs h a.1)

  pub All-of_exists_where :
      (p : A → Bool) (xs : List A) → exists_where p xs ≡ false → All (λ x. p x ≡ false) xs
  All-of_exists_where p [] h = tt
  All-of_exists_where p (x ∷ xs) h = (ground arith, All-of_exists_where p xs (ground arith))

  pub All-find :
      (P : A → Type 0) (p : A → Bool) (xs : List A) (x : A) → All P xs → find p xs ≡ some x → P x
  All-find P p [] x a e = cc
  All-find P p (y ∷ ys) x a e = ground (arith, All-find P p ys x a.1)

  pub Pairwise-append :
      (R : A → A → Type 0) (xs : List A) (x : A)
      → All (λ y. R y x) xs
      → Pairwise R xs
      → Pairwise R (xs ++ x ∷ [])
  Pairwise-append R [] x a w = (tt, tt)
  Pairwise-append R (y ∷ ys) x a w =
      (All-append (R y) ys (x ∷ []) w.0 (a.0, tt), Pairwise-append R ys x a.1 w.1)

  pub All-update_where :
      (P Q : A → Type 0) (q : A → Bool) (f : A → A) (xs : List A)
      → ((x : A) → P x → Q (if q x then f x else x))
      → All P xs
      → All Q (update_where q f xs)
  All-update_where P Q q f [] h a = tt
  All-update_where P Q q f (x ∷ xs) h a = (h x a.0, All-update_where P Q q f xs h a.1)

  -- An UPDATE keeps the relation if it keeps it between any two rows.
  pub Pairwise-update_where :
      (R : A → A → Type 0) (q : A → Bool) (f : A → A) (xs : List A)
      → ((x y : A) → R x y → R (if q x then f x else x) (if q y then f y else y))
      → Pairwise R xs
      → Pairwise R (update_where q f xs)
  Pairwise-update_where R q f [] h w = tt
  Pairwise-update_where R q f (x ∷ xs) h w = (
    All-update_where (R x) (R (if q x then f x else x)) q f xs (h x) w.0,
    Pairwise-update_where R q f xs h w.1,
  )
