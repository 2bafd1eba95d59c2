-- ===== src/Prelude/Membership.antt =====
-- Membership in a set held as a list, through the operations on sets.
use eidolon_data.Prelude.Tests.{Eq, ◌==◌, ==→≡}
use eidolon_data.Prelude.Table.{select_where, update_where, delete_where, mem}
use mathlib.Core.Path.{◌≡◌, refl}
use mathlib.Core.Bool.{Bool, true, false, not, ◌&&◌}
use mathlib.Core.List.{List, [], ◌∷◌}
use native.Mathlib.Omega.{arith}

module _ {A : Type 0} ⦃e : Eq A⦄ (p : A → Bool) where
  test_of_== : (a x : A) → (a == x) ≡ true → p a ≡ p x
  test_of_== a x h = cc (==→≡ a x h)

  -- `a in {x for x in xs if p(x)}`
  pub mem-select_where : (a : A) (xs : List A) → mem a (select_where p xs) ≡ mem a xs && p a
  mem-select_where a [] = refl
  mem-select_where a (x ∷ xs) = ground (arith, mem-select_where a xs, test_of_== a x)

  -- `a in {x for x in xs if not p(x)}`
  pub mem-delete_where : (a : A) (xs : List A) → mem a (delete_where p xs) ≡ mem a xs && not (p a)
  mem-delete_where a [] = refl
  mem-delete_where a (x ∷ xs) = ground (arith, mem-delete_where a xs, test_of_== a x)

module _ {A : Type 0} where
  -- An UPDATE that fits no row changes nothing.
  pub update_where_none :
      (p : A → Bool) (f : A → A) (xs : List A) → ((x : A) → p x ≡ false) → update_where p f xs ≡ xs
  update_where_none p f [] h = refl
  update_where_none p f (x ∷ xs) h = cc (h x, update_where_none p f xs h)
