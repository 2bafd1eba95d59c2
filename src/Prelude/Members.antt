-- ===== src/Prelude/Members.antt =====
-- The library's membership through WHERE and ORDER BY, and distinct keys through changes of rows.
use mathlib.Core.Logic.Or
use mathlib.Core.Bool.{Bool, true}
use mathlib.Core.Option.{some}
use mathlib.Core.Path.{◌≡◌}
use mathlib.Core.List.{List, [], ◌∷◌, map, Mem, Mem-prop, mem-cons, mem-cons_of_mem}
use mathlib.Core.Logic.{inl, inr}
use eidolon_data.Prelude.Tests.{leb, Bool-cases}
use eidolon_data.Prelude.Table.{find, select_where, delete_where, insert_by_desc, order_by_desc}
use eidolon_data.Prelude.Order.{Absent, IsUnique}
use Prim.Native.Nat.{ℕ}
use native.Mathlib.Omega.{arith}

module _ {A : Type 0} where
  -- what is found, and passes another test, is selected by that
  pub Mem-select_where :
      (p q : A → Bool) (xs : List A) (x : A)
      → find p xs ≡ some x
      → q x ≡ true
      → Mem x (select_where q xs)
  Mem-select_where p q [] x e h = cc
  Mem-select_where p q (y ∷ ys) x e h = elim (Bool-cases (p y)) [
    | inl hit ↦
        let same : x ≡ y = ground arith in
        let fits : q y ≡ true = ground arith in rw fits (mem-cons.1 (Or.inl same))
    | inr miss ↦
        let rest = Mem-select_where p q ys x (ground arith) h in
        elim (Bool-cases (q y)) [
          | inl fits ↦ rw fits (mem-cons_of_mem y rest)
          | inr not_fits ↦ rw not_fits rest
        ]
  ]

  Mem-insert_by_desc :
      (key : A → ℕ) (x y : A) (ys : List A) → Mem x (y ∷ ys) → Mem x (insert_by_desc key y ys)
  Mem-insert_by_desc key x y [] m = m
  Mem-insert_by_desc key x y (z ∷ zs) m = elim (Bool-cases (leb (key z) (key y))) [
    | inl here ↦ rw here m
    | inr later ↦ rw later (
        Or.elim Mem-prop (mem-cons.0 m)
          (λ e. mem-cons_of_mem z (Mem-insert_by_desc key x y zs (mem-cons.1 (Or.inl e))))
          (λ n.
            Or.elim Mem-prop (mem-cons.0 n) (λ e. mem-cons.1 (Or.inl e))
              (λ k. mem-cons_of_mem z (Mem-insert_by_desc key x y zs (mem-cons_of_mem y k)))))
  ]

  pub Mem-order_by_desc :
      (key : A → ℕ) (x : A) (xs : List A) → Mem x xs → Mem x (order_by_desc key xs)
  Mem-order_by_desc key x [] m = m
  Mem-order_by_desc key x (y ∷ ys) m = Mem-insert_by_desc key x y (order_by_desc key ys) (
      Or.elim Mem-prop (mem-cons.0 m) (λ e. mem-cons.1 (Or.inl e))
        (λ n. mem-cons_of_mem y (Mem-order_by_desc key x ys n)))

module _ {A : Type 0} (key : A → ℕ) where
  module _ (f : A → A) (same : (x : A) → key (f x) ≡ key x) where
    Absent-map : (k : ℕ) (xs : List A) → Absent key k xs → Absent key k (map f xs)
    Absent-map k [] h = tt
    Absent-map k (x ∷ xs) h = (ground (arith, same x, h.0), Absent-map k xs h.1)

    pub IsUnique-map : (xs : List A) → IsUnique key xs → IsUnique key (map f xs)
    IsUnique-map [] h = tt
    IsUnique-map (x ∷ xs) h = (rw (same x) (Absent-map (key x) xs h.0), IsUnique-map xs h.1)

  Absent-delete_where :
      (q : A → Bool) (k : ℕ) (xs : List A) → Absent key k xs → Absent key k (delete_where q xs)
  Absent-delete_where q k [] h = tt
  Absent-delete_where q k (x ∷ xs) h = ground (arith, Absent-delete_where q k xs h.1)

  pub IsUnique-delete_where :
      (q : A → Bool) (xs : List A) → IsUnique key xs → IsUnique key (delete_where q xs)
  IsUnique-delete_where q [] h = tt
  IsUnique-delete_where q (x ∷ xs) h =
      ground (arith, IsUnique-delete_where q xs h.1, Absent-delete_where q (key x) xs h.0)
