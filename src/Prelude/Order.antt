-- ===== src/Prelude/Order.antt =====
-- ORDER BY … DESC against WHERE, and reading a strictly falling list from a given number on.
use mathlib.Core.Option.{some}
use mathlib.Core.Logic.{◌≢◌}
use eidolon_data.Prelude.Tests.{if◌then◌else◌, ltb}
use eidolon_data.Prelude.Lists.{length, take, drop, get_last?, All}
use eidolon_data.Prelude.Table.{select_where, insert_by_desc, order_by_desc}
use Prim.Native.Nat.{ℕ, zero, suc, ◌≤◌, ◌<◌}
use mathlib.Core.Path.{◌≡◌, refl, ap}
use mathlib.Core.Bool.{Bool, ◌&&◌, true}
use mathlib.Core.List.{List, [], ◌∷◌}
use native.Mathlib.Omega.{arith}

module _ {A : Type 0} (key : A → ℕ) where
  -- every key is below `k`
  abbrev pub Below : ℕ → List A → Type 0
  Below k = All (λ x. key x < k)

  -- the keys fall strictly, as those of a unique column sorted downwards do
  abbrev pub IsFalling : List A → Type 0
  IsFalling [] = Unit
  IsFalling (x ∷ xs) = Below (key x) xs × IsFalling xs

  -- no key stands twice
  abbrev pub Absent : ℕ → List A → Type 0
  Absent k = All (λ x. k ≢ key x)

  abbrev pub IsUnique : List A → Type 0
  IsUnique [] = Unit
  IsUnique (x ∷ xs) = Absent (key x) xs × IsUnique xs

  Below-mono : (j k : ℕ) (xs : List A) → j ≤ k → Below j xs → Below k xs
  Below-mono j k [] h b = tt
  Below-mono j k (x ∷ xs) h b = (omega arith, Below-mono j k xs h b.1)

  Below-insert :
      (k : ℕ) (x : A) (xs : List A) → key x < k → Below k xs → Below k (insert_by_desc key x xs)
  Below-insert k x [] h b = (h, tt)
  Below-insert k x (y ∷ ys) h b = ground (arith, Below-insert k x ys h b.1)

  Absent-insert :
      (k : ℕ) (x : A) (xs : List A) → k ≢ key x → Absent k xs → Absent k (insert_by_desc key x xs)
  Absent-insert k x [] h b = (h, tt)
  Absent-insert k x (y ∷ ys) h b = ground (arith, Absent-insert k x ys h b.1)

  Absent-order : (k : ℕ) (xs : List A) → Absent k xs → Absent k (order_by_desc key xs)
  Absent-order k [] h = tt
  Absent-order k (x ∷ xs) h = Absent-insert k x (order_by_desc key xs) h.0 (Absent-order k xs h.1)

  insert-IsFalling :
      (x : A) (xs : List A) → Absent (key x) xs → IsFalling xs → IsFalling (insert_by_desc key x xs)
  insert-IsFalling x [] h f = (tt, tt)
  insert-IsFalling x (y ∷ ys) h f = ground (
    arith,
    insert-IsFalling x ys h.1 f.1,
    Below-insert (key y) x ys,
    Below-mono (key y) (key x) ys,
  )

  -- Rows with distinct keys are sorted strictly.
  pub order_by_desc-IsFalling : (xs : List A) → IsUnique xs → IsFalling (order_by_desc key xs)
  order_by_desc-IsFalling [] h = tt
  order_by_desc-IsFalling (x ∷ xs) h =
      insert-IsFalling x (order_by_desc key xs) (Absent-order (key x) xs h.0)
        (order_by_desc-IsFalling xs h.1)

  Below-select : (p : A → Bool) (k : ℕ) (xs : List A) → Below k xs → Below k (select_where p xs)
  Below-select p k [] h = tt
  Below-select p k (x ∷ xs) h = ground (arith, Below-select p k xs h.1)

  insert_by_desc_front : (x : A) (xs : List A) → Below (key x) xs → insert_by_desc key x xs ≡ x ∷ xs
  insert_by_desc_front x [] h = refl
  insert_by_desc_front x (y ∷ ys) h = ground arith

  select-insert :
      (p : A → Bool) (x : A) (xs : List A)
      → Absent (key x) xs
      → IsFalling xs
      → select_where p (insert_by_desc key x xs)
        ≡ (if p x then insert_by_desc key x (select_where p xs) else select_where p xs)
  select-insert p x [] h f = ground arith
  select-insert p x (y ∷ ys) h f = ground (
    arith,
    select-insert p x ys h.1 f.1,
    Below-mono (key y) (key x) ys,
    Below-select p (key x) ys,
    insert_by_desc_front x (select_where p ys),
  )

  -- Sorting and selecting may be exchanged.
  pub select-order_by_desc :
      (p : A → Bool) (xs : List A)
      → IsUnique xs
      → order_by_desc key (select_where p xs) ≡ select_where p (order_by_desc key xs)
  select-order_by_desc p [] h = refl
  select-order_by_desc p (x ∷ xs) h = ground (
    arith,
    select-order_by_desc p xs h.1,
    select-insert p x (order_by_desc key xs) (Absent-order (key x) xs h.0)
        (order_by_desc-IsFalling xs h.1),
  )

  -- WHERE with both tests is WHERE after WHERE.
  pub select-select :
      (p q : A → Bool) (xs : List A)
      → select_where (λ x. p x && q x) xs ≡ select_where q (select_where p xs)
  select-select p q [] = refl
  select-select p q (x ∷ xs) = ground (arith, select-select p q xs)

  pub All-get_last? :
      (P : A → Type 0) (n : ℕ) (xs : List A) (x : A)
      → All P xs
      → get_last? (take n xs) ≡ some x
      → P x
  All-get_last? P zero xs x h e = cc
  All-get_last? P (suc n) [] x h e = cc
  All-get_last? P (suc zero) (y ∷ ys) x h e = ground arith
  All-get_last? P (suc (suc n)) (y ∷ []) x h e = ground arith
  All-get_last? P (suc (suc n)) (y ∷ z ∷ zs) x h e = All-get_last? P (suc n) (z ∷ zs) x h.1 e

  select-Below : (k : ℕ) (xs : List A) → Below k xs → select_where (λ y. ltb (key y) k) xs ≡ xs
  select-Below k [] h = refl
  select-Below k (x ∷ xs) h = ground (arith, select-Below k xs h.1)

  -- In a strictly falling list, what lies below the last of the first rows is the rest.
  pub select_after_take :
      (n : ℕ) (xs : List A) (x : A)
      → IsFalling xs
      → get_last? (take n xs) ≡ some x
      → n ≤ length xs
      → select_where (λ y. ltb (key y) (key x)) xs ≡ drop n xs
  select_after_take zero xs x f e h = cc
  select_after_take (suc n) [] x f e h = cc
  select_after_take (suc zero) (y ∷ ys) x f e h = ground (arith, select-Below (key y) ys f.0)
  select_after_take (suc (suc n)) (y ∷ []) x f e h = absurd (omega arith)
  select_after_take (suc (suc n)) (y ∷ z ∷ zs) x f e h = ground (
    arith,
    select_after_take (suc n) (z ∷ zs) x f.1 e,
    All-get_last? (λ w. key w < key y) (suc n) (z ∷ zs) x f.0 e,
  )

  Absent-select : (p : A → Bool) (k : ℕ) (xs : List A) → Absent k xs → Absent k (select_where p xs)
  Absent-select p k [] h = tt
  Absent-select p k (x ∷ xs) h = ground (arith, Absent-select p k xs h.1)

  pub select-IsUnique : (p : A → Bool) (xs : List A) → IsUnique xs → IsUnique (select_where p xs)
  select-IsUnique p [] h = tt
  select-IsUnique p (x ∷ xs) h =
      ground (arith, select-IsUnique p xs h.1, Absent-select p (key x) xs h.0)

  pub select-IsFalling : (p : A → Bool) (xs : List A) → IsFalling xs → IsFalling (select_where p xs)
  select-IsFalling p [] h = tt
  select-IsFalling p (x ∷ xs) h =
      ground (arith, select-IsFalling p xs h.1, Below-select p (key x) xs h.0)

module _ {A : Type 0} (p : A → Bool) where
  pub All-select_where : (xs : List A) → All (λ x. p x ≡ true) (select_where p xs)
  All-select_where [] = tt
  All-select_where (x ∷ xs) = ground (arith, All-select_where xs)

module _ {A : Type 0} where
  pub get_last?_total :
      (n : ℕ) (xs : List A) → 1 ≤ n → 1 ≤ length xs → (x : A) × (get_last? (take n xs) ≡ some x)
  get_last?_total zero xs h k = absurd (omega arith)
  get_last?_total (suc n) [] h k = absurd (omega arith)
  get_last?_total (suc zero) (y ∷ ys) h k = (y, refl)
  get_last?_total (suc (suc n)) (y ∷ []) h k = (y, refl)
  get_last?_total (suc (suc n)) (y ∷ z ∷ zs) h k =
      get_last?_total (suc n) (z ∷ zs) (omega arith) (omega arith)

  -- WHERE TRUE
  pub select_all : (xs : List A) → select_where (λ x. true) xs ≡ xs
  select_all [] = refl
  select_all (x ∷ xs) = ap (λ r. x ∷ r) (select_all xs)
