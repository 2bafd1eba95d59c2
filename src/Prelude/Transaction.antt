-- ===== src/Prelude/Transaction.antt =====
-- `async with session.begin():` a transaction over the tables. A raise leaves them as they were,
-- so an error comes without a state.
use mathlib.Core.Bool.{Bool, true, false}
use mathlib.Core.Path.{◌≡◌, refl}
use mathlib.Core.Logic.{◌⊎◌, inl, inr}
use mathlib.Core.Option.{Option, none, some}

pub data Result (E A : Type 0) : Type 0 where
  ok : A → Result E A
  err : E → Result E A

abbrev pub Tx : Type 0 → Type 0 → Type 0 → Type 0
Tx S E A = S → Result E (A × S)

module _ {S E A : Type 0} where
  abbrev pub pure : A → Tx S E A
  pure a s = ok (a, s)

  abbrev pub raise : E → Tx S E A
  raise e s = err e

  abbrev pub gets : (S → A) → Tx S E A
  gets f s = ok (f s, s)

  abbrev pub or_raise : Option A → E → Tx S E A
  or_raise none e = raise e
  or_raise (some a) e = pure a

  abbrev pub lift : Result E A → Tx S E A
  lift (ok a) s = ok (a, s)
  lift (err e) s = err e

module _ {S E : Type 0} where
  abbrev pub raise_if : Bool → E → Tx S E (Unit {0})
  raise_if true e = raise e
  raise_if false e = pure tt

  abbrev pub modify : (S → S) → Tx S E (Unit {0})
  modify f s = ok (tt, f s)

  infixl 5 ◌>>=◌ ◌>>◌
  abbrev pub ◌>>=◌ : {A B : Type 0} → Tx S E A → (A → Tx S E B) → Tx S E B
  ◌>>=◌ m f s = elim (m s) [ ok (a, s') ↦ f a s' | err e ↦ err e ]

  abbrev pub ◌>>◌ : {A B : Type 0} → Tx S E A → Tx S E B → Tx S E B
  m >> k = m >>= λ _. k

-- the state that is left: the new one, or after a raise the old one
abbrev pub committed : {S E A : Type 0} → Result E (A × S) → S → S
committed (ok (a, s')) s = s'
committed (err e) s = s

pub Result-cases :
    {E A : Type 0} (r : Result E A) → ((a : A) × (r ≡ ok a)) ⊎ ((e : E) × (r ≡ err e))
Result-cases (ok a) = inl (a, refl)
Result-cases (err e) = inr (e, refl)
