-- ===== src/Guard/OpaqueId.antt =====
-- `_OPAQUE_ID` and `_validate_opaque_id` of repositories/guard_bindings.py.
use eidolon_data.Prelude.{
  ℕ, zero, suc, ◌≤◌, ◌≡◌, refl, ◌↔◌, Bool, true, false, ◌&&◌, ◌||◌, List, [], ◌∷◌, arith, leb, ◌==◌,
  length, take, All, nat_eq,
}

-- [A-Za-z0-9]
unfoldable pub is_alnum : ℕ → Bool
is_alnum c = leb b'A' c && leb c b'Z' || leb b'a' c && leb c b'z' || leb b'0' c && leb c b'9'

-- [A-Za-z0-9_.:-]
unfoldable pub is_safe : ℕ → Bool
is_safe c = is_alnum c || c == b'_' || c == b'.' || c == b':' || c == b'-'

-- [A-Za-z0-9_.:-]{0,n}, up to the end
unfoldable pub matches_tail : ℕ → List ℕ → Bool
matches_tail n [] = true
matches_tail zero (c ∷ cs) = false
matches_tail (suc n) (c ∷ cs) = is_safe c && matches_tail n cs

-- `_OPAQUE_ID.fullmatch`
unfoldable pub matches_opaque_id : List ℕ → Bool
matches_opaque_id [] = false
matches_opaque_id (c ∷ cs) = is_alnum c && matches_tail 127 cs

-- What the message of `_validate_opaque_id` promises.
pub record IsOpaqueId (cs : List ℕ) : Type 0 where
  pub not_empty : 1 ≤ length cs
  pub not_long : length cs ≤ 128
  pub safe : All (λ c. is_safe c ≡ true) cs
  pub starts_alnum : All (λ c. is_alnum c ≡ true) (take 1 cs)

matches_tail_iff :
    (n : ℕ) (cs : List ℕ)
    → (matches_tail n cs ≡ true) ↔ ((length cs ≤ n) × All (λ c. is_safe c ≡ true) cs)
unfolding matches_tail
matches_tail_iff n [] = (λ h. (omega arith, tt), λ h. refl)
matches_tail_iff zero (c ∷ cs) = (λ h. cc, λ h. absurd (omega arith))
matches_tail_iff (suc n) (c ∷ cs) =
    (λ h. ground (arith, matches_tail_iff n cs), λ h. ground (arith, matches_tail_iff n cs))

is_safe_of_is_alnum : (c : ℕ) → is_alnum c ≡ true → is_safe c ≡ true
unfolding is_safe
is_safe_of_is_alnum c h = ground arith

-- An id is accepted exactly if it has 1 to 128 characters, all of them safe, and starts with a letter
-- or a digit.
pub matches_opaque_id_iff : (cs : List ℕ) → (matches_opaque_id cs ≡ true) ↔ IsOpaqueId cs
unfolding matches_opaque_id
matches_opaque_id_iff [] = (λ h. cc, λ h. absurd (omega arith))
matches_opaque_id_iff (c ∷ cs) = (
  λ h. let all = (matches_tail_iff 127 cs).0 in ground (arith, is_safe_of_is_alnum c),
  λ h. ground (arith, matches_tail_iff 127 cs),
)
