-- ===== src/Faces/StoredFile.antt =====
-- What the face repositories check of a stored file: `_SHA256_RE`, and a safe relative path.
use eidolon_data.Prelude.{
  ℕ, Bool, true, false, not, ◌&&◌, ◌||◌, List, [], ◌∷◌, if◌then◌else◌, leb, ◌==◌, length,
  exists_where, nat_eq, string_eq, option_eq,
}

-- [0-9a-f]
abbrev is_hex : ℕ → Bool
is_hex c = leb b'0' c && leb c b'9' || leb b'a' c && leb c b'f'

abbrev all_hex : List ℕ → Bool
all_hex [] = true
all_hex (c ∷ cs) = is_hex c && all_hex cs

-- `_SHA256_RE.fullmatch`
unfoldable pub matches_sha256 : List ℕ → Bool
matches_sha256 cs = length cs == 64 && all_hex cs

abbrev push : ℕ → List (List ℕ) → List (List ℕ)
push c [] = (c ∷ []) ∷ []
push c (part ∷ parts) = (c ∷ part) ∷ parts

-- `.split("/")`
unfoldable pub split_slash : List ℕ → List (List ℕ)
split_slash [] = [] ∷ []
split_slash (c ∷ cs) = let parts = split_slash cs in if c == b'/' then [] ∷ parts else push c parts

abbrev is_dot_dot : List ℕ → Bool
is_dot_dot (a ∷ b ∷ []) = a == b'.' && b == b'.'
is_dot_dot _ = false

abbrev starts_slash : List ℕ → Bool
starts_slash [] = false
starts_slash (c ∷ cs) = c == b'/'

-- the negation of `not key or key.startswith("/") or ".." in key.split("/")`
unfoldable pub is_safe_key : List ℕ → Bool
unfolding split_slash
is_safe_key [] = false
is_safe_key (c ∷ cs) =
    not (starts_slash (c ∷ cs)) && not (exists_where is_dot_dot (split_slash (c ∷ cs)))
