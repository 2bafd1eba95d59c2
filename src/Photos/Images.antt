-- ===== src/Photos/Images.antt =====
-- `normalize_image`. What it calls of `base64` and of PIL, and `hashlib.sha256`, are a parameter.
use eidolon_data.Prelude.{
  ℕ, ◌*◌, String, Bool, not, ◌&&◌, ◌||◌, Option, none, some, if◌then◌else◌, ltb, leb, ◌==◌,
  string_eq, option_eq, nat_eq,
}

-- the format and the size in pixels of an opened image
pub record Picture : Type 0 where
  pub format : String
  pub width : ℕ
  pub height : ℕ

pub record ImageSdk : Type 1 where
  pub Bytes : Type 0
  pub size : Bytes → ℕ
  -- `base64.b64decode(…, validate=True)` and `base64.b64encode`
  pub decode : String → Option Bytes
  pub encode : Bytes → String
  -- `Image.open`, and the rest: load, transpose, convert, thumbnail and save as JPEG; `none` for
  -- each of the errors that `normalize_image` catches
  pub open_image : Bytes → Option Picture
  pub render : Bytes → Option Bytes
  -- the hexadecimal digest
  pub sha256 : Bytes → String

abbrev pub max_bytes : ℕ
max_bytes = 1024 * 1024

abbrev pub max_pixels : ℕ
max_pixels = 4096 * 4096

module _ (sdk : ImageSdk) where
  open sdk use {Bytes, size, decode, open_image, render}

  abbrev pub fits : Bytes → Bool
  fits content = not (size content == 0 || ltb max_bytes (size content))

  abbrev pub is_accepted : Picture → Bool
  is_accepted p = (p.format == "JPEG" || p.format == "PNG") && leb (p.width * p.height) max_pixels

  -- `none` for PersonFaceInvalid
  unfoldable pub normalize_image : String → Option Bytes
  normalize_image encoded = elim (decode encoded) [
    | none ↦ none
    | some content ↦ elim (open_image content) [
      | none ↦ none
      | some picture ↦ if fits content && is_accepted picture then render content else none
    ]
  ]
