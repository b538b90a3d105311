-- ===== src/Go/Strings.antt =====
-- `strings.Split` by a separator of one character.
pub mod Laws
use Prim.Native.Char.{Char, code}
use Prim.Native.String.{[], ◌∷◌}
use minio_bucket_controller.Base.{ℕ, String, List, [], ◌∷◌, eqb, if◌then◌else◌}

-- A character in front of the first part.
abbrev pub extend : Char → List String → List String
extend c [] = (c ∷ []) ∷ []
extend c (part ∷ parts) = (c ∷ part) ∷ parts

unfoldable pub split : String → ℕ → List String
split [] separator = "" ∷ []
split (c ∷ s) separator =
    let rest = split s separator in if eqb (code c) separator then "" ∷ rest else extend c rest
