-- ===== src/Go/Base64.antt =====
-- `base64.RawStdEncoding`: bytes as letters, digits, `+` and `/`, three bytes in four characters,
-- without padding. A byte is a number below 256.
pub mod RoundTrip
use Prim.Native.Nat.{◌*◌, ◌-◌, ◌/◌, ◌%◌}
use Prim.Native.Char.{Char, code}
use Prim.Native.String.{[], ◌∷◌, char_at}
use minio_bucket_controller.Base.{
  ℕ, ◌+◌, String, Bool, ◌&&◌, ◌||◌, List, [], ◌∷◌, Option, none, some, leb, eqb, if◌then◌else◌,
}
use minio_bucket_controller.Errors.{Result, ok, err, new}

abbrev pub alphabet : String
alphabet = "ABCDEFGHIJKLMNOPQRSTUVWXYZabcdefghijklmnopqrstuvwxyz0123456789+/"

-- The character of a number below 64.
abbrev pub letter : ℕ → Char
letter n = char_at alphabet n

-- `EncodeToString`
unfoldable pub encode : List ℕ → String
encode [] = ""
encode (a ∷ []) = letter (a / 4) ∷ letter (a % 4 * 16) ∷ []
encode (a ∷ b ∷ []) = letter (a / 4) ∷ letter (a % 4 * 16 + b / 16) ∷ letter (b % 16 * 4) ∷ []
encode (a ∷ b ∷ c ∷ bs) =
    letter (a / 4)
    ∷ letter (a % 4 * 16 + b / 16)
    ∷ letter (b % 16 * 4 + c / 64)
    ∷ letter (c % 64)
    ∷ encode bs

-- The number of a character's code, where the alphabet has it.
abbrev pub sextet : ℕ → Option ℕ
sextet c =
    if leb b'A' c && leb c b'Z'
    then some (c - b'A')
    else if leb b'a' c && leb c b'z'
    then some (c - b'a' + 26)
    else if leb b'0' c && leb c b'9'
    then some (c - b'0' + 52)
    else if eqb c b'+'
    then some 62
    else if eqb c b'/'
    then some 63
    else none

-- The numbers of a text, whose line breaks are passed over; none where a character is not in the
-- alphabet.
unfoldable pub sextets : String → Option (List ℕ)
sextets [] = some []
sextets (c ∷ s) =
    let rest = sextets s in
    if eqb (code c) b'\n' || eqb (code c) b'\r' then rest else elim (sextet (code c)) [
      | none ↦ none
      | some n ↦ elim rest [ none ↦ none | some ns ↦ some (n ∷ ns) ]
    ]

-- Four numbers are three bytes; a last group of three is two bytes, one of two is one byte, and a
-- number alone is refused.
unfoldable pub bytes_of : List ℕ → Option (List ℕ)
bytes_of [] = some []
bytes_of (a ∷ []) = none
bytes_of (a ∷ b ∷ []) = some ((a * 4 + b / 16) ∷ [])
bytes_of (a ∷ b ∷ c ∷ []) = some ((a * 4 + b / 16) ∷ (b % 16 * 16 + c / 4) ∷ [])
bytes_of (a ∷ b ∷ c ∷ d ∷ ns) = elim (bytes_of ns) [
  | none ↦ none
  | some bs ↦ some ((a * 4 + b / 16) ∷ (b % 16 * 16 + c / 4) ∷ (c % 4 * 64 + d) ∷ bs)
]

-- `DecodeString`; the errors say where the input is corrupt, which nothing reads.
unfoldable pub decode : String → Result (List ℕ)
decode s = elim (sextets s) [
  | none ↦ err (new "illegal base64 data")
  | some ns ↦ elim (bytes_of ns) [ none ↦ err (new "illegal base64 data") | some bs ↦ ok bs ]
]
