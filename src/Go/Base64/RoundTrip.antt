-- ===== src/Go/Base64/RoundTrip.antt =====
-- `base64.RawStdEncoding`: what was encoded is decoded.
use Prim.Native.Nat.{◌*◌, ◌/◌, ◌%◌}
use Prim.Native.Char.{code}
use Prim.Native.String.{[], ◌∷◌}
use minio_bucket_controller.Base.{
  ℕ, zero, suc, ◌+◌, ◌<◌, String, ◌≡◌, refl, ap, Bool, true, false, not, ◌&&◌, List, [], ◌∷◌, none,
  some, All, eqb, arith,
}
use native.Mathlib.Decide.{ℕ_discrete}
use minio_bucket_controller.Errors.{ok}
use minio_bucket_controller.Go.Base64.{letter, sextet, sextets, bytes_of, encode, decode}

abbrev pub IsByte : ℕ → Type 0
IsByte b = b < 256

abbrev all_below : ℕ → (ℕ → Bool) → Bool
all_below zero p = true
all_below (suc k) p = p k && all_below k p

all_below_lem : (k n : ℕ) (p : ℕ → Bool) → n < k → all_below k p ≡ true → p n ≡ true
all_below_lem zero n p l t = ground arith
all_below_lem (suc k) n p l t = elim (ℕ_discrete n k) [
  | yes e ↦ rw e (ground arith)
  | no ne ↦ all_below_lem k n p (omega arith) (ground arith)
]

-- The number of the n-th letter is n, and the letter is no line break and no dot.
abbrev is_letter : ℕ → Bool
is_letter n =
    (elim (sextet (code (letter n))) [ none ↦ false | some m ↦ eqb m n ])
    && not (eqb (code (letter n)) b'\n')
    && not (eqb (code (letter n)) b'\r')
    && not (eqb (code (letter n)) b'.')

is_letter_lem : (n : ℕ) → n < 64 → is_letter n ≡ true
is_letter_lem n l = all_below_lem 64 n is_letter l refl

pub letter-no-dot : (n : ℕ) → n < 64 → eqb (code (letter n)) b'.' ≡ false
letter-no-dot n l = let p = is_letter_lem n l in ground arith

sextets-letter :
    (n : ℕ) (s : String) (ns : List ℕ)
    → n < 64
    → sextets s ≡ some ns
    → sextets (letter n ∷ s) ≡ some (n ∷ ns)
unfolding sextets
sextets-letter n s ns l e = let p = is_letter_lem n l in ground arith

-- The numbers that stand for these bytes.
abbrev groups : List ℕ → List ℕ
groups [] = []
groups (a ∷ []) = (a / 4) ∷ (a % 4 * 16) ∷ []
groups (a ∷ b ∷ []) = (a / 4) ∷ (a % 4 * 16 + b / 16) ∷ (b % 16 * 4) ∷ []
groups (a ∷ b ∷ c ∷ bs) =
    (a / 4) ∷ (a % 4 * 16 + b / 16) ∷ (b % 16 * 4 + c / 64) ∷ (c % 64) ∷ groups bs

sextets-nil : sextets "" ≡ some []
unfolding sextets
sextets-nil = refl

sextets-encode : (bs : List ℕ) → All IsByte bs → sextets (encode bs) ≡ some (groups bs)
unfolding encode
sextets-encode [] p = sextets-nil
sextets-encode (a ∷ []) p =
    sextets-letter (a / 4) _ _ (omega arith)
      (sextets-letter (a % 4 * 16) _ _ (omega arith) sextets-nil)
sextets-encode (a ∷ b ∷ []) p = sextets-letter (a / 4) _ _ (omega arith) (
    sextets-letter (a % 4 * 16 + b / 16) _ _ (omega arith)
      (sextets-letter (b % 16 * 4) _ _ (omega arith) sextets-nil))
sextets-encode (a ∷ b ∷ c ∷ bs) p = sextets-letter (a / 4) _ _ (omega arith) (
    sextets-letter (a % 4 * 16 + b / 16) _ _ (omega arith) (
      sextets-letter (b % 16 * 4 + c / 64) _ _ (omega arith)
        (sextets-letter (c % 64) _ _ (omega arith) (sextets-encode bs p.1.1.1))))

first_byte : (a r : ℕ) → r < 16 → (a / 4) * 4 + (a % 4 * 16 + r) / 16 ≡ a
first_byte a r l = omega arith

second_byte :
    (a b r : ℕ) → IsByte b → r < 4 → (a % 4 * 16 + b / 16) % 16 * 16 + (b % 16 * 4 + r) / 4 ≡ b
second_byte a b r p l = omega arith

last_byte : (a b : ℕ) → IsByte b → (a % 4 * 16 + b / 16) % 16 * 16 + b % 16 * 4 / 4 ≡ b
last_byte a b p = omega arith

third_byte : (b c : ℕ) → IsByte c → (b % 16 * 4 + c / 64) % 4 * 64 + c % 64 ≡ c
third_byte b c p = omega arith

bytes_of-groups : (bs : List ℕ) → All IsByte bs → bytes_of (groups bs) ≡ some bs
unfolding bytes_of
bytes_of-groups [] p = refl
bytes_of-groups (a ∷ []) p = ap (λ x. some (x ∷ [])) (omega arith)
bytes_of-groups (a ∷ b ∷ []) p = rw (first_byte a (b / 16) (omega arith), last_byte a b p.1.0) refl
bytes_of-groups (a ∷ b ∷ c ∷ bs) p =
    rw
      (
        bytes_of-groups bs p.1.1.1,
        first_byte a (b / 16) (omega arith),
        second_byte a b (c / 64) p.1.0 (omega arith),
        third_byte b c p.1.1.0,
      )
      refl

decode_lem :
    (s : String) (ns bs : List ℕ) → sextets s ≡ some ns → bytes_of ns ≡ some bs → decode s ≡ ok bs
unfolding decode
decode_lem s ns bs e f = ground arith

pub decode-encode : (bs : List ℕ) → All IsByte bs → decode (encode bs) ≡ ok bs
decode-encode bs p =
    decode_lem (encode bs) (groups bs) bs (sextets-encode bs p) (bytes_of-groups bs p)
