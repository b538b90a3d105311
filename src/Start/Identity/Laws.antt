-- ===== src/Start/Identity/Laws.antt =====
-- main.go: the name of the service account, by what the configuration has.
use Prim.Native.Nat.{◌*◌, ◌/◌, ◌%◌}
use Prim.Native.Char.{Char, code}
use Prim.Native.String.{[], ◌∷◌}
use Prim.Native.String.compare
use text.Mathlib.TextLemmas.{nil-append, cons-append}
use minio_bucket_controller.Base.{
  ℕ, ◌+◌, String, ◌<>◌, ◌==◌, ◌≡◌, refl, ◌∙◌, ◌⊎◌, Bool, true, false, not, ◌||◌, List, [], ◌∷◌,
  Option, none, some, is_some, All, eqb, arith,
}
use minio_bucket_controller.Errors.{Result, ok, err}
use minio_bucket_controller.Go.Base64.{encode, decode, sextet, sextets}
use minio_bucket_controller.Go.Base64.RoundTrip.{IsByte, letter-no-dot, decode-encode}
use minio_bucket_controller.Go.Strings.{split}
use minio_bucket_controller.Go.Strings.Laws.{Lacks, split-append, split-Lacks}
use minio_bucket_controller.Libraries.{Libraries}
use minio_bucket_controller.Start.Identity.{Config, resolve, token_subject, success}

-- The client has a certificate or a token.
abbrev pub has_credentials : Config → Bool
has_credentials c = is_some c.cert_data || not (c.bearer_token == "")

-- Where the client has a certificate or a token, the name does not depend on the flag.
pub resolve-has_credentials :
    (lib : Libraries) (c : Config) (flag flag' : String)
    → has_credentials c ≡ true
    → resolve lib c flag ≡ resolve lib c flag'
unfolding resolve
resolve-has_credentials lib c flag flag' p = ground arith

-- A token of three parts, and the configuration with it alone.
abbrev pub token : String → String → String → String
token header body signature = header <> ("." <> (body <> ("." <> signature)))

abbrev pub with_token : String → Config
with_token t = record { cert_data = none; bearer_token = t }

dot : (s : String) → "." <> s ≡ "." ∷ s
dot s = rw (cons-append, nil-append) refl

split-token :
    (header body signature : String)
    → Lacks b'.' header
    → Lacks b'.' body
    → Lacks b'.' signature
    → split (token header body signature) b'.' ≡ header ∷ body ∷ signature ∷ []
split-token header body signature p q r =
    rw
      (
        dot (body <> ("." <> signature)),
        split-append header "." _ b'.' p refl,
        dot signature,
        split-append body "." signature b'.' q refl,
        split-Lacks signature b'.' r,
      )
      refl

not_empty : (c : Char) (s : String) → (c ∷ s == "") ≡ false
not_empty c s = rw (compare.cons-nil c s) refl

token-not-empty : (header rest : String) → (header <> ("." <> rest) == "") ≡ false
token-not-empty [] rest = rw (nil-append, dot rest) (not_empty "." rest)
token-not-empty (c ∷ header) rest = rw (cons-append c header ("." <> rest)) (not_empty c _)

-- What a decoded body leads to.
abbrev subject_of : Libraries → Result (List ℕ) → Option String
subject_of lib (err e) = none
subject_of lib (ok bytes) = success (lib.json_subject bytes)

resolve-with_token :
    (lib : Libraries) (t flag : String)
    → (t == "") ≡ false
    → resolve lib (with_token t) flag ≡ token_subject lib t
unfolding resolve
resolve-with_token lib t flag e = rw e refl

token_subject_lem :
    (lib : Libraries) (t header body signature : String)
    → split t b'.' ≡ header ∷ body ∷ signature ∷ []
    → token_subject lib t ≡ subject_of lib (decode body)
unfolding token_subject
token_subject_lem lib t header body signature e = ground arith

-- The subject of a token alone is the one of its body.
resolve-token :
    (lib : Libraries) (header body signature flag : String)
    → Lacks b'.' header
    → Lacks b'.' body
    → Lacks b'.' signature
    → resolve lib (with_token (token header body signature)) flag ≡ subject_of lib (decode body)
resolve-token lib header body signature flag p q r =
    resolve-with_token lib (token header body signature) flag
      (token-not-empty header (body <> ("." <> signature)))
    ∙ token_subject_lem lib _ header body signature (split-token header body signature p q r)

Lacks-encode : (bs : List ℕ) → All IsByte bs → Lacks b'.' (encode bs)
unfolding encode
Lacks-encode [] p = tt
Lacks-encode (a ∷ []) p =
    (letter-no-dot (a / 4) (omega arith), (letter-no-dot (a % 4 * 16) (omega arith), tt))
Lacks-encode (a ∷ b ∷ []) p = (
  letter-no-dot (a / 4) (omega arith),
  (
    letter-no-dot (a % 4 * 16 + b / 16) (omega arith),
    (letter-no-dot (b % 16 * 4) (omega arith), tt),
  ),
)
Lacks-encode (a ∷ b ∷ c ∷ bs) p = (
  letter-no-dot (a / 4) (omega arith),
  (
    letter-no-dot (a % 4 * 16 + b / 16) (omega arith),
    (
      letter-no-dot (b % 16 * 4 + c / 64) (omega arith),
      (letter-no-dot (c % 64) (omega arith), Lacks-encode bs p.1.1.1),
    ),
  ),
)

-- Without a certificate, a token of three parts, separated by the only two dots, whose middle part
-- is the `RawStdEncoding` of bytes that `json.Unmarshal` reads a subject from, leads to that subject,
-- whatever the flag.
pub resolve-encode :
    (lib : Libraries) (header signature flag subject : String) (bytes : List ℕ)
    → Lacks b'.' header
    → Lacks b'.' signature
    → All IsByte bytes
    → lib.json_subject bytes ≡ ok subject
    → resolve lib (with_token (token header (encode bytes) signature)) flag ≡ some subject
resolve-encode lib header signature flag subject bytes p q bs e =
    rw
      (
        resolve-token lib header (encode bytes) signature flag p (Lacks-encode bytes bs) q,
        decode-encode bytes bs,
        e,
      )
      refl

-- A character that is not in the alphabet, and no line break.
abbrev pub Foreign : Char → Type 0
Foreign c =
    (sextet (code c) ≡ none)
    × (eqb (code c) b'\n' ≡ false)
    × (eqb (code c) b'\r' ≡ false)
    × (eqb (code c) b'.' ≡ false)

sextets-cons : (c : Char) (s : String) → Foreign c → sextets (c ∷ s) ≡ none
unfolding sextets
sextets-cons c s f = ground arith

sextets-none : (c : Char) (s : String) → sextets s ≡ none → sextets (c ∷ s) ≡ none
unfolding sextets
sextets-none c s e = ground arith

sextets-Foreign :
    (before : String) (c : Char) (after : String)
    → Foreign c
    → sextets (before <> (c ∷ after)) ≡ none
sextets-Foreign [] c after f = rw nil-append (sextets-cons c after f)
sextets-Foreign (d ∷ before) c after f =
    rw (cons-append d before (c ∷ after)) (sextets-none d _ (sextets-Foreign before c after f))

decode-none : (lib : Libraries) (s : String) → sextets s ≡ none → subject_of lib (decode s) ≡ none
unfolding decode
decode-none lib s e = ground arith

Lacks-append :
    (before : String) (c : Char) (after : String)
    → Lacks b'.' before
    → eqb (code c) b'.' ≡ false
    → Lacks b'.' after
    → Lacks b'.' (before <> (c ∷ after))
Lacks-append [] c after p e q = rw nil-append (e, q)
Lacks-append (d ∷ before) c after p e q =
    rw (cons-append d before (c ∷ after)) (p.0, Lacks-append before c after p.1 e q)

-- The two characters that only the alphabet of URLs has.
abbrev pub IsUrlOnly : Char → Type 0
IsUrlOnly c = (code c ≡ b'-') ⊎ (code c ≡ b'_')

IsUrlOnly-Foreign : (c : Char) → IsUrlOnly c → Foreign c
IsUrlOnly-Foreign c p = ground arith

-- Without a certificate, a token of three parts, separated by the only two dots, whose middle part
-- has a `-` or a `_` leads to no name, whatever the flag and the other characters.
pub resolve-IsUrlOnly :
    (lib : Libraries) (header before after signature flag : String) (c : Char)
    → Lacks b'.' header
    → Lacks b'.' before
    → Lacks b'.' after
    → Lacks b'.' signature
    → IsUrlOnly c
    → resolve lib (with_token (token header (before <> (c ∷ after)) signature)) flag ≡ none
resolve-IsUrlOnly lib header before after signature flag c p q r t u =
    let f = IsUrlOnly-Foreign c u in
    resolve-token lib header (before <> (c ∷ after)) signature flag p
      (Lacks-append before c after q f.3 r) t
    ∙ decode-none lib (before <> (c ∷ after)) (sextets-Foreign before c after f)
