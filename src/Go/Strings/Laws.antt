-- ===== src/Go/Strings/Laws.antt =====
-- `strings.Split`: the parts of a text that is put together.
use Prim.Native.Char.{Char, code}
use Prim.Native.String.{[], ◌∷◌}
use text.Mathlib.TextLemmas.{nil-append, cons-append}
use minio_bucket_controller.Base.{ℕ, String, ◌<>◌, ◌≡◌, refl, true, false, [], ◌∷◌, eqb, arith}
use minio_bucket_controller.Go.Strings.{split, extend}

-- The separator does not stand in the text.
abbrev pub Lacks : ℕ → String → Type 0
Lacks separator [] = Unit
Lacks separator (c ∷ s) = (eqb (code c) separator ≡ false) × Lacks separator s

split-separator :
    (c : Char) (s : String) (separator : ℕ)
    → eqb (code c) separator ≡ true
    → split (c ∷ s) separator ≡ "" ∷ split s separator
unfolding split
split-separator c s separator e = ground arith

split-other :
    (c : Char) (s : String) (separator : ℕ)
    → eqb (code c) separator ≡ false
    → split (c ∷ s) separator ≡ extend c (split s separator)
unfolding split
split-other c s separator e = ground arith

pub split-Lacks : (s : String) (separator : ℕ) → Lacks separator s → split s separator ≡ s ∷ []
unfolding split
split-Lacks [] separator p = refl
split-Lacks (c ∷ s) separator p = ground (arith, split-Lacks s separator p.1)

-- A first part, the separator and a rest.
pub split-append :
    (part : String) (c : Char) (rest : String) (separator : ℕ)
    → Lacks separator part
    → eqb (code c) separator ≡ true
    → split (part <> (c ∷ rest)) separator ≡ part ∷ split rest separator
split-append [] c rest separator p e = rw nil-append (split-separator c rest separator e)
split-append (d ∷ part) c rest separator p e =
    rw (cons-append, split-other d _ separator p.0, split-append part c rest separator p.1 e) refl
