-- ===== src/Mc/Connect/Password.antt =====
-- pkg/mc/minio.go: the passwords that `GeneratePassword` makes of random bytes.
use Prim.Native.Nat.{◌*◌, ◌/◌}
use Prim.Native.String.{String, [], ◌∷◌, count}
use Prim.Native.String.count
use minio_bucket_controller.Base.{ℕ, ◌+◌, ◌≡◌, refl, List, [], ◌∷◌, some, All, length, arith}
use minio_bucket_controller.Errors.{ok}
use minio_bucket_controller.Go.Base64.{encode, decode}
use minio_bucket_controller.Go.Base64.RoundTrip.{IsByte, decode-encode}
use minio_bucket_controller.Program.{random_bytes}
use minio_bucket_controller.Program.Run.{Environment, run}
use minio_bucket_controller.Mc.Connect.{generate_password}

count-encode : (bs : List ℕ) → count (encode bs) ≡ (length bs * 4 + 2) / 3
unfolding encode
count-encode [] = count.nil
count-encode (a ∷ []) = rw (count.cons, count.cons, count.nil) refl
count-encode (a ∷ b ∷ []) = rw (count.cons, count.cons, count.cons, count.nil) refl
count-encode (a ∷ b ∷ c ∷ bs) =
    rw (count.cons, count.cons, count.cons, count.cons, count-encode bs) (omega arith)

-- `GeneratePassword` with these random bytes.
generate_password_lem :
    (E : Environment) (s : E.State) (bs : List ℕ)
    → (E.answer (random_bytes 32) s).0 ≡ ok bs
    → (run E generate_password [] s).value ≡ some (encode bs)
unfolding run generate_password
generate_password_lem E s bs e = ground arith

-- Where the random source replies bytes, the process does not end, and the password is decoded to
-- just those bytes, so that no randomness is lost.
pub decode-generate_password :
    (E : Environment) (s : E.State) (bs : List ℕ)
    → All IsByte bs
    → (E.answer (random_bytes 32) s).0 ≡ ok bs
    → (p : String) × ((run E generate_password [] s).value ≡ some p) × (decode p ≡ ok bs)
decode-generate_password E s bs bytes e =
    (encode bs, generate_password_lem E s bs e, decode-encode bs bytes)

-- Where the random source replies the 32 bytes that it is asked for, the password has 43
-- characters.
pub count-generate_password :
    (E : Environment) (s : E.State) (bs : List ℕ)
    → length bs ≡ 32
    → (E.answer (random_bytes 32) s).0 ≡ ok bs
    → (p : String) × ((run E generate_password [] s).value ≡ some p) × (count p ≡ 43)
count-generate_password E s bs size e =
    (encode bs, generate_password_lem E s bs e, rw (count-encode bs, size) refl)
