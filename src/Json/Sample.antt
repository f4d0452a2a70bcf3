-- ===== src/Json/Sample.antt =====
-- A concrete codec for the tests: each field, its bytes raised by one, ended by a zero byte.
use mathlib.Core.Option
use revaulter.Base.{ℕ, zero, suc, Text, ◌≡◌, refl, false, Option, none, some, [], ◌∷◌, is_empty}
use revaulter.Json.{Codec}
use revaulter.Protocol.Envelope.{Jwk, ResponseEnvelope}

put : Text → Text → Text
put [] rest = 0 ∷ rest
put (c ∷ s) rest = suc c ∷ put s rest

abbrev cons_first : ℕ → Text × Text → Text × Text
cons_first c (s, rest) = (c ∷ s, rest)

get : Text → Option (Text × Text)
get [] = none
get (zero ∷ rest) = some ([], rest)
get (suc c ∷ rest) = Option.map (cons_first c) (get rest)

get-put : (s rest : Text) → get (put s rest) ≡ some (s, rest)
unfolding get put
get-put [] rest = refl
get-put (c ∷ s) rest = rw (get-put s rest)

put_nonempty : (s rest : Text) → is_empty (put s rest) ≡ false
unfolding put
put_nonempty [] rest = refl
put_nonempty (c ∷ s) rest = refl

infixl 5 ◌>>=◌
abbrev ◌>>=◌ : {A B : Type 0} → Option A → (A → Option B) → Option B
none >>= f = none
some a >>= f = f a

put_jwk : Jwk → Text → Text
put_jwk j rest =
    put j.kty (put j.crv (put j.x (put j.y (put j.d (put j.kid (put j.alg (put j.key_use rest)))))))

get_jwk : Text → Option (Jwk × Text)
get_jwk t = do
  (kty, t) ← get t
  (crv, t) ← get t
  (x, t) ← get t
  (y, t) ← get t
  (d, t) ← get t
  (kid, t) ← get t
  (alg, t) ← get t
  (key_use, t) ← get t
  some (
    record { kty = kty; crv = crv; x = x; y = y; d = d; kid = kid; alg = alg; key_use = key_use },
    t,
  )

get_jwk-put_jwk : (j : Jwk) (rest : Text) → get_jwk (put_jwk j rest) ≡ some (j, rest)
unfolding get_jwk put_jwk
get_jwk-put_jwk j rest = simp get-put

pub write : ResponseEnvelope → Text
write e = put e.transport_alg (
    put_jwk e.browser_ephemeral_public_key
      (put e.mlkem_ciphertext (put e.nonce (put e.ciphertext (put e.result_type [])))))

pub read : Text → Option ResponseEnvelope
read t = do
  (transport_alg, t) ← get t
  (key, t) ← get_jwk t
  (mlkem, t) ← get t
  (nonce, t) ← get t
  (ciphertext, t) ← get t
  (result_type, t) ← get t
  some (record {
    transport_alg = transport_alg;
    browser_ephemeral_public_key = key;
    mlkem_ciphertext = mlkem;
    nonce = nonce;
    ciphertext = ciphertext;
    result_type = result_type;
  })

pub read-write : (e : ResponseEnvelope) → read (write e) ≡ some e
unfolding read write
read-write e = simp (get-put, get_jwk-put_jwk)

pub write_nonempty : (e : ResponseEnvelope) → is_empty (write e) ≡ false
unfolding write
write_nonempty e = put_nonempty e.transport_alg _

unfoldable pub codec : Codec ResponseEnvelope
unfolding read write get put get_jwk put_jwk
codec = record {
  marshal = write;
  unmarshal = read;
  unmarshal-marshal = read-write;
  marshal_nonempty = write_nonempty;
}
