-- ===== src/Platform/Totpsecret.antt =====
-- internal/platform/totpsecret/cipher.go, over a parameter for AES-256-GCM.
pub mod RoundTrip
use beebase_auth_service.Prelude.{
  ◌==◌, not, ℕ, Option, none, some, List, [], ◌∷◌, ◌++◌, ltb, suc, zero, if◌then◌else◌,
}
use beebase_auth_service.Errors.{failed, wrap}
use beebase_auth_service.World.{wrap_error, ok, err, Env, App, Result, ask}

-- A `cipher.AEAD` under the key: `open_sealed` is `Open`, which fails on what was not sealed.
pub record Aead : Type 0 where
  pub nonce_size : ℕ
  pub seal : List ℕ → List ℕ → List ℕ
  pub open_sealed : List ℕ → List ℕ → Option (List ℕ)

abbrev pub length : List ℕ → ℕ
length [] = 0
length (x ∷ xs) = suc (length xs)

abbrev pub take : ℕ → List ℕ → List ℕ
take zero xs = []
take (suc n) [] = []
take (suc n) (x ∷ xs) = x ∷ take n xs

abbrev pub drop : ℕ → List ℕ → List ℕ
drop zero xs = xs
drop (suc n) [] = []
drop (suc n) (x ∷ xs) = drop n xs

-- `Seal` appends to its first argument, the nonce.
abbrev pub sealed : Aead → List ℕ → Option (List ℕ) → Result (List ℕ)
sealed aead plaintext none = err (wrap "totpsecret: generate nonce" (failed "random source"))
sealed aead plaintext (some nonce) = ok (nonce ++ aead.seal nonce plaintext)

abbrev pub opened : Option (List ℕ) → Result (List ℕ)
opened none = err (wrap "totpsecret: decrypt" (failed "message authentication failed"))
opened (some plaintext) = ok plaintext

unfoldable pub decrypt : Aead → List ℕ → Result (List ℕ)
decrypt aead ciphertext =
    if ltb (length ciphertext) aead.nonce_size
    then err (failed "totpsecret: ciphertext too short")
    else opened
        (aead.open_sealed (take aead.nonce_size ciphertext) (drop aead.nonce_size ciphertext))

module _ {S : Type 0} (env : Env) where
  unfoldable pub encrypt : Aead → List ℕ → App S (List ℕ)
  encrypt aead plaintext = ask λ n. sealed aead plaintext (env.rand_read n aead.nonce_size)

abbrev pub key_size : ℕ
key_size = 32

abbrev pub gcm_of : {B : Type 0} → (B → Result Aead) → Result B → Result Aead
gcm_of new_gcm (err e) = err (wrap "totpsecret: new cipher block" e)
gcm_of new_gcm (ok block) = wrap_error "totpsecret: new gcm" (new_gcm block)

-- Over `aes.NewCipher` and `cipher.NewGCM`.
unfoldable pub new_cipher :
    {B : Type 0} → (List ℕ → Result B) → (B → Result Aead) → List ℕ → Result Aead
new_cipher new_block new_gcm key =
    if not (length key == key_size)
    then err (failed "totpsecret: key size")
    else gcm_of new_gcm (new_block key)
