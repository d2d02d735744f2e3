-- ===== src/Platform/Totpsecret/RoundTrip.antt =====
-- What is encrypted is decrypted again.
use beebase_auth_service.Prelude.{
  sym, ℕ, ◌≡◌, refl, ap, false, Option, none, some, List, [], ◌∷◌, ◌++◌, ltb, arith,
}
use beebase_auth_service.World.{ok, Env, World}
use beebase_auth_service.World.Ensures.{Ensures-ok, Ensures-answer}
use beebase_auth_service.Platform.Totpsecret.{Aead, length, take, drop, sealed, decrypt, encrypt}

take-append : (xs ys : List ℕ) → take (length xs) (xs ++ ys) ≡ xs
take-append [] ys = refl
take-append (x ∷ xs) ys = ap (λ t. x ∷ t) (take-append xs ys)

drop-append : (xs ys : List ℕ) → drop (length xs) (xs ++ ys) ≡ ys
drop-append [] ys = refl
drop-append (x ∷ xs) ys = drop-append xs ys

-- The nonce is not longer than what it stands in front of.
append-long_enough : (xs ys : List ℕ) → ltb (length (xs ++ ys)) (length xs) ≡ false
append-long_enough [] ys = ground arith
append-long_enough (x ∷ xs) ys = let later = append-long_enough xs ys in ground (arith, later)

sealed-decrypts :
    (aead : Aead) (plaintext c : List ℕ) (nonce : Option (List ℕ))
    → ((n p : List ℕ) → aead.open_sealed n (aead.seal n p) ≡ some p)
    → ((bytes : List ℕ) → nonce ≡ some bytes → length bytes ≡ aead.nonce_size)
    → sealed aead plaintext nonce ≡ ok c
    → decrypt aead c ≡ ok plaintext
unfolding decrypt
sealed-decrypts aead plaintext c none opens size e = absurd (cc e)
sealed-decrypts aead plaintext c (some nonce) opens size e =
    let text : nonce ++ aead.seal nonce plaintext ≡ c = cc e in
    let long = append-long_enough nonce (aead.seal nonce plaintext) in
    rw
      (
        sym text,
        sym (size nonce refl),
        long,
        take-append nonce (aead.seal nonce plaintext),
        drop-append nonce (aead.seal nonce plaintext),
        opens nonce plaintext,
      )
      refl

-- Where the random source gives as many bytes as it is asked for and the AEAD opens what it has
-- sealed, Decrypt gives back what Encrypt was given.
pub encrypt-decrypt :
    {S : Type 0} (env : Env) (aead : Aead) (plaintext c : List ℕ) (w w' : World S)
    → ((n p : List ℕ) → aead.open_sealed n (aead.seal n p) ≡ some p)
    → ((n k : ℕ) (bytes : List ℕ) → env.rand_read n k ≡ some bytes → length bytes ≡ k)
    → encrypt env aead plaintext w ≡ (ok c, w')
    → decrypt aead c ≡ ok plaintext
unfolding encrypt
encrypt-decrypt env aead plaintext c w w' opens size e =
    let (answer, same) =
      Ensures-ok (Ensures-answer λ n. sealed aead plaintext (env.rand_read n aead.nonce_size)) c w'
        e in
    sealed-decrypts aead plaintext c (env.rand_read w.event aead.nonce_size) opens
      (size w.event aead.nonce_size) answer
