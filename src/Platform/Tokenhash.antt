-- ===== src/Platform/Tokenhash.antt =====
-- internal/platform/tokenhash/tokenhash.go. SHA-256 is a parameter; the two encodings are those of
-- the Go packages hex and base64.
use beebase_auth_service.Prelude.{
  ℕ, ◌+◌, ◌-◌, ◌*◌, ◌/◌, ◌%◌, Option, none, some, List, [], ◌∷◌, ◌++◌, Text, ltb, ◌==◌,
  if◌then◌else◌,
}
use beebase_auth_service.Errors.{failed, wrap}
use beebase_auth_service.World.{ok, err, Env, App, Result, ask}

abbrev pub raw_token_bytes : ℕ
raw_token_bytes = 32

-- A digit of base64's URL alphabet.
abbrev pub url_digit : ℕ → ℕ
url_digit n =
    if ltb n 26
    then n + 65
    else if ltb n 52
    then n + 71
    else if ltb n 62
    then n - 4
    else if n == 62
    then 45
    else 95

-- `base64.RawURLEncoding.EncodeToString`: no padding.
unfoldable pub encode_raw_url : List ℕ → Text
encode_raw_url [] = []
encode_raw_url (a ∷ []) = url_digit (a / 4) ∷ url_digit (a % 4 * 16) ∷ []
encode_raw_url (a ∷ b ∷ []) =
    url_digit (a / 4) ∷ url_digit (a % 4 * 16 + b / 16) ∷ url_digit (b % 16 * 4) ∷ []
encode_raw_url (a ∷ b ∷ c ∷ rest) =
    url_digit (a / 4)
    ∷ url_digit (a % 4 * 16 + b / 16)
    ∷ url_digit (b % 16 * 4 + c / 64)
    ∷ url_digit (c % 64)
    ∷ encode_raw_url rest

abbrev pub hex_digit : ℕ → ℕ
hex_digit n = if ltb n 10 then n + 48 else n + 87

-- `hex.EncodeToString`.
unfoldable pub hex_encode : List ℕ → Text
hex_encode [] = []
hex_encode (b ∷ rest) = hex_digit (b / 16) ∷ hex_digit (b % 16) ∷ hex_encode rest

-- `[]byte(s)`: the bytes of a code point, and of a text, in UTF-8.
abbrev pub utf8_bytes : ℕ → List ℕ
utf8_bytes c =
    if ltb c 0x80
    then c ∷ []
    else if ltb c 0x800
    then (0xc0 + c / 64) ∷ (0x80 + c % 64) ∷ []
    else if ltb c 0x10000
    then (0xe0 + c / 4096) ∷ (0x80 + c / 64 % 64) ∷ (0x80 + c % 64) ∷ []
    else (0xf0 + c / 262144) ∷ (0x80 + c / 4096 % 64) ∷ (0x80 + c / 64 % 64) ∷ (0x80 + c % 64) ∷ []

unfoldable pub to_bytes : Text → List ℕ
to_bytes [] = []
to_bytes (c ∷ s) = utf8_bytes c ++ to_bytes s

-- `Hash`, over `sha256.Sum256`.
unfoldable pub hash : (List ℕ → List ℕ) → Text → Text
unfolding hex_encode to_bytes
hash sha256 raw = hex_encode (sha256 (to_bytes raw))

abbrev token_of : Option (List ℕ) → Result Text
token_of none = err (wrap "tokenhash: generate" (failed "random source"))
token_of (some bytes) = ok (encode_raw_url bytes)

module _ {S : Type 0} (env : Env) where
  unfoldable pub generate : App S Text
  generate = ask λ n. token_of (env.rand_read n raw_token_bytes)
