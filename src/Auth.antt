-- ===== src/Auth.antt =====
-- pkg/auth: passwords, the encryption of private keys and tokens (auth.go), and the cache of
-- sessions (session_cache.go). Argon2id, AES-GCM and the JWT package are the parameter `Ciphers`.
pub mod Sessions
pub mod Passwords
pub mod Cache
use dmail.Prelude.{
  ◌>>=◌, ◌>>◌, ℕ, ◌+◌, bit_or, bit_xor, ◌≡◌, Bool, false, not, Option, none, some, [], ◌∷◌, ◌==◌,
  if◌then◌else◌, length, Result, ok, fail_if, or_err,
}
use dmail.Prelude.Bytes.{Bytes, codes}

-- A method of the JWT package, with its name in the header `alg`: `*jwt.SigningMethodHMAC`, or
-- another type.
pub data SigningMethod : Type 0 where
  hmac other : Bytes → SigningMethod

abbrev pub signing_method_hs256 : SigningMethod
signing_method_hs256 = hmac (codes "HS256")

pub record Ciphers : Type 0 where
  -- argon2.IDKey at the parameters of this package, from a password and a salt
  pub id_key : Bytes → Bytes → Bytes
  -- aes.NewCipher and cipher.NewGCM accept this key
  pub accepts_key : Bytes → Bool
  -- gcm.Seal and gcm.Open: key, nonce, text
  pub seal : Bytes → Bytes → Bytes → Bytes
  pub open_sealed : Bytes → Bytes → Bytes → Option Bytes
  -- NewWithClaims and SignedString: method, subject, secret, times of issue and expiry
  pub sign_token : SigningMethod → Bytes → Bytes → ℕ → ℕ → Option Bytes
  -- Parse, with its key function, at a time: the claim `sub` of a token that it accepts
  pub parse_token : Bytes → (SigningMethod → Option Bytes) → ℕ → Option (Option Bytes)
  -- the method that a well-formed token names
  pub token_method : Bytes → Option SigningMethod
  -- whether its signature verifies under a method and a key and its times hold, with the claim `sub`
  pub verified_claims : Bytes → SigningMethod → Bytes → ℕ → Option (Option Bytes)

-- jwt.Parse asks the key function for the key of the token's method, refuses the token where there is
-- none, and else verifies the token under that method and that key.
pub record IsParser (k : Ciphers) : Type 0 where
  pub malformed :
      (token : Bytes) (key_of : SigningMethod → Option Bytes) (now : ℕ)
      → k.token_method token ≡ none
      → k.parse_token token key_of now ≡ none
  pub keyless :
      (token : Bytes) (key_of : SigningMethod → Option Bytes) (now : ℕ) (method : SigningMethod)
      → k.token_method token ≡ some method
      → key_of method ≡ none
      → k.parse_token token key_of now ≡ none
  pub keyed :
      (token key : Bytes) (key_of : SigningMethod → Option Bytes) (now : ℕ) (method : SigningMethod)
      → k.token_method token ≡ some method
      → key_of method ≡ some key
      → k.parse_token token key_of now ≡ k.verified_claims token method key now

pub data Error : Type 0 where
  no_salt bad_key no_nonce cannot_decrypt cannot_sign bad_token missing_sub : Error

-- `diff |= computed[i] ^ hash[i]` over two slices of one length.
unfoldable pub fold_diff : ℕ → Bytes → Bytes → ℕ
fold_diff diff (c ∷ computed) (h ∷ hash) = fold_diff (bit_or diff (bit_xor c h)) computed hash
fold_diff diff [] _ = diff
fold_diff diff (c ∷ computed) [] = diff

-- The test of `VerifyPassword` on the computed and the stored hash.
unfoldable pub equal_hashes : Bytes → Bytes → Bool
unfolding fold_diff
equal_hashes computed hash =
    if not (length computed == length hash) then false else fold_diff 0 computed hash == 0

module _ (k : Ciphers) where
  -- The salt comes from `rand.Read`; the result is the hash and the salt.
  unfoldable pub hash_password : Bytes → Option Bytes → Result Error (Bytes × Bytes)
  hash_password password random = do salt ← or_err no_salt random; ok (k.id_key password salt, salt)

  unfoldable pub verify_password : Bytes → Bytes → Bytes → Bool
  verify_password password hash salt = equal_hashes (k.id_key password salt) hash

  -- The ciphertext, the salt and the nonce.
  unfoldable pub encrypt_private_key :
      Bytes → Bytes → Option Bytes → Option Bytes → Result Error (Bytes × Bytes × Bytes)
  encrypt_private_key priv_key password random_salt random_nonce = do
    salt ← or_err no_salt random_salt
    let key = k.id_key password salt
    fail_if (not (k.accepts_key key)) bad_key
    nonce ← or_err no_nonce random_nonce
    ok (k.seal key nonce priv_key, salt, nonce)

  unfoldable pub decrypt_private_key : Bytes → Bytes → Bytes → Bytes → Result Error Bytes
  decrypt_private_key ciphertext salt nonce password = do
    let key = k.id_key password salt
    fail_if (not (k.accepts_key key)) bad_key
    or_err cannot_decrypt (k.open_sealed key nonce ciphertext)

  -- `expiry` is a duration in nanoseconds.
  unfoldable pub generate_jwt : Bytes → Bytes → ℕ → ℕ → Result Error Bytes
  generate_jwt user_id secret now expiry =
      or_err cannot_sign (k.sign_token signing_method_hs256 user_id secret now (now + expiry))

  -- The key function of `ValidateJWT`: a method of another type than HMAC is refused.
  unfoldable pub key_for : Bytes → SigningMethod → Option Bytes
  key_for secret (hmac _) = some secret
  key_for secret (other _) = none

  unfoldable pub validate_jwt : Bytes → Bytes → ℕ → Result Error Bytes
  unfolding key_for
  validate_jwt token secret now = do
    claims ← or_err bad_token (k.parse_token token (key_for secret) now)
    or_err missing_sub claims
