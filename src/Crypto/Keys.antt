-- ===== src/Crypto/Keys.antt =====
-- pkg/crypto/keys.go: key pairs and Base58Check addresses.
use dmail.Prelude.{
  ℕ, zero, suc, Bool, true, false, ◌||◌, not, Option, [], ◌∷◌, ◌++◌, ltb, ◌==◌, if◌then◌else◌,
  length, take, drop, Result, ok, err, ◌>>=◌, or_err,
}
use dmail.Prelude.Bytes.{Bytes, codes, has_prefix}
use dmail.Crypto.{
  Primitives, Error, no_entropy, no_mnemonic, invalid_mnemonic, bad_prefix, bad_base58, bad_length,
  bad_checksum,
}

abbrev pub address_prefix : Bytes
address_prefix = codes "dmail:"

pub record KeyPair : Type 0 where
  pub public_key : Bytes
  pub private_key : Bytes
  pub mnemonic : Bytes

module _ (p : Primitives) where
  unfoldable pub key_pair_from_mnemonic : Bytes → Result Error KeyPair
  key_pair_from_mnemonic mnemonic =
      if not (p.is_mnemonic_valid mnemonic)
      then err invalid_mnemonic
      else let priv = p.new_key_from_seed (take 32 (p.new_seed mnemonic [])) in
        ok (record { public_key = p.public_key priv; private_key = priv; mnemonic = mnemonic })

  -- `none` is a failure of the source of randomness, here and below.
  unfoldable pub generate_key_pair : Option Bytes → Result Error KeyPair
  unfolding key_pair_from_mnemonic
  generate_key_pair random = do
    entropy ← or_err no_entropy random
    mnemonic ← or_err no_mnemonic (p.new_mnemonic entropy)
    key_pair_from_mnemonic mnemonic

  unfoldable pub address : Bytes → Bytes
  address pub_key = address_prefix ++ p.base58_encode (pub_key ++ take 4 (p.sha256 pub_key))

-- `for i := 0; i < 4; i++ { if checksum[i] != expected[i] ... }`, with the rounds that are left;
-- the slices are 4 and 32 bytes long.
unfoldable pub checksum_matches : ℕ → Bytes → Bytes → Bool
checksum_matches zero checksum expected = true
checksum_matches (suc n) (c ∷ checksum) (e ∷ expected) =
    if c == e then checksum_matches n checksum expected else false
checksum_matches (suc n) _ _ = false

module _ (p : Primitives) where
  -- The tests on the decoded payload.
  unfoldable pub check_payload : Bytes → Result Error Bytes
  unfolding checksum_matches
  check_payload decoded =
      if not (length decoded == 36)
      then err bad_length
      else let pub_key = take 32 decoded in
        if checksum_matches 4 (drop 32 decoded) (p.sha256 pub_key)
        then ok pub_key
        else err bad_checksum

  unfoldable pub pub_key_from_address : Bytes → Result Error Bytes
  unfolding check_payload has_prefix
  pub_key_from_address addr =
      if ltb (length addr) (length address_prefix) || not (has_prefix addr address_prefix)
      then err bad_prefix
      else do
        decoded ← or_err bad_base58 (p.base58_decode (drop (length address_prefix) addr))
        check_payload decoded
