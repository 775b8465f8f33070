-- ===== src/Tests/Crypto.antt =====
-- Proof of work, addresses, keys and encryption at concrete inputs.
use dmail.Prelude.{
  ℕ, ◌≤◌, ◌<◌, ◌≡◌, refl, ◌↔◌, true, false, none, some, [], ◌∷◌, ◌++◌, arith, length, take, drop,
  ok,
}
use dmail.Prelude.Bytes.{Bytes, codes, has_prefix}
use dmail.Pow
use dmail.Pow.Zeros.{has_leading_zero_bits-zeros, bits, zeros}
use dmail.Pow.Search.{compute-least}
use dmail.Crypto.Keys.{address_prefix, pub_key_from_address}
use dmail.Crypto.Encrypt.{encrypt, decrypt, ed25519_priv_to_curve25519}
use dmail.Crypto.Addresses.{pub_key_from_address_iff}
use dmail.Crypto.Clamp.{IsClamped, ed25519_priv_to_curve25519-IsClamped}
use dmail.Crypto.RoundTrip.{decrypt-encrypt}
use dmail.Tests.Toys.{
  zero_bytes, zero_bytes-IsByte, toy, toy_base, toy-IsSha256, toy-IsEncoding, toy-IsSignature,
  toy-IsBox,
}

-- Nine zero bits before the first one, and not ten; a slice that is too short panics.

has_leading_zero_bits_nine :
    (Pow.has_leading_zero_bits (0 ∷ 64 ∷ []) 9 ≡ some true)
    × (Pow.has_leading_zero_bits (0 ∷ 64 ∷ []) 10 ≡ some false)
    × (Pow.has_leading_zero_bits (0 ∷ []) 9 ≡ none)
unfolding Pow.has_leading_zero_bits Pow.check_bytes Pow.check_rest Pow.mask
has_leading_zero_bits_nine = (refl, refl, refl)

has_leading_zero_bits-zeros_example :
    Pow.has_leading_zero_bits (0 ∷ 64 ∷ []) 10 ≡ some (zeros 10 (bits (0 ∷ 64 ∷ [])))
has_leading_zero_bits-zeros_example =
    has_leading_zero_bits-zeros (0 ∷ 64 ∷ []) 10 (omega arith, (omega arith, tt)) (omega arith)

solved_at_three : Pow.verify toy.sha256 (codes "hi") 3 20 ≡ some true
unfolding Pow.verify
solved_at_three = refl

compute-least_example :
    (r : ℕ) × (Pow.compute toy.sha256 (codes "hi") 20 ≡ some r)
    × (Pow.verify toy.sha256 (codes "hi") r 20 ≡ some true)
    × (r ≤ 3)
    × ((m : ℕ) → m < r → Pow.verify toy.sha256 (codes "hi") m 20 ≡ some false)
compute-least_example =
    compute-least toy.sha256 toy-IsSha256 (codes "hi") 20 (omega arith) 3 (omega arith)
      solved_at_three

abbrev pub zero_address : Bytes
zero_address = address_prefix ++ zero_bytes 36

pub_key_from_address_iff_example : (pub_key_from_address toy zero_address ≡ ok (zero_bytes 32)) ↔ (
    (has_prefix zero_address address_prefix ≡ true)
    × (length (zero_bytes 32) ≡ 32)
    × (toy.base58_decode (drop 6 zero_address)
        ≡ some (zero_bytes 32 ++ take 4 (toy.sha256 (zero_bytes 32)))))
pub_key_from_address_iff_example =
    pub_key_from_address_iff toy toy-IsEncoding zero_address (zero_bytes 32)

ed25519_priv_to_curve25519-IsClamped_example :
    IsClamped (ed25519_priv_to_curve25519 toy (codes "alice"))
ed25519_priv_to_curve25519-IsClamped_example =
    ed25519_priv_to_curve25519-IsClamped toy (codes "alice") refl (zero_bytes-IsByte 64)

decrypt-encrypt_example :
    (c : Bytes) × (encrypt toy
        (codes "hello")
        (toy.public_key (codes "bob"))
        (codes "alice")
        (some (zero_bytes 24))
      ≡ ok c)
    × (decrypt toy c (toy.public_key (codes "alice")) (codes "bob") ≡ ok (codes "hello"))
decrypt-encrypt_example =
    decrypt-encrypt toy toy_base toy-IsBox toy-IsSignature (codes "hello") (codes "alice")
      (codes "bob") (zero_bytes 24) refl
