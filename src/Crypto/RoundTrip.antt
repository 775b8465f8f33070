-- ===== src/Crypto/RoundTrip.antt =====
-- What one key pair encrypts for another, the other decrypts.
use dmail.Prelude.{◌≡◌, some, ◌++◌, arith, length, length-append, take-append, drop-append, ok}
use dmail.Prelude.Bytes.{Bytes}
use dmail.Crypto.{Primitives}
use dmail.Crypto.Assumptions.{IsBox, IsSignature}
use dmail.Crypto.Encrypt.{ed25519_pub_to_curve25519, ed25519_priv_to_curve25519, encrypt, decrypt}

module _ (p : Primitives) (base : Bytes → Bytes) (box : IsBox p base) (s : IsSignature p) where
  ed25519_pub_to_curve25519-public_key :
      (priv : Bytes)
      → ed25519_pub_to_curve25519 p (p.public_key priv)
        ≡ ok (base (ed25519_priv_to_curve25519 p priv))
  unfolding ed25519_pub_to_curve25519 ed25519_priv_to_curve25519
  ed25519_pub_to_curve25519-public_key priv =
      ground (arith, s.public_length priv, box.montgomery priv)

  -- With a nonce of 24 bytes, encryption for a recipient succeeds, and decryption with the
  -- recipient's private key and the sender's public key gives the plaintext back.
  pub decrypt-encrypt :
      (plaintext sender recipient nonce : Bytes)
      → length nonce ≡ 24
      → (c : Bytes) × (encrypt p plaintext (p.public_key recipient) sender (some nonce) ≡ ok c)
        × (decrypt p c (p.public_key sender) recipient ≡ ok plaintext)
  unfolding encrypt decrypt
  decrypt-encrypt plaintext sender recipient nonce len =
      let a = ed25519_priv_to_curve25519 p sender in
      let b = ed25519_priv_to_curve25519 p recipient in
      let sealed = p.box_seal plaintext nonce (base b) a in
      (
        nonce ++ sealed,
        ground (arith, ed25519_pub_to_curve25519-public_key recipient),
        ground (
          arith,
          ed25519_pub_to_curve25519-public_key sender,
          length-append nonce sealed,
          box.seal_length plaintext nonce (base b) a,
          take-append nonce sealed 24 len,
          drop-append nonce sealed 24 len,
          box.open_seal plaintext nonce a b,
        ),
      )
