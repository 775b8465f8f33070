-- ===== src/Crypto/Assumptions.antt =====
-- What the program relies on of the packages that it calls, as documented.
use dmail.Prelude.{◌+◌, ◌≡◌, true, some, length, take}
use dmail.Prelude.Bytes.{Bytes}
use dmail.Crypto.{Primitives}
use dmail.Crypto.Encrypt.{box_overhead, clamp}

-- SHA-256 gives 32 bytes, and base58 decodes what it encoded.
pub record IsEncoding (p : Primitives) : Type 0 where
  pub sha256_length : (b : Bytes) → length (p.sha256 b) ≡ 32
  pub decode_encode : (b : Bytes) → p.base58_decode (p.base58_encode b) ≡ some b

-- Ed25519: a signature under a private key is accepted under its public key, which has 32 bytes.
pub record IsSignature (p : Primitives) : Type 0 where
  pub accepts :
      (priv content : Bytes) → p.verify (p.public_key priv) content (p.sign priv content) ≡ true
  pub public_length : (priv : Bytes) → length (p.public_key priv) ≡ 32

-- NaCl box: with `base` the X25519 public key of a scalar, a message sealed from `a` to the key of
-- `b` is opened from the key of `a` by `b`, and is longer by the overhead. The Montgomery form of
-- an Ed25519 public key is the X25519 key of the clamped hash of its seed (RFC 7748, RFC 8032).
pub record IsBox (p : Primitives) (base : Bytes → Bytes) : Type 0 where
  pub open_seal :
      (m nonce a b : Bytes) → p.box_open (p.box_seal m nonce (base b) a) nonce (base a) b ≡ some m
  pub seal_length :
      (m nonce k a : Bytes) → length (p.box_seal m nonce k a) ≡ length m + box_overhead
  pub montgomery :
      (priv : Bytes)
      → p.bytes_montgomery (p.public_key priv)
        ≡ some (base (take 32 (clamp (p.sha512 (p.seed priv)))))
