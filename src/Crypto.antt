-- ===== src/Crypto.antt =====
-- pkg/crypto: addresses, key conversion, encryption and signatures (keys.go, encrypt.go). The
-- packages that it calls (crypto/ed25519, crypto/sha256, crypto/sha512, edwards25519, nacl/box,
-- base58, bip39) are the parameter `Primitives`; what is relied on of them is in `Assumptions`.
pub mod Keys
pub mod Encrypt
pub mod Assumptions
pub mod Addresses
pub mod Clamp
pub mod RoundTrip
use dmail.Prelude.{Bool, Option}
use dmail.Prelude.Bytes.{Bytes}

pub record Primitives : Type 0 where
  pub sha256 : Bytes → Bytes
  pub sha512 : Bytes → Bytes
  -- base58.Encode and base58.Decode
  pub base58_encode : Bytes → Bytes
  pub base58_decode : Bytes → Option Bytes
  -- bip39.NewEntropy is the source of randomness; NewMnemonic, IsMnemonicValid, NewSeed
  pub new_mnemonic : Bytes → Option Bytes
  pub is_mnemonic_valid : Bytes → Bool
  pub new_seed : Bytes → Bytes → Bytes
  -- ed25519.NewKeyFromSeed, PrivateKey.Public, PrivateKey.Seed, Sign, Verify
  pub new_key_from_seed : Bytes → Bytes
  pub public_key : Bytes → Bytes
  pub seed : Bytes → Bytes
  pub sign : Bytes → Bytes → Bytes
  pub verify : Bytes → Bytes → Bytes → Bool
  -- edwards25519: Point.SetBytes, then BytesMontgomery
  pub bytes_montgomery : Bytes → Option Bytes
  -- box.Seal without its `out` prefix, and box.Open: message, nonce, peer's key, own key
  pub box_seal : Bytes → Bytes → Bytes → Bytes → Bytes
  pub box_open : Bytes → Bytes → Bytes → Bytes → Option Bytes

pub data Error : Type 0 where
  no_entropy no_mnemonic invalid_mnemonic : Error
  bad_prefix bad_base58 bad_length bad_checksum : Error
  bad_key_length bad_point no_nonce too_short cannot_open : Error
