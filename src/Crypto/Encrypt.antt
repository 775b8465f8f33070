-- ===== src/Crypto/Encrypt.antt =====
-- pkg/crypto/encrypt.go: NaCl box under converted Ed25519 keys, and signatures.
use dmail.Prelude.{
  ℕ, zero, suc, ◌+◌, bit_and, bit_or, Bool, not, Option, none, some, [], ◌∷◌, ◌++◌, ltb, ◌==◌,
  if◌then◌else◌, length, take, drop, Result, ok, err, ◌>>=◌, or_err,
}
use dmail.Prelude.Bytes.{Bytes}
use dmail.Crypto.{Primitives, Error, bad_key_length, bad_point, no_nonce, too_short, cannot_open}

-- `box.Overhead`
abbrev pub box_overhead : ℕ
box_overhead = 16

-- `h[i] = f(h[i])`
abbrev pub modify : ℕ → (ℕ → ℕ) → Bytes → Bytes
modify i f [] = []
modify zero f (b ∷ h) = f b ∷ h
modify (suc i) f (b ∷ h) = b ∷ modify i f h

-- h[0] &= 248, h[31] &= 127, h[31] |= 64
unfoldable pub clamp : Bytes → Bytes
clamp h =
    modify 31 (λ b. bit_or b 64) (modify 31 (λ b. bit_and b 127) (modify 0 (λ b. bit_and b 248) h))

module _ (p : Primitives) where
  unfoldable pub ed25519_pub_to_curve25519 : Bytes → Result Error Bytes
  ed25519_pub_to_curve25519 pub_key =
      if not (length pub_key == 32)
      then err bad_key_length
      else or_err bad_point (p.bytes_montgomery pub_key)

  unfoldable pub ed25519_priv_to_curve25519 : Bytes → Bytes
  unfolding clamp
  ed25519_priv_to_curve25519 priv = take 32 (clamp (p.sha512 (p.seed priv)))

  -- The nonce comes from `rand.Read`.
  unfoldable pub encrypt : Bytes → Bytes → Bytes → Option Bytes → Result Error Bytes
  unfolding ed25519_pub_to_curve25519 ed25519_priv_to_curve25519
  encrypt plaintext recipient_pub sender_priv random = do
    recipient_curve ← ed25519_pub_to_curve25519 recipient_pub
    nonce ← or_err no_nonce random
    ok (
        nonce
        ++ p.box_seal plaintext nonce recipient_curve (ed25519_priv_to_curve25519 sender_priv))

  unfoldable pub decrypt : Bytes → Bytes → Bytes → Result Error Bytes
  unfolding ed25519_pub_to_curve25519 ed25519_priv_to_curve25519
  decrypt ciphertext sender_pub recipient_priv =
      if ltb (length ciphertext) (24 + box_overhead) then err too_short else do
        sender_curve ← ed25519_pub_to_curve25519 sender_pub
        or_err cannot_open (
            p.box_open (drop 24 ciphertext) (take 24 ciphertext) sender_curve
              (ed25519_priv_to_curve25519 recipient_priv))

  unfoldable pub sign : Bytes → Bytes → Bytes
  sign content priv_key = p.sign priv_key content

  -- `none` is the panic of ed25519.Verify on a key that has not 32 bytes.
  unfoldable pub verify_signature : Bytes → Bytes → Bytes → Option Bool
  verify_signature content sig pub_key =
      if length pub_key == 32 then some (p.verify pub_key content sig) else none
