-- ===== src/Crypto/Clamp.antt =====
-- The Curve25519 scalar that `ed25519PrivToCurve25519` makes is clamped.
use dmail.Prelude.{
  ℕ, zero, suc, ◌%◌, ◌≤◌, ◌<◌, bit_and, bit_or, ◌≡◌, refl, sym, ap, ◌∙◌, inl, inr, true, ◌&&◌, none,
  some, [], ◌∷◌, arith, ltb, leb, ◌==◌, ==_iff, Option-cases, length, get_elem?, take, length-take,
  All, All-get_elem?, get_elem?-take,
}
use dmail.Prelude.Bytes.{Bytes}
use dmail.Prelude.Bits.{all_below, all_below_sound}
use dmail.Pow.Zeros.{IsByte}
use dmail.Crypto.{Primitives}
use dmail.Crypto.Encrypt.{modify, clamp, ed25519_priv_to_curve25519}

-- A little-endian scalar of 32 bytes as RFC 7748 wants it: a multiple of 8, with bit 254 set and
-- bit 255 clear.
pub record IsClamped (k : Bytes) : Type 0 where
  pub size : length k ≡ 32
  pub low : (b : ℕ) → get_elem? k 0 ≡ some b → b % 8 ≡ 0
  pub high : (b : ℕ) → get_elem? k 31 ≡ some b → (64 ≤ b) × (b < 128)

low_table : all_below 256 (λ b. bit_and b 248 % 8 == 0) ≡ true
unfolding all_below
low_table = refl

high_table :
    all_below 256 (λ b. leb 64 (bit_or (bit_and b 127) 64) && ltb (bit_or (bit_and b 127) 64) 128)
    ≡ true
unfolding all_below
high_table = refl

low_byte : (b : ℕ) → IsByte b → bit_and b 248 % 8 ≡ 0
low_byte b h = (==_iff _ 0).0 (all_below_sound 256 (λ b. bit_and b 248 % 8 == 0) b low_table h)

high_byte :
    (b : ℕ) → IsByte b → (64 ≤ bit_or (bit_and b 127) 64) × (bit_or (bit_and b 127) 64 < 128)
high_byte b h =
    let t : (leb 64 (bit_or (bit_and b 127) 64) && ltb (bit_or (bit_and b 127) 64) 128) ≡ true =
      all_below_sound 256
        (λ b. leb 64 (bit_or (bit_and b 127) 64) && ltb (bit_or (bit_and b 127) 64) 128) b
        high_table h in
    ground arith

length-modify : (i : ℕ) (f : ℕ → ℕ) (h : Bytes) → length (modify i f h) ≡ length h
length-modify i f [] = refl
length-modify zero f (b ∷ h) = refl
length-modify (suc i) f (b ∷ h) = ap suc (length-modify i f h)

at_modify :
    (i : ℕ) (f : ℕ → ℕ) (h : Bytes)
    → get_elem? (modify i f h) i ≡ elim (get_elem? h i) [ none ↦ none | some b ↦ some (f b) ]
at_modify i f [] = refl
at_modify zero f (b ∷ h) = refl
at_modify (suc i) f (b ∷ h) = at_modify i f h

-- The two writes at index `i`.
high_writes :
    (i : ℕ) (h : Bytes) (b : ℕ)
    → All IsByte h
    → get_elem? (modify i (λ b. bit_or b 64) (modify i (λ b. bit_and b 127) h)) i ≡ some b
    → (64 ≤ b) × (b < 128)
high_writes i h b bytes e = elim (Option-cases (get_elem? h i)) [
  | inl missing ↦ absurd (
      ground (
        arith,
        missing,
        at_modify i (λ b. bit_and b 127) h,
        at_modify i (λ b. bit_or b 64) (modify i (λ b. bit_and b 127) h),
      ))
  | inr (c, at) ↦
      let same : bit_or (bit_and c 127) 64 ≡ b = ground (
        arith,
        at,
        at_modify i (λ b. bit_and b 127) h,
        at_modify i (λ b. bit_or b 64) (modify i (λ b. bit_and b 127) h),
      ) in
      rw (← same) (high_byte c (All-get_elem? IsByte h i bytes at))
]

clamp-IsClamped : (h : Bytes) → 32 ≤ length h → All IsByte h → IsClamped (take 32 (clamp h))
unfolding clamp
clamp-IsClamped [] l bytes = absurd (omega arith)
clamp-IsClamped (c ∷ h) l bytes = record {
  size = omega (
    arith,
    length-take 31 (modify 30 (λ b. bit_or b 64) (modify 30 (λ b. bit_and b 127) h)),
    length-modify 30 (λ b. bit_or b 64) (modify 30 (λ b. bit_and b 127) h),
    length-modify 30 (λ b. bit_and b 127) h,
  );
  low = λ b e. let same : bit_and c 248 ≡ b = ground arith in rw (← same) (low_byte c bytes.0);
  high = λ b e. high_writes 30 h b bytes.1 (
      sym (
        get_elem?-take 31 (modify 30 (λ b. bit_or b 64) (modify 30 (λ b. bit_and b 127) h)) 30
          (omega arith))
      ∙ e);
}

-- For every private key whose seed hashes to 64 bytes under SHA-512, the scalar that the conversion
-- returns has 32 bytes, its first byte is a multiple of 8, and its last lies from 64 to 127.
pub ed25519_priv_to_curve25519-IsClamped :
    (p : Primitives) (priv : Bytes)
    → length (p.sha512 (p.seed priv)) ≡ 64
    → All IsByte (p.sha512 (p.seed priv))
    → IsClamped (ed25519_priv_to_curve25519 p priv)
unfolding ed25519_priv_to_curve25519
ed25519_priv_to_curve25519-IsClamped p priv l bytes = clamp-IsClamped _ (omega arith) bytes
