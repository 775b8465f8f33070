-- ===== src/Pow/Zeros.antt =====
-- `hasLeadingZeroBits` against the bits of the hash, the most significant bit of each byte first.
use dmail.Prelude.{
  ℕ, zero, suc, ◌+◌, ◌*◌, ◌/◌, ◌%◌, ◌^◌, ◌≤◌, ◌<◌, bit_and, ◌≡◌, refl, sym, ap, ◌∙◌, inl, inr, Bool,
  true, false, ◌&&◌, not, some, List, [], ◌∷◌, ◌++◌, append_assoc, arith, ltb, ◌==◌, ltb→lt,
  Bool-cases, length, get_elem?, take, drop, all, length-append, All,
}
use dmail.Prelude.Bytes.{Bytes}
use dmail.Prelude.Bits.{all_below, all_below_sound, all_pairs_sound}
use dmail.Pow.{mask, check_bytes, check_rest, has_leading_zero_bits}

-- Bit `k` of a byte.
abbrev bit : ℕ → ℕ → Bool
bit b k = (b / 2 ^ k) % 2 == 1

abbrev byte_bits : ℕ → List Bool
byte_bits b = bit b 7 ∷ bit b 6 ∷ bit b 5 ∷ bit b 4 ∷ bit b 3 ∷ bit b 2 ∷ bit b 1 ∷ bit b 0 ∷ []

pub bits : Bytes → List Bool
bits [] = []
bits (b ∷ bs) = byte_bits b ++ bits bs

-- The first `n` bits are all zero.
abbrev pub zeros : ℕ → List Bool → Bool
zeros n bs = all not (take n bs)

abbrev pub IsByte : ℕ → Type 0
IsByte b = b < 256

abbrev same : Bool → Bool → Bool
same true b = b
same false b = not b

mask_table :
    all_below 8 (λ r. all_below 256 (λ b. same (bit_and b (mask r) == 0) (zeros r (byte_bits b))))
    ≡ true
unfolding all_below mask
mask_table = refl

zero_table : all_below 256 (λ b. same (b == 0) (zeros 8 (byte_bits b))) ≡ true
unfolding all_below
zero_table = refl

zeros-append :
    (xs ys : List Bool) (n m : ℕ)
    → length xs ≡ n
    → zeros (n + m) (xs ++ ys) ≡ (zeros n xs && zeros m ys)
zeros-append [] ys zero m h = ap (λ k. zeros k ys) (omega arith)
zeros-append [] ys (suc n) m h = absurd (omega arith)
zeros-append (x ∷ xs) ys zero m h = absurd (omega arith)
zeros-append (x ∷ xs) ys (suc n) m h =
    let e : suc n + m ≡ suc (n + m) = omega arith in
    rw e (ground (arith, zeros-append xs ys n m (omega arith)))

zeros-append_short : (xs ys : List Bool) (n : ℕ) → n ≤ length xs → zeros n (xs ++ ys) ≡ zeros n xs
zeros-append_short xs ys zero h = refl
zeros-append_short [] ys (suc n) h = absurd (omega arith)
zeros-append_short (x ∷ xs) ys (suc n) h = ground (arith, zeros-append_short xs ys n (omega arith))

same-eq : (a b : Bool) → same a b ≡ true → a ≡ b
same-eq a b h = ground arith

bits-cons :
    (b : ℕ) (bs : Bytes) (m : ℕ)
    → zeros (8 + m) (bits (b ∷ bs)) ≡ (zeros 8 (byte_bits b) && zeros m (bits bs))
unfolding bits
bits-cons b bs m = zeros-append (byte_bits b) (bits bs) 8 m refl

zeros_of_byte : (b : ℕ) → IsByte b → (b == 0) ≡ zeros 8 (byte_bits b)
zeros_of_byte b h =
    same-eq _ _ (all_below_sound 256 (λ b. same (b == 0) (zeros 8 (byte_bits b))) b zero_table h)

mask-zeros : (r b : ℕ) → r < 8 → IsByte b → (bit_and b (mask r) == 0) ≡ zeros r (byte_bits b)
mask-zeros r b hr hb = same-eq _ _ (
    all_pairs_sound 8 256 (λ r b. same (bit_and b (mask r) == 0) (zeros r (byte_bits b))) r b
      mask_table hr hb)

get_elem?-append :
    (pre rest : Bytes) (b i : ℕ) → length pre ≡ i → get_elem? (pre ++ b ∷ rest) i ≡ some b
get_elem?-append [] rest b zero h = refl
get_elem?-append [] rest b (suc i) h = absurd (omega arith)
get_elem?-append (x ∷ pre) rest b zero h = absurd (omega arith)
get_elem?-append (x ∷ pre) rest b (suc i) h = get_elem?-append pre rest b i (omega arith)

-- The loop reads the bytes from index `i` on.
check_bytes-bits :
    (rounds i : ℕ) (pre rest : Bytes)
    → length pre ≡ i
    → All IsByte rest
    → rounds ≤ length rest
    → check_bytes (pre ++ rest) rounds i ≡ some (zeros (8 * rounds) (bits rest))
unfolding check_bytes
check_bytes-bits zero i pre rest h hb hl = refl
check_bytes-bits (suc k) i pre [] h hb hl = absurd (omega arith)
check_bytes-bits (suc k) i pre (b ∷ rest) h hb hl =
    let e : 8 * suc k ≡ 8 + 8 * k = omega arith in
    let next : check_bytes (pre ++ b ∷ rest) k (i + 1) ≡ some (zeros (8 * k) (bits rest)) =
      rw (← append_assoc pre (b ∷ []) rest) (
        check_bytes-bits k (i + 1) (pre ++ b ∷ []) rest (omega (arith, length-append pre (b ∷ [])))
          hb.1 (omega arith)) in
    rw (e, bits-cons b rest (8 * k))
      (ground (arith, next, get_elem?-append pre rest b i h, zeros_of_byte b hb.0))

-- The bits of the bytes from index `k` on.
zeros_split :
    (k r : ℕ) (hash : Bytes)
    → k ≤ length hash
    → zeros (8 * k + r) (bits hash) ≡ (zeros (8 * k) (bits hash) && zeros r (bits (drop k hash)))
zeros_split zero r hash h = ap (λ n. zeros n (bits hash)) (omega arith)
zeros_split (suc k) r [] h = absurd (omega arith)
zeros_split (suc k) r (b ∷ hash) h =
    let e : 8 * suc k + r ≡ 8 + (8 * k + r) = omega arith in
    let e' : 8 * suc k ≡ 8 + 8 * k = omega arith in
    rw (e, e', bits-cons b hash (8 * k + r), bits-cons b hash (8 * k))
      (ground (arith, zeros_split k r hash (omega arith)))

check_rest-bits :
    (hash : Bytes) (k r : ℕ)
    → All IsByte hash
    → k < length hash
    → r < 8
    → check_rest (get_elem? hash k) r ≡ some (zeros r (bits (drop k hash)))
unfolding check_rest bits
check_rest-bits [] k r hb hk hr = absurd (omega arith)
check_rest-bits (b ∷ hash) zero r hb hk hr =
    ap some
      (mask-zeros r b hr hb.0 ∙ sym (zeros-append_short (byte_bits b) (bits hash) r (omega arith)))
check_rest-bits (b ∷ hash) (suc k) r hb hk hr = check_rest-bits hash k r hb.1 (omega arith) hr

-- For every slice of bytes and every count of at most its bits, the test never panics and holds
-- exactly when the first `n` bits of the slice, most significant first, are zero.
pub has_leading_zero_bits-zeros :
    (hash : Bytes) (n : ℕ)
    → All IsByte hash
    → n ≤ 8 * length hash
    → has_leading_zero_bits hash n ≡ some (zeros n (bits hash))
unfolding has_leading_zero_bits
has_leading_zero_bits-zeros hash n hb hn =
    let k = n / 8 in
    let r = n % 8 in
    let e : n ≡ 8 * k + r = omega arith in
    let loop : check_bytes hash k 0 ≡ some (zeros (8 * k) (bits hash)) =
      check_bytes-bits k 0 [] hash refl hb (omega arith) in
    let split : zeros n (bits hash) ≡ (zeros (8 * k) (bits hash) && zeros r (bits (drop k hash))) =
      rw (ap (λ m. zeros m (bits hash)) e) (zeros_split k r hash (omega arith)) in
    elim (Bool-cases (ltb 0 r)) [
      | inl more ↦ ground (
        arith,
        loop,
        split,
        check_rest-bits hash k r hb (let p : 0 < r = ltb→lt 0 r more in omega arith) (omega arith),
      )
      | inr none_left ↦
          let z : r ≡ 0 = ground arith in
          ground (arith, loop, split, ap (λ m. zeros m (bits (drop k hash))) z)
    ]
