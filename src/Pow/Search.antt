-- ===== src/Pow/Search.antt =====
-- What the search for a nonce returns.
use dmail.Prelude.{
  ℕ, zero, suc, ◌+◌, ◌-◌, ◌^◌, ◌≤◌, ◌<◌, ◌≡◌, ap, ◌∙◌, inl, inr, true, false, some, ◌++◌, arith,
  Bool-cases, length, All,
}
use dmail.Prelude.Bytes.{Bytes, big_endian}
use native.Mathlib.Decide.{dec_lt}
use dmail.Pow.{verify, search_nonce, compute}
use dmail.Pow.Zeros.{IsByte, has_leading_zero_bits-zeros, bits, zeros}

-- What the program relies on of SHA-256: 32 bytes.
pub record IsSha256 (sha256 : Bytes → Bytes) : Type 0 where
  pub length_32 : (content : Bytes) → length (sha256 content) ≡ 32
  pub bytes : (content : Bytes) → All IsByte (sha256 content)

module _ (sha256 : Bytes → Bytes) (h : IsSha256 sha256) (content : Bytes) (difficulty : ℕ) where
  -- Up to 256 bits of difficulty, `Verify` answers, and by the leading bits of the hash.
  pub verify-zeros :
      difficulty ≤ 256
      → (nonce : ℕ)
      → verify sha256 content nonce difficulty
        ≡ some (zeros difficulty (bits (sha256 (content ++ big_endian 8 nonce))))
  unfolding verify
  verify-zeros small nonce =
      has_leading_zero_bits-zeros _ difficulty (h.bytes _)
        (omega (arith, h.length_32 (content ++ big_endian 8 nonce)))

  ne_good :
      (nonce good : ℕ)
      → verify sha256 content nonce difficulty ≡ some false
      → verify sha256 content good difficulty ≡ some true
      → nonce ≤ good
      → nonce + 1 ≤ good
  ne_good nonce good v e lo = elim (dec_lt nonce good) [
    | yes lt ↦ omega arith
    | no ge ↦
        let same : nonce ≡ good = omega arith in
        cc (ap (λ n. verify sha256 content n difficulty) same)
  ]

  -- What the rounds that are left return, if one of them succeeds.
  search_nonce-least :
      difficulty ≤ 256
      → (rounds nonce good : ℕ) → nonce ≤ good
      → good < nonce + rounds
      → verify sha256 content good difficulty ≡ some true
      → (r : ℕ) × (search_nonce sha256 content difficulty rounds nonce ≡ some r)
        × (verify sha256 content r difficulty ≡ some true)
        × (r ≤ good)
        × ((m : ℕ) → nonce ≤ m → m < r → verify sha256 content m difficulty ≡ some false)
  unfolding search_nonce
  search_nonce-least small zero nonce good lo hi e = absurd (omega arith)
  search_nonce-least small (suc rounds) nonce good lo hi e =
      elim (Bool-cases (zeros difficulty (bits (sha256 (content ++ big_endian 8 nonce))))) [
        | inl found ↦
            let v : verify sha256 content nonce difficulty ≡ some true =
              verify-zeros small nonce ∙ ap some found in
            (nonce, ground (arith, v), v, lo, λ m p q. absurd (omega arith))
        | inr missed ↦
            let v : verify sha256 content nonce difficulty ≡ some false =
              verify-zeros small nonce ∙ ap some missed in
            let (r, step, good_r, le, least) =
              search_nonce-least small rounds (nonce + 1) good (ne_good nonce good v e lo)
                (omega arith) e in
            (
              r,
              ground (arith, v, step),
              good_r,
              le,
              λ m p q. elim (dec_lt nonce m) [
                | yes above ↦ least m (omega arith) q
                | no below ↦ let same : m ≡ nonce = omega arith in rw same v
              ],
            )
      ]

  -- If some nonce below 2^64 - 1 succeeds, `Compute` returns the least that does.
  pub compute-least :
      difficulty ≤ 256
      → (good : ℕ) → good < 2 ^ 64 - 1
      → verify sha256 content good difficulty ≡ some true
      → (r : ℕ) × (compute sha256 content difficulty ≡ some r)
        × (verify sha256 content r difficulty ≡ some true)
        × (r ≤ good)
        × ((m : ℕ) → m < r → verify sha256 content m difficulty ≡ some false)
  unfolding compute
  compute-least small good hi e =
      let (r, step, good_r, le, least) =
        search_nonce-least small (2 ^ 64 - 1) 0 good (omega arith) (omega arith) e in
      (r, step, good_r, le, λ m. least m (omega arith))
