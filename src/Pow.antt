-- ===== src/Pow.antt =====
-- pkg/pow/pow.go: the proof of work. `none` is Go's index-out-of-range panic. SHA-256 is the
-- parameter `sha256`; its results are read as byte slices.
pub mod Zeros
pub mod Search
use dmail.Prelude.{
  ℕ, zero, suc, ◌+◌, ◌-◌, ◌*◌, ◌/◌, ◌%◌, ◌^◌, bit_and, Bool, true, false, Option, none, some, ◌++◌,
  ltb, ◌==◌, if◌then◌else◌, get_elem?,
}
use dmail.Prelude.Bytes.{Bytes, big_endian}

abbrev pub default_difficulty : ℕ
default_difficulty = 20

-- `byte(0xFF << (8 - remainBits))`: the constant takes the type byte, so the shift drops high bits.
unfoldable pub mask : ℕ → ℕ
mask remain_bits = (255 * 2 ^ (8 - remain_bits)) % 256

-- `for i := uint32(0); i < fullBytes; i++`, with the rounds that are left and the index.
unfoldable pub check_bytes : Bytes → ℕ → ℕ → Option Bool
check_bytes hash zero i = some true
check_bytes hash (suc rounds) i = elim (get_elem? hash i) [
  | none ↦ none
  | some b ↦ if b == 0 then check_bytes hash rounds (i + 1) else some false
]

-- `hash[fullBytes]&mask != 0`
unfoldable pub check_rest : Option ℕ → ℕ → Option Bool
unfolding mask
check_rest none remain_bits = none
check_rest (some b) remain_bits = some (bit_and b (mask remain_bits) == 0)

unfoldable pub has_leading_zero_bits : Bytes → ℕ → Option Bool
unfolding check_bytes check_rest
has_leading_zero_bits hash n =
    let full_bytes = n / 8 in
    let remain_bits = n % 8 in
    elim (check_bytes hash full_bytes 0) [
      | none ↦ none
      | some false ↦ some false
      | some true ↦
          if ltb 0 remain_bits
          then check_rest (get_elem? hash full_bytes) remain_bits
          else some true
    ]

module _ (sha256 : Bytes → Bytes) where
  unfoldable pub verify : Bytes → ℕ → ℕ → Option Bool
  unfolding has_leading_zero_bits big_endian
  verify content nonce difficulty =
      has_leading_zero_bits (sha256 (content ++ big_endian 8 nonce)) difficulty

  -- The loop of `Compute`, with the rounds that are left and the nonce.
  unfoldable pub search_nonce : Bytes → ℕ → ℕ → ℕ → Option ℕ
  unfolding verify
  search_nonce content difficulty zero nonce = some 0
  search_nonce content difficulty (suc rounds) nonce = elim (verify content nonce difficulty) [
    | none ↦ none
    | some true ↦ some nonce
    | some false ↦ search_nonce content difficulty rounds (nonce + 1)
  ]

  -- The nonces 0 to `math.MaxUint64 - 1` are tried.
  unfoldable pub compute : Bytes → ℕ → Option ℕ
  unfolding search_nonce
  compute content difficulty = search_nonce content difficulty (2 ^ 64 - 1) 0
