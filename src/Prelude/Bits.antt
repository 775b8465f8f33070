-- ===== src/Prelude/Bits.antt =====
-- Facts about the bit operations on one byte, by evaluation over all bytes.
use Prim.Native.Nat.{ℕ, zero, suc, ◌<◌, bit_or, bit_xor}
use mathlib.Core.Path.{◌≡◌, refl}
use mathlib.Core.Bool.{Bool, true, false, ◌&&◌, not}
use native.Mathlib.Omega.{arith}
use dmail.Prelude.Tests.{ltb, ◌==◌}

-- Every number below a bound passes the test.
unfoldable pub all_below : ℕ → (ℕ → Bool) → Bool
all_below zero test = true
all_below (suc last) test = all_below last test && test last

pub all_below_sound :
    (bound : ℕ) (test : ℕ → Bool) (k : ℕ) → all_below bound test ≡ true → k < bound → test k ≡ true
unfolding all_below
all_below_sound zero test k passed below = absurd (omega arith)
all_below_sound (suc last) test k passed below = ground (arith, all_below_sound last test k)

-- A test of pairs of small numbers, by its table.
pub all_pairs_sound :
    (rows columns : ℕ) (test : ℕ → ℕ → Bool) (a b : ℕ)
    → all_below rows (λ i. all_below columns (test i)) ≡ true
    → a < rows
    → b < columns
    → test a b ≡ true
all_pairs_sound rows columns test a b table in_row in_column =
    let row : all_below columns (test a) ≡ true =
      all_below_sound rows (λ i. all_below columns (test i)) a table in_row in
    all_below_sound columns (test a) b row in_column

same : Bool → Bool → Bool
same true b = b
same false b = not b

same-eq : (a b : Bool) → same a b ≡ true → a ≡ b
unfolding same
same-eq a b h = ground arith

or_table :
    all_below 256 (λ a. all_below 256 (λ b. same (bit_or a b == 0) (a == 0 && b == 0))) ≡ true
unfolding all_below same
or_table = refl

-- `a | b` is zero exactly when both bytes are.
pub bit_or-eq-zero : (a b : ℕ) → a < 256 → b < 256 → (bit_or a b == 0) ≡ (a == 0 && b == 0)
bit_or-eq-zero a b ha hb =
    same-eq _ _ (
      all_pairs_sound 256 256 (λ a b. same (bit_or a b == 0) (a == 0 && b == 0)) a b or_table ha hb)

xor_table : all_below 256 (λ a. all_below 256 (λ b. same (bit_xor a b == 0) (a == b))) ≡ true
unfolding all_below same
xor_table = refl

-- `a ^ b` is zero exactly when the bytes are equal.
pub bit_xor-eq-zero : (a b : ℕ) → a < 256 → b < 256 → (bit_xor a b == 0) ≡ (a == b)
bit_xor-eq-zero a b ha hb =
    same-eq _ _
      (all_pairs_sound 256 256 (λ a b. same (bit_xor a b == 0) (a == b)) a b xor_table ha hb)

bounded_table :
    all_below 256 (λ a. all_below 256 (λ b. ltb (bit_or a b) 256 && ltb (bit_xor a b) 256)) ≡ true
unfolding all_below
bounded_table = refl

pub bit_ops-lt : (a b : ℕ) → a < 256 → b < 256 → (bit_or a b < 256) × (bit_xor a b < 256)
bit_ops-lt a b ha hb =
    let h : (ltb (bit_or a b) 256 && ltb (bit_xor a b) 256) ≡ true =
      all_pairs_sound 256 256 (λ a b. ltb (bit_or a b) 256 && ltb (bit_xor a b) 256) a b
        bounded_table ha hb in
    ground arith
