-- ===== src/Prelude/Bytes.antt =====
-- Go strings and byte slices: sequences of bytes, and the functions of `strings` and `bytes` that
-- the program calls on them.
use Prim.Native.Nat.{◌^◌, ℕ, zero, suc, ◌+◌, ◌-◌, ◌/◌, ◌%◌, ◌≤◌, ◌<◌}
use Prim.Native.Char.{code}
use Prim.Native.String.{String}
use mathlib.Core.Path.{◌≡◌, refl, ap, sym, ◌∙◌}
use mathlib.Core.Logic.{◌↔◌, ◌≢◌, inl, inr}
use mathlib.Core.Bool.{Bool, true, false, ◌&&◌, ◌||◌}
use mathlib.Core.List.{List, [], ◌∷◌, ◌++◌}
use native.Mathlib.Omega.{arith}
use native.Mathlib.Nat.{pow-suc}
use dmail.Prelude.Tests.{leb, ◌==◌, if◌then◌else◌, Bool-cases}
use dmail.Prelude.Lists.{length, length-append, take, drop, any, All}

abbrev pub Bytes : Type 0
Bytes = List ℕ

-- The bytes of an ASCII literal.
abbrev pub codes : String → Bytes
codes String.[] = []
codes (String.◌∷◌ c s) = code c ∷ codes s

-- `a == b` on strings, `bytes.Equal`
unfoldable pub eqb : Bytes → Bytes → Bool
eqb [] [] = true
eqb [] (y ∷ ys) = false
eqb (x ∷ xs) [] = false
eqb (x ∷ xs) (y ∷ ys) = x == y && eqb xs ys

pub eqb_iff : (a b : Bytes) → (eqb a b ≡ true) ↔ (a ≡ b)
unfolding eqb
eqb_iff [] [] = (λ _. refl, λ _. refl)
eqb_iff [] (y ∷ ys) = (λ h. cc, λ h. cc)
eqb_iff (x ∷ xs) [] = (λ h. cc, λ h. cc)
eqb_iff (x ∷ xs) (y ∷ ys) = ground (arith, eqb_iff xs ys)

pub eqb_refl : (a : Bytes) → eqb a a ≡ true
eqb_refl a = (eqb_iff a a).1 refl

pub eqb-apart : (a b : Bytes) → a ≢ b → eqb a b ≡ false
eqb-apart a b differ = elim (Bool-cases (eqb a b)) [
  | inl same ↦ absurd (differ ((eqb_iff a b).0 same))
  | inr apart ↦ apart
]

-- `strings.HasPrefix`
unfoldable pub has_prefix : Bytes → Bytes → Bool
has_prefix s [] = true
has_prefix [] (p ∷ ps) = false
has_prefix (c ∷ s) (p ∷ ps) = c == p && has_prefix s ps

pub has_prefix_iff : (s p : Bytes) → (has_prefix s p ≡ true) ↔ (s ≡ p ++ drop (length p) s)
unfolding has_prefix
has_prefix_iff s [] = (λ _. refl, λ _. refl)
has_prefix_iff [] (p ∷ ps) = (λ h. cc, λ h. cc)
has_prefix_iff (c ∷ s) (p ∷ ps) = ground (arith, has_prefix_iff s ps)

pub has_prefix-append : (p s : Bytes) → has_prefix (p ++ s) p ≡ true
unfolding has_prefix
has_prefix-append [] s = refl
has_prefix-append (c ∷ p) s = ground (arith, has_prefix-append p s)

pub has_prefix-length : (s p : Bytes) → has_prefix s p ≡ true → length p ≤ length s
unfolding has_prefix
has_prefix-length s [] h = omega arith
has_prefix-length [] (p ∷ ps) h = cc
has_prefix-length (c ∷ s) (p ∷ ps) h =
    let t : has_prefix s ps ≡ true = ground arith in omega (arith, has_prefix-length s ps t)

-- `strings.HasSuffix`: `len(s) >= len(t) && s[len(s)-len(t):] == t`
unfoldable pub has_suffix : Bytes → Bytes → Bool
unfolding eqb
has_suffix s t = leb (length t) (length s) && eqb (drop (length s - length t) s) t

-- `strings.TrimSuffix`
unfoldable pub trim_suffix : Bytes → Bytes → Bytes
unfolding has_suffix
trim_suffix s t = if has_suffix s t then take (length s - length t) s else s

-- `strings.Contains`
unfoldable pub contains : Bytes → Bytes → Bool
unfolding has_prefix
contains [] p = has_prefix [] p
contains (c ∷ s) p = has_prefix (c ∷ s) p || contains s p

-- `strings.ContainsRune` for one byte, and the bytes that a text may not hold
unfoldable pub contains_byte : ℕ → Bytes → Bool
contains_byte b [] = false
contains_byte b (c ∷ s) = c == b || contains_byte b s

-- The ASCII path of `strings.ToLower`.
unfoldable pub lower_byte : ℕ → ℕ
lower_byte c = if leb b'A' c && leb c b'Z' then c + 32 else c

unfoldable pub lower_ascii : Bytes → Bytes
unfolding lower_byte
lower_ascii [] = []
lower_ascii (c ∷ s) = lower_byte c ∷ lower_ascii s

-- `binary.BigEndian.PutUint32` and `PutUint64`: the last `n` bytes of a number.
unfoldable pub big_endian : ℕ → ℕ → Bytes
big_endian zero v = []
big_endian (suc n) v = big_endian n (v / 256) ++ (v % 256) ∷ []

pub append-injective : (a b c d : Bytes) → length a ≡ length b → a ++ c ≡ b ++ d → (a ≡ b) × (c ≡ d)
append-injective [] [] c d h e = (refl, e)
append-injective [] (y ∷ b) c d h e = absurd (omega arith)
append-injective (x ∷ a) [] c d h e = absurd (omega arith)
append-injective (x ∷ a) (y ∷ b) c d h e =
    let tails : a ++ c ≡ b ++ d = ground arith in
    let (p, q) = append-injective a b c d (omega arith) tails in (ground arith, q)

contains_of_has_prefix : (s p : Bytes) → has_prefix s p ≡ true → contains s p ≡ true
unfolding contains
contains_of_has_prefix [] p h = h
contains_of_has_prefix (c ∷ s) p h = ground arith

pub contains-append : (pre p post : Bytes) → contains (pre ++ (p ++ post)) p ≡ true
unfolding contains
contains-append [] p post = contains_of_has_prefix (p ++ post) p (has_prefix-append p post)
contains-append (c ∷ pre) p post = ground (arith, contains-append pre p post)

pub contains_sound :
    (s p : Bytes) → contains s p ≡ true → (pre : Bytes) × (post : Bytes) × (s ≡ pre ++ (p ++ post))
unfolding contains
contains_sound [] p h = ([], drop (length p) [], (has_prefix_iff [] p).0 h)
contains_sound (c ∷ s) p h =
    elim (has_prefix (c ∷ s) p)
        as (λ b.
          has_prefix (c ∷ s) p ≡ b
          → (pre : Bytes) × (post : Bytes) × (c ∷ s ≡ pre ++ (p ++ post))) [
            | true ↦ λ e. ([], drop (length p) (c ∷ s), (has_prefix_iff (c ∷ s) p).0 e)
            | false ↦ λ e.
                let (pre, post, q) = contains_sound s p (ground arith) in
                (c ∷ pre, post, ap (λ r. c ∷ r) q)
          ]
      refl

-- A text is none of a list's members exactly when no comparison succeeds.
pub any-eqb-false : (s : Bytes) (rs : List Bytes) → (any (eqb s) rs ≡ false) ↔ All (λ r. s ≢ r) rs
any-eqb-false s [] = (λ _. tt, λ _. refl)
any-eqb-false s (r ∷ rs) = (
  λ h. (λ e. ground (arith, eqb_iff s r), (any-eqb-false s rs).0 (ground arith)),
  λ (n, rest). elim (Bool-cases (eqb s r)) [
    | inl same ↦ absurd (n ((eqb_iff s r).0 same))
    | inr other ↦ ground (arith, other, (any-eqb-false s rs).1 rest)
  ],
)

pub length-big_endian : (n v : ℕ) → length (big_endian n v) ≡ n
unfolding big_endian
length-big_endian zero v = refl
length-big_endian (suc n) v =
    omega (
      arith,
      length-append (big_endian n (v / 256)) ((v % 256) ∷ []),
      length-big_endian n (v / 256),
    )

-- A number that fits is determined by its bytes.
pub big_endian-injective :
    (n v v' : ℕ) → v < 256 ^ n → v' < 256 ^ n → big_endian n v ≡ big_endian n v' → v ≡ v'
unfolding big_endian
big_endian-injective zero v v' h h' e = omega arith
big_endian-injective (suc n) v v' h h' e =
    let (high, low) =
      append-injective (big_endian n (v / 256)) (big_endian n (v' / 256)) ((v % 256) ∷ [])
        ((v' % 256) ∷ []) (length-big_endian n (v / 256) ∙ sym (length-big_endian n (v' / 256)))
        e in
    let below : v / 256 < 256 ^ n = omega (arith, pow-suc 256 n) in
    let below' : v' / 256 < 256 ^ n = omega (arith, pow-suc 256 n) in
    let q : v / 256 ≡ v' / 256 = big_endian-injective n (v / 256) (v' / 256) below below' high in
    let r : v % 256 ≡ v' % 256 = ground arith in omega arith

-- The same, where the tails are known to have one length.
pub append-injective_right :
    (a b c d : Bytes) → length c ≡ length d → a ++ c ≡ b ++ d → (a ≡ b) × (c ≡ d)
append-injective_right a b c d h e =
    append-injective a b c d (omega (arith, length-append a c, length-append b d, ap length e)) e
