-- ===== src/Federation/Addresses.antt =====
-- Which addresses are federated, and how they are split.
use mathlib.Core.Path.{ap₂, subst}
use dmail.Prelude.{
  ℕ, ◌+◌, ◌-◌, ◌<◌, ◌≡◌, refl, sym, ap, ◌∙◌, ◌↔◌, ◌⊎◌, inl, inr, true, false, none, some, [], ◌∷◌,
  ◌++◌, append_assoc, arith, Option-cases, length, take, drop, length-append, take-append,
  drop-append,
}
use dmail.Prelude.Bytes.{Bytes, codes, has_prefix, has_suffix, contains, contains_byte}
use dmail.Federation.{last_index, check_host, split_at, parse_federated_address}

-- The address is `username@host`, split at the last "@", neither half is empty, it is no "dmail:"
-- address and no ".dmail" name, and the host has a dot or begins with "localhost".
pub record IsFederated (addr username host : Bytes) : Type 0 where
  pub split : addr ≡ username ++ (b'@' ∷ host)
  pub last : contains_byte b'@' host ≡ false
  pub named : 0 < length username
  pub hosted : 0 < length host
  pub no_key : has_prefix addr (codes "dmail:") ≡ false
  pub no_name : has_suffix addr (codes ".dmail") ≡ false
  pub routable : (contains host (codes ".") ≡ true) ⊎ (has_prefix host (codes "localhost") ≡ true)

last_index-none : (b : ℕ) (s : Bytes) → contains_byte b s ≡ false → last_index b s ≡ none
unfolding last_index contains_byte
last_index-none b [] h = refl
last_index-none b (c ∷ s) h = ground (arith, last_index-none b s)

last_index-append :
    (b : ℕ) (u t : Bytes)
    → contains_byte b t ≡ false
    → last_index b (u ++ (b ∷ t)) ≡ some (length u)
unfolding last_index
last_index-append b [] t h = ground (arith, last_index-none b t h)
last_index-append b (c ∷ u) t h = ground (arith, last_index-append b u t h)

last_index-absent : (b : ℕ) (s : Bytes) → last_index b s ≡ none → contains_byte b s ≡ false
unfolding last_index contains_byte
last_index-absent b [] h = refl
last_index-absent b (c ∷ s) h = ground (arith, last_index-absent b s)

last_index_sound :
    (b i : ℕ) (s : Bytes)
    → last_index b s ≡ some i
    → (u : Bytes) × (t : Bytes) × (s ≡ u ++ (b ∷ t)) × (contains_byte b t ≡ false) × (length u ≡ i)
unfolding last_index
last_index_sound b i [] h = absurd (cc)
last_index_sound b i (c ∷ s) h = elim (Option-cases (last_index b s)) [
  | inr (j, e) ↦
      let (u, t, split, last, size) = last_index_sound b j s e in
      (c ∷ u, t, ap (λ r. c ∷ r) split, last, ground (arith, e))
  | inl absent ↦
      let here : c ≡ b = ground (arith, absent) in
      ([], s, ap (λ x. x ∷ s) here, last_index-absent b s absent, ground (arith, absent))
]

module _ (addr username host : Bytes) where
  split_none : 0 < length username → split_at addr none ≡ (username, host) → ⊥
  unfolding split_at
  split_none named h = ground arith

  check_host_sound :
      (u t : Bytes)
      → 0 < length username
      → check_host u t ≡ (username, host)
      → (u ≡ username)
        × (t ≡ host)
        × ((contains host (codes ".") ≡ true) ⊎ (has_prefix host (codes "localhost") ≡ true))
  unfolding check_host
  check_host_sound u t named h = (ground arith, ground arith, ground arith)

  split_at_sound :
      (at : ℕ)
      → 0 < length username
      → split_at addr (some at) ≡ (username, host)
      → (check_host (take at addr) (drop (at + 1) addr) ≡ (username, host)) × (at < length addr - 1)
  unfolding split_at
  split_at_sound at named h = (ground arith, ground arith)

  tests_sound :
      0 < length username
      → parse_federated_address addr ≡ (username, host)
      → (has_prefix addr (codes "dmail:") ≡ false)
        × (has_suffix addr (codes ".dmail") ≡ false)
        × (split_at addr (last_index b'@' addr) ≡ (username, host))
  unfolding parse_federated_address
  tests_sound named h = (ground arith, ground arith, ground arith)

  parse_sound :
      0 < length username
      → parse_federated_address addr ≡ (username, host)
      → IsFederated addr username host
  parse_sound named h =
      let (no_key, no_name, parts) = tests_sound named h in
      elim (Option-cases (last_index b'@' addr)) [
        | inl absent ↦
            let nothing : split_at addr none ≡ (username, host) = rw (← absent) parts in
            absurd (split_none named nothing)
        | inr (at, e) ↦
            let (u, t, split, last, size) = last_index_sound b'@' at addr e in
            let (checked, below) = split_at_sound at named (rw (← e) parts) in
            let (user, rest, routable) =
              check_host_sound (take at addr) (drop (at + 1) addr) named checked in
            let same_u : u ≡ username =
              sym (take-append u (b'@' ∷ t) at size) ∙ sym (ap (take at) split) ∙ user in
            let shift : drop (at + 1) (u ++ (b'@' ∷ t)) ≡ t = rw (← append_assoc u (b'@' ∷ []) t) (
              drop-append (u ++ b'@' ∷ []) t (at + 1)
                (omega (arith, length-append u (b'@' ∷ [])))) in
            let same_t : t ≡ host = sym shift ∙ sym (ap (drop (at + 1)) split) ∙ rest in
            let total : length addr ≡ length u + (1 + length t) =
              omega (arith, ap length split, length-append u (b'@' ∷ t)) in
            let long : 0 < length t = omega arith in
            record {
              split = split ∙ ap₂ (λ x y. x ++ (b'@' ∷ y)) same_u same_t;
              last = subst (λ x. contains_byte b'@' x ≡ false) same_t last;
              named = named;
              hosted = subst (λ x. 0 < length x) same_t long;
              no_key = no_key;
              no_name = no_name;
              routable = routable;
            }
      ]

  parse_complete : IsFederated addr username host → parse_federated_address addr ≡ (username, host)
  unfolding parse_federated_address split_at check_host
  parse_complete f =
      let at = length username in
      let found : last_index b'@' addr ≡ some at =
        rw f.split (last_index-append b'@' username host f.last) in
      let taken : take at addr ≡ username =
        rw f.split (take-append username (b'@' ∷ host) at refl) in
      let rest : drop (at + 1) addr ≡ host = rw f.split (
        rw (← append_assoc username (b'@' ∷ []) host) (
          drop-append (username ++ b'@' ∷ []) host (at + 1)
            (omega (arith, length-append username (b'@' ∷ []))))) in
      let total : length addr ≡ length username + (1 + length host) =
        omega (arith, ap length f.split, length-append username (b'@' ∷ host)) in
      ground (arith, found, f.named, f.hosted, f.no_key, f.no_name, f.routable)

  -- The parser returns a non-empty user name, with a host, exactly for the federated addresses of
  -- that user and host.
  pub parse_federated_address_iff :
      ((0 < length username) × (parse_federated_address addr ≡ (username, host)))
      ↔ IsFederated addr username host
  parse_federated_address_iff =
      (λ (named, h). parse_sound named h, λ f. (f.named, parse_complete f))
