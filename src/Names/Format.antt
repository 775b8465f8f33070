-- ===== src/Names/Format.antt =====
-- Which names are well-formed.
use dmail.Prelude.{
  ℕ, ◌≤◌, ◌≡◌, refl, ap, ◌≢◌, ◌↔◌, ◌⊎◌, inl, inr, true, false, [], ◌∷◌, ◌++◌, arith, ltb,
  Bool-cases, length, all, All, All-append, ok,
}
use dmail.Prelude.Bytes.{
  Bytes, codes, eqb_iff, contains, contains-append, contains_sound, any-eqb-false, lower_ascii,
}
use dmail.Names.{
  reserved_names, matches_rest, matches_name_regex, is_reserved, to_lower, validate_name,
}

-- A letter from a to z or a digit.
abbrev pub AlNum : ℕ → Type 0
AlNum c = ((b'a' ≤ c) × (c ≤ b'z')) ⊎ ((b'0' ≤ c) × (c ≤ b'9'))

abbrev pub NameChar : ℕ → Type 0
NameChar c = AlNum c ⊎ (c ≡ b'-')

-- The format, in the words of the documentation and not of the code.
pub record IsName (name : Bytes) : Type 0 where
  pub longest : length name ≤ 32
  pub shortest : 3 ≤ length name
  pub shape :
      (first : ℕ) × (middle : Bytes) × (last : ℕ) × (name ≡ first ∷ (middle ++ last ∷ []))
      × AlNum first
      × All NameChar middle
      × AlNum last
  pub single_hyphens : (pre post : Bytes) → name ≢ pre ++ (codes "--" ++ post)
  pub not_reserved : All (λ r. name ≢ r) reserved_names

matches_rest_sound :
    (s : Bytes)
    → matches_rest s ≡ true
    → (middle : Bytes) × (last : ℕ) × (s ≡ middle ++ last ∷ []) × All NameChar middle × AlNum last
unfolding matches_rest
matches_rest_sound [] h = absurd (cc)
matches_rest_sound (c ∷ []) h = ([], c, refl, tt, ground arith)
matches_rest_sound (c ∷ d ∷ s) h =
    let (middle, last, e, m, l) = matches_rest_sound (d ∷ s) (ground arith) in
    (c ∷ middle, last, ap (λ r. c ∷ r) e, (ground arith, m), l)

matches_rest_complete :
    (middle : Bytes) (last : ℕ)
    → All NameChar middle
    → AlNum last
    → matches_rest (middle ++ last ∷ []) ≡ true
unfolding matches_rest
matches_rest_complete [] last m l = ground arith
matches_rest_complete (c ∷ []) last m l = ground arith
matches_rest_complete (c ∷ d ∷ middle) last m l =
    ground (arith, matches_rest_complete (d ∷ middle) last m.1 l)

matches_name_regex_sound :
    (s : Bytes)
    → matches_name_regex s ≡ true
    → (first : ℕ) × (middle : Bytes) × (last : ℕ) × (s ≡ first ∷ (middle ++ last ∷ []))
      × AlNum first
      × All NameChar middle
      × AlNum last
unfolding matches_name_regex
matches_name_regex_sound [] h = absurd (cc)
matches_name_regex_sound (c ∷ s) h =
    let (middle, last, e, m, l) = matches_rest_sound s (ground arith) in
    (c, middle, last, ap (λ r. c ∷ r) e, ground arith, m, l)

-- Such bytes are ASCII and in lower case.
to_lower-NameChar :
    (u : Bytes → Bytes) (s : Bytes)
    → All NameChar s
    → (all (λ c. ltb c 128) s ≡ true) × (lower_ascii s ≡ s)
unfolding lower_ascii
to_lower-NameChar u [] h = (refl, refl)
to_lower-NameChar u (c ∷ s) h =
    let (ascii, low) = to_lower-NameChar u s h.1 in (ground (arith, h.0), ground (arith, h.0))

module _ (u : Bytes → Bytes) (name : Bytes) where
  validate_name_sound : validate_name u name ≡ ok tt → IsName name
  unfolding validate_name is_reserved
  validate_name_sound h = record {
    longest = ground arith;
    shortest = ground arith;
    shape = matches_name_regex_sound name (ground arith);
    single_hyphens = λ pre post e.
        let no_hyphens : contains name (codes "--") ≡ false = ground arith in
        ground (arith, contains-append pre (codes "--") post);
    not_reserved = (any-eqb-false name reserved_names).0 (ground arith);
  }

  lower-IsName : IsName name → (to_lower u name ≡ name) × (matches_name_regex name ≡ true)
  unfolding to_lower matches_name_regex
  lower-IsName v =
      let (first, middle, last, e, f, m, l) = v.shape in
      let chars : All NameChar name =
        rw e (inl f, All-append NameChar middle (last ∷ []) m (inl l, tt)) in
      (
        ground (arith, to_lower-NameChar u name chars),
        ground (arith, matches_rest_complete middle last m l),
      )

  validate_name_complete : IsName name → validate_name u name ≡ ok tt
  unfolding validate_name is_reserved
  validate_name_complete v = elim (Bool-cases (contains name (codes "--"))) [
    | inl double ↦
        let (pre, post, e) = contains_sound name (codes "--") double in
        absurd (v.single_hyphens pre post e)
    | inr single ↦ ground (
      arith,
      v.longest,
      v.shortest,
      single,
      lower-IsName v,
      eqb_iff name (to_lower u name),
      (any-eqb-false name reserved_names).1 v.not_reserved,
    )
  ]

  -- A name is accepted exactly when it has 3 to 32 bytes, its first and last are lower-case letters
  -- or digits, those between are such or hyphens, no two hyphens are adjacent, and it is none of the
  -- reserved names; whatever the Unicode tables.
  pub validate_name_iff : (validate_name u name ≡ ok tt) ↔ IsName name
  validate_name_iff = (validate_name_sound, validate_name_complete)
