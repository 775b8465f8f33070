-- ===== src/Node/Select.antt =====
-- Which of several name records `namesValidator.Select` picks.
use dmail.Prelude.{
  All-get_elem?, ℕ, suc, ◌+◌, ◌≤◌, ◌<◌, ◌≡◌, refl, ap, ◌∙◌, ◌⊎◌, inl, inr, ◌||◌, Option, none, some,
  List, [], ◌∷◌, map, arith, ltb, ◌==◌, if◌then◌else◌, Bool-cases, get_elem?, take, All, ok, err,
}
use dmail.Prelude.Bytes.{Bytes}
use dmail.Pb.{Wire}
use dmail.Crypto.{Primitives}
use dmail.Names
use dmail.Node.{select_step, select_loop, names_select}

-- The loop over timestamps alone; `none` is a value without a genuine record.
abbrev next : ℕ → Option ℕ → ℕ → ℕ → ℕ × ℕ
next i none idx ts = (idx, ts)
next i (some t) idx ts = if ts == 0 || ltb t ts then (i, t) else (idx, ts)

scan : List (Option ℕ) → ℕ → ℕ → ℕ → ℕ
scan [] i idx ts = idx
scan (o ∷ os) i idx ts = let (idx', ts') = next i o idx ts in scan os (i + 1) idx' ts'

abbrev pub AtLeast : ℕ → Option ℕ → Type 0
AtLeast t none = Unit
AtLeast t (some s) = t ≤ s

abbrev pub Above : ℕ → Option ℕ → Type 0
Above t none = Unit
Above t (some s) = t < s

abbrev pub IsNone : Option ℕ → Type 0
IsNone none = Unit
IsNone (some s) = ⊥

All-Above : (t ts : ℕ) (os : List (Option ℕ)) → t < ts → All (AtLeast ts) os → All (AtLeast t) os
All-Above t ts [] h a = tt
All-Above t ts (none ∷ os) h a = (tt, All-Above t ts os h a.1)
All-Above t ts (some s ∷ os) h a = (omega arith, All-Above t ts os h a.1)

-- The entry at `j` has the least timestamp, and those before it have later ones.
abbrev pub IsFirstEarliest : List (Option ℕ) → ℕ → ℕ → Type 0
IsFirstEarliest os j t =
    (get_elem? os j ≡ some (some t)) × All (AtLeast t) os × All (Above t) (take j os)

-- What the rounds that are left make of the best so far.
abbrev Outcome : List (Option ℕ) → ℕ → ℕ → ℕ → ℕ → Type 0
Outcome os i idx ts r =
    ((r ≡ idx) × (All IsNone os ⊎ ((0 < ts) × All (AtLeast ts) os)))
    ⊎ ((j : ℕ) × (t : ℕ) × (r ≡ i + j) × ((ts ≡ 0) ⊎ (t < ts)) × IsFirstEarliest os j t)

None-AtLeast : (t : ℕ) (os : List (Option ℕ)) → All IsNone os → All (AtLeast t) os
None-AtLeast t [] h = tt
None-AtLeast t (none ∷ os) h = (tt, None-AtLeast t os h.1)
None-AtLeast t (some s ∷ os) h = absurd h.0

scan-Outcome :
    (os : List (Option ℕ)) (i idx ts : ℕ)
    → All (AtLeast 1) os
    → Outcome os i idx ts (scan os i idx ts)
unfolding scan
scan-Outcome [] i idx ts pos = inl (refl, inl tt)
scan-Outcome (none ∷ os) i idx ts pos = elim (scan-Outcome os (i + 1) idx ts pos.1) [
  | inl (same, inl nothing) ↦ inl (same, inl (tt, nothing))
  | inl (same, inr (some_ts, later)) ↦ inl (same, inr (some_ts, (tt, later)))
  | inr (j, t, r, better, (at, least, first)) ↦
      inr (suc j, t, omega arith, better, (at, (tt, least), (tt, first)))
]
scan-Outcome (some s ∷ os) i idx ts pos = elim (Bool-cases (ts == 0 || ltb s ts)) [
  | inl better ↦ rw better (elim (scan-Outcome os (i + 1) i s pos.1) [
    | inl (same, inl nothing) ↦
        inr (0, s, ground arith, ground arith, (refl, (omega arith, None-AtLeast s os nothing), tt))
    | inl (same, inr (_, later)) ↦
        inr (0, s, ground arith, ground arith, (refl, (omega arith, later), tt))
    | inr (j, t, r, earlier, (at, least, first)) ↦
        inr
          (suc j, t, ground arith, ground arith, (at, (ground arith, least), (ground arith, first)))
  ])
  | inr kept ↦ rw kept (elim (scan-Outcome os (i + 1) idx ts pos.1) [
    | inl (same, inl nothing) ↦
        inl (same, inr (ground arith, (ground arith, None-AtLeast ts os nothing)))
    | inl (same, inr (some_ts, later)) ↦ inl (same, inr (some_ts, (ground arith, later)))
    | inr (j, t, r, better, (at, least, first)) ↦
        inr (suc j, t, ground arith, better, (at, (ground arith, least), (ground arith, first)))
  ])
]

module _ (u : Bytes → Bytes) (p : Primitives) (w : Wire) where
  -- The timestamp of a value that holds a genuine record.
  unfoldable pub stamp : Bytes → Option ℕ
  stamp value = elim (w.unmarshal_name value) [
    | none ↦ none
    | some rec ↦ elim (Names.verify_name_record u p rec) [
      | err _ ↦ none
      | ok _ ↦ some rec.timestamp
    ]
  ]

  select_step-next :
      (i : ℕ) (v : Bytes) (idx ts : ℕ) → select_step u p w i v idx ts ≡ next i (stamp v) idx ts
  unfolding select_step stamp
  select_step-next i v idx ts = ground arith

  select_loop-scan :
      (values : List Bytes) (i idx ts : ℕ)
      → select_loop u p w values i idx ts ≡ scan (map stamp values) i idx ts
  unfolding select_loop scan
  select_loop-scan [] i idx ts = refl
  select_loop-scan (v ∷ values) i idx ts =
      rw (select_step-next i v idx ts)
        (select_loop-scan values (i + 1) (next i (stamp v) idx ts).0 (next i (stamp v) idx ts).1)

  -- If every genuine record has a positive timestamp, `Select` returns, from at least one value, the
  -- index of a genuine record such that no genuine record is earlier and every genuine record before
  -- it is later; where no value holds a genuine record it returns 0.
  pub names_select-earliest :
      (key v : Bytes) (values : List Bytes)
      → All (AtLeast 1) (map stamp (v ∷ values))
      → (r : ℕ) × (names_select u p w key (v ∷ values) ≡ ok r)
        × ((All IsNone (map stamp (v ∷ values)) × (r ≡ 0))
            ⊎ ((t : ℕ) × IsFirstEarliest (map stamp (v ∷ values)) r t))
  unfolding names_select
  names_select-earliest key v values pos =
      let os = map stamp (v ∷ values) in
      let picked : names_select u p w key (v ∷ values) ≡ ok (scan os 0 0 0) =
        ap ok (select_loop-scan (v ∷ values) 0 0 0) in
      elim (scan-Outcome os 0 0 0 pos) [
        | inl (same, inl nothing) ↦ (0, picked ∙ ap ok same, inl (nothing, refl))
        | inl (same, inr (positive, _)) ↦ absurd (omega arith)
        | inr (j, t, r, _, first) ↦
            (j, picked ∙ ap ok (let e : scan os 0 0 0 ≡ j = omega arith in e), inr (t, first))
      ]

  -- The test `bestTS == 0` also holds after a genuine record of timestamp 0: if the first value holds
  -- one, and every genuine record among the others, at least one, has a positive timestamp,
  -- then `Select` returns the index of the first earliest among the others, though the first value's
  -- record is earlier.
  pub names_select_zero :
      (key v : Bytes) (values : List Bytes)
      → stamp v ≡ some 0
      → All (AtLeast 1) (map stamp values)
      → ¬ All IsNone (map stamp values)
      → (r : ℕ) × (t : ℕ) × (names_select u p w key (v ∷ values) ≡ ok (1 + r))
        × IsFirstEarliest (map stamp values) r t
        × (0 < t)
  unfolding names_select
  names_select_zero key v values zero_first pos genuine =
      let os = map stamp values in
      let forgets : scan (map stamp (v ∷ values)) 0 0 0 ≡ scan os 1 0 0 =
        unfold scan in rw zero_first refl in
      let picked : names_select u p w key (v ∷ values) ≡ ok (scan os 1 0 0) =
        ap ok (select_loop-scan (v ∷ values) 0 0 0 ∙ forgets) in
      elim (scan-Outcome os 1 0 0 pos) [
        | inl (same, inl nothing) ↦ absurd (genuine nothing)
        | inl (same, inr (positive, _)) ↦ absurd (omega arith)
        | inr (j, t, r, _, first) ↦
            (j, t, picked ∙ ap ok r, first, All-get_elem? (AtLeast 1) os j pos first.0)
      ]
