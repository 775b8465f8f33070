-- ===== src/Sql/Keys.antt =====
-- Primary keys: lookups after each statement, and uniqueness.
use dmail.Prelude.{
  ◌≡◌, refl, sym, ap, ◌∙◌, ◌≢◌, inl, inr, none, some, List, [], ◌∷◌, ◌++◌, arith, if◌then◌else◌,
  Bool-cases, All, All-append,
}
use dmail.Prelude.Bytes.{Bytes, eqb, eqb_iff}
use dmail.Sql.{find, delete, replace, update}

module _ {A : Type 0} (key : A → Bytes) where
  abbrev pub IsUnique : List A → Type 0
  IsUnique [] = Unit
  IsUnique (r ∷ rows) = All (λ s. key s ≢ key r) rows × IsUnique rows

  pub find-append :
      (j : Bytes) (rows : List A) (row : A)
      → find key j (rows ++ row ∷ []) ≡ elim (find key j rows) [
        | none ↦ if eqb (key row) j then some row else none
        | some r ↦ some r
      ]
  unfolding find
  find-append j [] row = refl
  find-append j (r ∷ rows) row = ground (arith, find-append j rows row)

  pub find-delete :
      (k j : Bytes) (rows : List A)
      → find key j (delete key k rows) ≡ (if eqb k j then none else find key j rows)
  unfolding find delete
  find-delete k j [] = ground arith
  find-delete k j (r ∷ rows) =
      ground (arith, find-delete k j rows, eqb_iff (key r) k, eqb_iff (key r) j, eqb_iff k j)

  pub find-replace :
      (row : A) (j : Bytes) (rows : List A)
      → find key j (replace key row rows) ≡ (if eqb (key row) j then some row else find key j rows)
  unfolding replace
  find-replace row j rows =
      ground (arith, find-append j (delete key (key row) rows) row, find-delete (key row) j rows)

  -- An update that keeps the key.
  pub find-update :
      (k : Bytes) (set : A → A) (j : Bytes) (rows : List A)
      → ((r : A) → key (set r) ≡ key r)
      → find key j (update key k set rows)
        ≡ elim (find key j rows) [ none ↦ none | some r ↦ some (if eqb k j then set r else r) ]
  unfolding find update
  find-update k set j [] keeps = refl
  find-update k set j (r ∷ rows) keeps = ground (
    arith,
    keeps r,
    find-update k set j rows keeps,
    eqb_iff (key r) k,
    eqb_iff (key r) j,
    eqb_iff k j,
    ap (λ b. eqb b j) (keeps r),
  )

  delete-All : (P : A → Type 0) (k : Bytes) (rows : List A) → All P rows → All P (delete key k rows)
  unfolding delete
  delete-All P k [] h = tt
  delete-All P k (r ∷ rows) h = elim (Bool-cases (eqb (key r) k)) [
    | inl gone ↦ rw gone (delete-All P k rows h.1)
    | inr stays ↦ rw stays (h.0, delete-All P k rows h.1)
  ]

  delete-lacks : (k : Bytes) (rows : List A) → All (λ s. k ≢ key s) (delete key k rows)
  unfolding delete
  delete-lacks k [] = tt
  delete-lacks k (r ∷ rows) = elim (Bool-cases (eqb (key r) k)) [
    | inl gone ↦ rw gone (delete-lacks k rows)
    | inr stays ↦ rw stays (λ e. ground (arith, eqb_iff (key r) k, stays), delete-lacks k rows)
  ]

  pub delete-IsUnique : (k : Bytes) (rows : List A) → IsUnique rows → IsUnique (delete key k rows)
  unfolding delete
  delete-IsUnique k [] h = tt
  delete-IsUnique k (r ∷ rows) h = elim (Bool-cases (eqb (key r) k)) [
    | inl gone ↦ rw gone (delete-IsUnique k rows h.1)
    | inr stays ↦ rw stays (delete-All (λ s. key s ≢ key r) k rows h.0, delete-IsUnique k rows h.1)
  ]

  append-IsUnique :
      (rows : List A) (row : A)
      → IsUnique rows
      → All (λ s. key row ≢ key s) rows
      → IsUnique (rows ++ row ∷ [])
  append-IsUnique [] row h n = (tt, tt)
  append-IsUnique (r ∷ rows) row h n = (
    All-append (λ s. key s ≢ key r) rows (row ∷ []) h.0 (n.0, tt),
    append-IsUnique rows row h.1 n.1,
  )

  pub replace-IsUnique : (row : A) (rows : List A) → IsUnique rows → IsUnique (replace key row rows)
  unfolding replace
  replace-IsUnique row rows h =
      append-IsUnique _ row (delete-IsUnique (key row) rows h) (delete-lacks (key row) rows)

  find-lacks : (k : Bytes) (rows : List A) → find key k rows ≡ none → All (λ s. k ≢ key s) rows
  unfolding find
  find-lacks k [] e = tt
  find-lacks k (r ∷ rows) e = elim (Bool-cases (eqb (key r) k)) [
    | inl here ↦ absurd (ground (arith, here))
    | inr other ↦ (
      λ same. ground (arith, eqb_iff (key r) k, other),
      find-lacks k rows (ground (arith, other)),
    )
  ]

  -- A new row whose key was looked up in vain.
  pub insert-IsUnique :
      (row : A) (rows : List A)
      → find key (key row) rows ≡ none
      → IsUnique rows
      → IsUnique (rows ++ row ∷ [])
  insert-IsUnique row rows absent h = append-IsUnique rows row h (find-lacks (key row) rows absent)

  module _ (k : Bytes) (set : A → A) (keeps : (r : A) → key (set r) ≡ key r) where
    key-updated : (r : A) → key (if eqb (key r) k then set r else r) ≡ key r
    key-updated r = ground (arith, keeps r)

    update-lacks :
        (j : Bytes) (rows : List A)
        → All (λ s. key s ≢ j) rows
        → All (λ s. key s ≢ j) (update key k set rows)
    unfolding update
    update-lacks j [] h = tt
    update-lacks j (r ∷ rows) h = (λ e. h.0 (sym (key-updated r) ∙ e), update-lacks j rows h.1)

    pub update-IsUnique : (rows : List A) → IsUnique rows → IsUnique (update key k set rows)
    unfolding update
    update-IsUnique [] h = tt
    update-IsUnique (r ∷ rows) h =
        (rw (key-updated r) (update-lacks (key r) rows h.0), update-IsUnique rows h.1)
