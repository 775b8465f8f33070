-- ===== src/Sql/Order.antt =====
-- ORDER BY returns the rows that it was given, in the order asked for.
use mathlib.Core.List.{Perm}
use mathlib.Core.List.Perm
use dmail.Prelude.{◌≡◌, inl, inr, Bool, true, false, List, [], ◌∷◌, Bool-cases, All}
use dmail.Sql.{insert_row, order_by}

module _ {A : Type 0} (first : A → A → Bool) where
  -- Every row may stand before those after it.
  abbrev pub IsOrdered : List A → Type 0
  IsOrdered [] = Unit
  IsOrdered (x ∷ rows) = All (λ y. first x y ≡ true) rows × IsOrdered rows

  insert_row-perm : (x : A) (rows : List A) → Perm (insert_row first x rows) (x ∷ rows)
  unfolding insert_row
  insert_row-perm x [] = Perm.refl _
  insert_row-perm x (y ∷ rows) = elim (Bool-cases (first x y)) [
    | inl here ↦ rw here (Perm.refl _)
    | inr there ↦ rw there (Perm.trans (Perm.cons y (insert_row-perm x rows)) (Perm.swap x y rows))
  ]

  pub order_by-perm : (rows : List A) → Perm (order_by first rows) rows
  unfolding order_by
  order_by-perm [] = Perm.refl _
  order_by-perm (x ∷ rows) =
      Perm.trans (insert_row-perm x (order_by first rows)) (Perm.cons x (order_by-perm rows))

  insert_row-All :
      (P : A → Type 0) (x : A) (rows : List A) → P x → All P rows → All P (insert_row first x rows)
  unfolding insert_row
  insert_row-All P x [] p h = (p, tt)
  insert_row-All P x (y ∷ rows) p h = elim (Bool-cases (first x y)) [
    | inl here ↦ rw here (p, h)
    | inr there ↦ rw there (h.0, insert_row-All P x rows p h.1)
  ]

  pub order_by-All : (P : A → Type 0) (rows : List A) → All P rows → All P (order_by first rows)
  unfolding order_by
  order_by-All P [] h = tt
  order_by-All P (x ∷ rows) h =
      insert_row-All P x (order_by first rows) h.0 (order_by-All P rows h.1)

  module _ (total : (x y : A) → first x y ≡ false → first y x ≡ true)
      (trans : (x y z : A) → first x y ≡ true → first y z ≡ true → first x z ≡ true) where
    before-All :
        (x y : A) (rows : List A)
        → first x y ≡ true
        → All (λ z. first y z ≡ true) rows
        → All (λ z. first x z ≡ true) rows
    before-All x y [] h a = tt
    before-All x y (z ∷ rows) h a = (trans x y z h a.0, before-All x y rows h a.1)

    insert_row-IsOrdered :
        (x : A) (rows : List A) → IsOrdered rows → IsOrdered (insert_row first x rows)
    unfolding insert_row
    insert_row-IsOrdered x [] h = (tt, tt)
    insert_row-IsOrdered x (y ∷ rows) h = elim (Bool-cases (first x y)) [
      | inl here ↦ rw here ((here, before-All x y rows here h.0), h)
      | inr there ↦ rw there (
        insert_row-All (λ z. first y z ≡ true) x rows (total x y there) h.0,
        insert_row-IsOrdered x rows h.1,
      )
    ]

    pub order_by-IsOrdered : (rows : List A) → IsOrdered (order_by first rows)
    unfolding order_by
    order_by-IsOrdered [] = tt
    order_by-IsOrdered (x ∷ rows) =
        insert_row-IsOrdered x (order_by first rows) (order_by-IsOrdered rows)
