-- ===== src/Sql.antt =====
-- The SQL that pkg/store writes, as operations on a table: the list of its rows in the order of
-- their insertion. `key` gives a row's primary key, which has the type TEXT unless said otherwise.
pub mod Keys
pub mod Order
use dmail.Prelude.{
  ℕ, ◌+◌, Bool, true, false, ◌&&◌, ◌||◌, Option, none, some, List, [], ◌∷◌, ◌++◌, ltb, leb, ◌==◌,
  if◌then◌else◌,
}
use dmail.Prelude.Bytes.{Bytes, eqb}

module _ {A : Type 0} (key : A → Bytes) where
  -- SELECT ... WHERE key = k, scanned by `QueryRow`.
  unfoldable pub find : Bytes → List A → Option A
  find k [] = none
  find k (r ∷ rows) = if eqb (key r) k then some r else find k rows

  -- DELETE ... WHERE key = k
  unfoldable pub delete : Bytes → List A → List A
  delete k [] = []
  delete k (r ∷ rows) = if eqb (key r) k then delete k rows else r ∷ delete k rows

  -- INSERT OR REPLACE
  unfoldable pub replace : A → List A → List A
  unfolding delete
  replace row rows = delete (key row) rows ++ row ∷ []

  -- UPDATE ... SET ... WHERE key = k
  unfoldable pub update : Bytes → (A → A) → List A → List A
  update k set [] = []
  update k set (r ∷ rows) = (if eqb (key r) k then set r else r) ∷ update k set rows

-- ORDER BY: `first a b` says that `a` may stand before `b`. Rows that may stand either way keep the
-- order of their insertion, which SQL leaves open.
module _ {A : Type 0} (first : A → A → Bool) where
  unfoldable pub insert_row : A → List A → List A
  insert_row x [] = x ∷ []
  insert_row x (y ∷ rows) = if first x y then x ∷ y ∷ rows else y ∷ insert_row x rows

  unfoldable pub order_by : List A → List A
  unfolding insert_row
  order_by [] = []
  order_by (x ∷ rows) = insert_row x (order_by rows)

-- The order of texts, byte by byte (the collation BINARY).
unfoldable pub leb_bytes : Bytes → Bytes → Bool
leb_bytes [] b = true
leb_bytes (x ∷ a) [] = false
leb_bytes (x ∷ a) (y ∷ b) = ltb x y || (x == y && leb_bytes a b)

-- The ASCII case folding of LIKE.
unfoldable pub fold_case : ℕ → ℕ
fold_case c = if leb b'A' c && leb c b'Z' then c + 32 else c

-- text LIKE pattern: `%` stands for any text, `_` for one character (here one byte), and letters are
-- compared without their case.
unfoldable pub like : Bytes → Bytes → Bool
unfolding fold_case
like [] [] = true
like [] (c ∷ text) = false
like (q ∷ pattern) [] = q == b'%' && like pattern []
like (q ∷ pattern) (c ∷ text) =
    let skip = like pattern (c ∷ text) in
    let take_one = like (q ∷ pattern) text in
    let step = like pattern text in
    if q == b'%'
    then skip || take_one
    else if q == b'_' || fold_case q == fold_case c
    then step
    else false
