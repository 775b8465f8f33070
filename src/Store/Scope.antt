-- ===== src/Store/Scope.antt =====
-- The prefix "userID:" keeps the messages of different users apart.
use dmail.Prelude.{
  ℕ, ◌≤◌, ◌≡◌, refl, sym, ◌∙◌, ◌≢◌, ◌⊎◌, inl, inr, Bool, true, false, ◌&&◌, List, [], ◌∷◌, ◌++◌,
  append-nil, append_assoc, arith, ◌==◌, Bool-cases, length, drop, filter, drop-append,
  filter-append, All,
}
use dmail.Prelude.Bytes.{
  Bytes, codes, eqb, eqb_iff, has_prefix, has_prefix-append, append-injective,
}
use dmail.Sql.{delete, replace, update, fold_case, like}
use dmail.Store.{Message}
use dmail.Store.Integrity.{message_key}
use dmail.Store.Multi.{scoped, is_scoped_to, strip_scope}

-- The ids that `uuid.NewString` returns: 36 digits, letters a to f and hyphens.
abbrev pub UuidChar : ℕ → Type 0
UuidChar c = ((b'0' ≤ c) × (c ≤ b'9')) ⊎ (((b'a' ≤ c) × (c ≤ b'f')) ⊎ (c ≡ b'-'))

pub record IsUuid (id : Bytes) : Type 0 where
  pub size : length id ≡ 36
  pub chars : All UuidChar id

like_any : (text : Bytes) → like (codes "%") text ≡ true
unfolding like
like_any [] = refl
like_any (c ∷ text) = ground (arith, like_any text)

-- One step of a pattern whose first character stands for itself.
like_plain :
    (q c : ℕ) (pattern text : Bytes)
    → UuidChar q ⊎ (q ≡ b':')
    → like (q ∷ pattern) (c ∷ text) ≡ (fold_case c == q && like pattern text)
unfolding like fold_case
like_plain q c pattern text h = ground arith

fold_case_uuid : (c : ℕ) → UuidChar c → fold_case c ≡ c
unfolding fold_case
fold_case_uuid c h = ground arith

-- The pattern of one user against the rows of another whose id has the same length.
like_scoped :
    (u v id : Bytes)
    → length u ≡ length v
    → All UuidChar u
    → All UuidChar v
    → like (u ++ codes ":%") (v ++ (codes ":" ++ id)) ≡ eqb u v
unfolding eqb
like_scoped [] [] id l hu hv =
    like_plain b':' b':' (codes "%") id (inr refl) ∙ unfold fold_case in like_any id
like_scoped [] (y ∷ v) id l hu hv = absurd (omega arith)
like_scoped (x ∷ u) [] id l hu hv = absurd (omega arith)
like_scoped (x ∷ u) (y ∷ v) id l hu hv = ground (
  arith,
  like_plain x y (u ++ codes ":%") (v ++ (codes ":" ++ id)) (inl hu.0),
  fold_case_uuid y hv.0,
  like_scoped u v id (omega arith) hu.1 hv.1,
)

-- A row of user `v`, as a user's pattern sees it.
pub is_scoped_to-scoped :
    (u v : Bytes) (m : Message) (id : Bytes)
    → IsUuid u
    → IsUuid v
    → m.id ≡ scoped v id
    → is_scoped_to u m ≡ eqb u v
unfolding is_scoped_to
is_scoped_to-scoped u v m id hu hv e =
    rw e (like_scoped u v id (hu.size ∙ sym hv.size) hu.chars hv.chars)

pub strip_scope-scoped :
    (u : Bytes) (m : Message) (id : Bytes)
    → m.id ≡ scoped u id
    → strip_scope u m ≡ record m { id = id }
unfolding strip_scope
strip_scope-scoped u m id e =
    let prefix = u ++ codes ":" in
    let whole : m.id ≡ prefix ++ id = e ∙ sym (append_assoc u (codes ":") id) in
    let starts : has_prefix m.id prefix ≡ true = rw whole (has_prefix-append prefix id) in
    let rest : drop (length prefix) m.id ≡ id =
      rw whole (drop-append prefix id (length prefix) refl) in
    ground (arith, starts, rest)

-- Rows that a test refuses do not show in what it keeps.
filter-delete :
    (p : Message → Bool) (k : Bytes) (rows : List Message)
    → ((r : Message) → r.id ≡ k → p r ≡ false)
    → filter p (delete message_key k rows) ≡ filter p rows
unfolding delete
filter-delete p k [] h = refl
filter-delete p k (r ∷ rows) h = elim (Bool-cases (eqb r.id k)) [
  | inl gone ↦
      let refused : p r ≡ false = h r ((eqb_iff r.id k).0 gone) in
      ground (arith, gone, refused, filter-delete p k rows h)
  | inr stays ↦ ground (arith, stays, filter-delete p k rows h)
]

pub filter-replace_other :
    (p : Message → Bool) (row : Message) (rows : List Message)
    → ((r : Message) → r.id ≡ row.id → p r ≡ false)
    → filter p (replace message_key row rows) ≡ filter p rows
unfolding replace
filter-replace_other p row rows h =
    let refused : p row ≡ false = h row refl in
    rw (filter-append p (delete message_key row.id rows) (row ∷ []))
      (ground (arith, refused, filter-delete p row.id rows h, append-nil (filter p rows)))

pub filter-update_other :
    (p : Message → Bool) (k : Bytes) (set : Message → Message) (rows : List Message)
    → ((r : Message) → (set r).id ≡ r.id)
    → ((r : Message) → r.id ≡ k → p r ≡ false)
    → filter p (update message_key k set rows) ≡ filter p rows
unfolding update
filter-update_other p k set [] keeps h = refl
filter-update_other p k set (r ∷ rows) keeps h = elim (Bool-cases (eqb r.id k)) [
  | inl named ↦
      let same : r.id ≡ k = (eqb_iff r.id k).0 named in
      let before : p r ≡ false = h r same in
      let after : p (set r) ≡ false = h (set r) (keeps r ∙ same) in
      ground (arith, named, before, after, filter-update_other p k set rows keeps h)
  | inr other ↦ ground (arith, other, filter-update_other p k set rows keeps h)
]

-- Rows of different users have different ids.
pub scoped-apart : (u v i j : Bytes) → IsUuid u → IsUuid v → u ≢ v → scoped u i ≢ scoped v j
scoped-apart u v i j hu hv other e =
    other (append-injective u v (codes ":" ++ i) (codes ":" ++ j) (hu.size ∙ sym hv.size) e).0

-- No user has the row of a message of the empty user id.
pub scoped-unowned : (u x i : Bytes) → IsUuid u → scoped [] x ≢ scoped u i
scoped-unowned [] x i h e = let size : 0 ≡ 36 = h.size in absurd (omega (arith, size))
scoped-unowned (c ∷ u) x i h e =
    let digit : UuidChar c = h.chars.0 in absurd (ground (arith, digit, e))
