-- ===== src/Store/Listing.antt =====
-- Folders, threads and counts of the single-user store.
use mathlib.Core.Path.{subst}
use mathlib.Core.List.{Perm}
use dmail.Prelude.{
  ℕ, ◌+◌, ◌≡◌, refl, sym, ap, ◌∙◌, ◌≢◌, inl, inr, Bool, true, false, ◌&&◌, not, some, List, [], ◌∷◌,
  arith, if◌then◌else◌, Bool-cases, length, filter, All, filter-All, ok,
}
use dmail.Prelude.Bytes.{Bytes, codes, eqb, eqb_iff}
use dmail.Sql.{find, update, insert_row, order_by}
use dmail.Sql.Keys.{IsUnique}
use dmail.Sql.Order.{IsOrdered, order_by-perm, order_by-IsOrdered, order_by-All}
use dmail.Store.{Message, Store, newest_first, oldest_first}
use dmail.Store.Integrity.{message_key}
use dmail.Store.Single.{
  list_messages, get_thread, list_thread, count_unread, delete_message, mark_read,
}
use dmail.Store.Messages.{IsReliable, changed, on_messages, exec-changed, query-read}

abbrev pub in_folder : Bytes → List Message → List Message
in_folder folder = filter (λ r. eqb r.folder folder)

newest_total : (a b : Message) → newest_first a b ≡ false → newest_first b a ≡ true
newest_total a b h = ground arith

newest_trans :
    (a b c : Message) → newest_first a b ≡ true → newest_first b c ≡ true → newest_first a c ≡ true
newest_trans a b c h k = ground arith

oldest_total : (a b : Message) → oldest_first a b ≡ false → oldest_first b a ≡ true
oldest_total a b h = ground arith

oldest_trans :
    (a b c : Message) → oldest_first a b ≡ true → oldest_first b c ≡ true → oldest_first a c ≡ true
oldest_trans a b c h k = ground arith

module _ (s : Store) (r : IsReliable s) where
  list_messages-eq :
      (folder : Bytes)
      → (list_messages folder s).0 ≡ ok (order_by newest_first (in_folder folder s.messages))
  unfolding list_messages
  list_messages-eq folder = ap (λ (x : _ × Store). x.0) (query-read _ s r)

  -- Where no statement fails: `ListMessages` returns exactly the rows of the folder, the newest
  -- first.
  pub list_messages-sorted :
      (folder : Bytes)
      → (ms : List Message) × ((list_messages folder s).0 ≡ ok ms)
        × Perm ms (in_folder folder s.messages)
        × IsOrdered newest_first ms
        × All (λ m. m.folder ≡ folder) ms
  list_messages-sorted folder = (
    order_by newest_first (in_folder folder s.messages),
    list_messages-eq folder,
    order_by-perm newest_first (in_folder folder s.messages),
    order_by-IsOrdered newest_first newest_total newest_trans (in_folder folder s.messages),
    order_by-All newest_first (λ m. m.folder ≡ folder) (in_folder folder s.messages)
        (filter-All (λ m. m.folder ≡ folder) (λ m. eqb m.folder folder)
          (λ m. (eqb_iff m.folder folder).0) s.messages),
  )

-- Counting does not depend on the order.
module _ (p : Message → Bool) where
  length-filter-insert_row :
      (x : Message) (rows : List Message)
      → length (filter p (insert_row newest_first x rows)) ≡ length (filter p (x ∷ rows))
  unfolding insert_row
  length-filter-insert_row x [] = refl
  length-filter-insert_row x (y ∷ rows) = ground (arith, length-filter-insert_row x rows)

  length-filter-order_by :
      (rows : List Message)
      → length (filter p (order_by newest_first rows)) ≡ length (filter p rows)
  unfolding order_by
  length-filter-order_by [] = refl
  length-filter-order_by (x ∷ rows) =
      length-filter-insert_row x (order_by newest_first rows)
      ∙ (ground (arith, length-filter-order_by rows))

  length-filter-filter :
      (q : Message → Bool) (rows : List Message)
      → length (filter p (filter q rows)) ≡ length (filter (λ m. q m && p m) rows)
  length-filter-filter q [] = refl
  length-filter-filter q (x ∷ rows) = ground (arith, length-filter-filter q rows)

abbrev unread : Bytes → List Message → ℕ
unread folder rows = length (filter (λ m. eqb m.folder folder && not m.is_read) rows)

mark : Message → Message
mark m = record m { is_read = true }

update-absent :
    (set : Message → Message) (id : Bytes) (rows : List Message)
    → All (λ m. m.id ≢ id) rows
    → update message_key id set rows ≡ rows
unfolding update
update-absent set id [] h = refl
update-absent set id (m ∷ rows) h =
    ground (arith, update-absent set id rows h.1, eqb_iff m.id id, h.0)

unread-update :
    (folder id : Bytes) (rows : List Message) (m : Message)
    → IsUnique message_key rows
    → find message_key id rows ≡ some m
    → unread folder (update message_key id mark rows)
        + (if eqb m.folder folder && not m.is_read then 1 else 0)
      ≡ unread folder rows
unfolding find update mark
unread-update folder id [] m u e = cc
unread-update folder id (r ∷ rows) m u e = elim (Bool-cases (eqb r.id id)) [
  | inl here ↦
      let same : r ≡ m = ground (arith, here) in
      let rest : update message_key id mark rows ≡ rows =
        update-absent mark id rows
          (subst (λ k. All (λ s. s.id ≢ k) rows) ((eqb_iff r.id id).0 here) u.0) in
      rw (here, rest, same) (ground arith)
  | inr there ↦
      rw there (ground (arith, unread-update folder id rows m u.1 (ground (arith, there))))
]

-- A thread's row with its id if it has none: `if threadID == ""`.
abbrev pub thread_of : Bytes → Message → Bytes
thread_of id m = if eqb m.thread_id [] then id else m.thread_id

in_trash-lacks :
    (folder id : Bytes) (rows : List Message)
    → folder ≢ codes "trash"
    → All
        (λ m. m.id ≢ id)
        (in_folder folder (update message_key id (λ m. record m { folder = codes "trash" }) rows))
unfolding update
in_trash-lacks folder id [] h = tt
in_trash-lacks folder id (r ∷ rows) h = elim (Bool-cases (eqb r.id id)) [
  | inl here ↦ rw here (elim (Bool-cases (eqb (codes "trash") folder)) [
    | inl same ↦ absurd (h (sym ((eqb_iff (codes "trash") folder).0 same)))
    | inr other ↦ rw other (in_trash-lacks folder id rows h)
  ])
  | inr there ↦ rw there (elim (Bool-cases (eqb r.folder folder)) [
    | inl kept ↦
        rw kept ((λ e. ground (arith, eqb_iff r.id id, there)), in_trash-lacks folder id rows h)
    | inr other ↦ rw other (in_trash-lacks folder id rows h)
  ])
]

module _ (s : Store) (r : IsReliable s) (folder : Bytes) where
  -- Where no statement fails: the unread count of a folder is the number of unread messages that
  -- ListMessages returns for it.
  pub count_unread-list_messages :
      (ms : List Message)
      → (list_messages folder s).0 ≡ ok ms
      → (count_unread folder s).0 ≡ ok (length (filter (λ m. not m.is_read) ms))
  unfolding count_unread
  count_unread-list_messages ms e =
      let listed : order_by newest_first (in_folder folder s.messages) ≡ ms =
        ground (arith, list_messages-eq s r folder) in
      ap (λ (x : _ × Store). x.0) (query-read _ s r)
      ∙ ap ok (
          sym (
            rw (← listed) (
              length-filter-order_by (λ m. not m.is_read) (in_folder folder s.messages)
              ∙ length-filter-filter (λ m. not m.is_read) (λ m. eqb m.folder folder) s.messages)))

module _ (s : Store) (r : IsReliable s) (folder id : Bytes) where
  -- Where no statement fails: where ids are unique, marking the stored message `m` as read lowers
  -- the unread count of a folder by one if `m` was unread in that folder, and otherwise leaves it.
  pub count_unread-mark_read :
      (m : Message)
      → IsUnique message_key s.messages
      → find message_key id s.messages ≡ some m
      → (before after : ℕ) × ((count_unread folder s).0 ≡ ok before)
        × ((count_unread folder (mark_read id s).1).0 ≡ ok after)
        × (after + (if eqb m.folder folder && not m.is_read then 1 else 0) ≡ before)
  unfolding count_unread mark_read mark
  count_unread-mark_read m unique e = (
    unread folder s.messages,
    unread folder (update message_key id mark s.messages),
    ap (λ (x : _ × Store). x.0) (query-read _ s r),
    rw (exec-changed (on_messages (update message_key id mark)) s r) (
        ap (λ (x : _ × Store). x.0)
          (query-read _ (changed (on_messages (update message_key id mark)) s) r)),
    unread-update folder id s.messages m unique e,
  )

  -- Where no statement fails: after DeleteMessage no folder but the trash lists a message of that
  -- id.
  pub list_messages-delete_message :
      folder ≢ codes "trash"
      → (ms : List Message) × ((list_messages folder (delete_message id s).1).0 ≡ ok ms)
        × All (λ m. m.id ≢ id) ms
  unfolding delete_message
  list_messages-delete_message other =
      let move = λ (m : Message). record m { folder = codes "trash" } in
      let trash = on_messages (update message_key id move) in
      let rows = update message_key id move s.messages in
      (
        order_by newest_first (in_folder folder rows),
        rw (exec-changed trash s r) (list_messages-eq (changed trash s) r folder),
        order_by-All newest_first (λ m. m.id ≢ id) (in_folder folder rows)
            (in_trash-lacks folder id s.messages other),
      )

module _ (s : Store) (r : IsReliable s) (id : Bytes) where
  -- Where no statement fails, the thread of a stored message holds exactly the messages of its
  -- thread id, or of its own id where that is empty, the oldest first.
  pub get_thread-sorted :
      (m : Message)
      → find message_key id s.messages ≡ some m
      → (ms : List Message) × ((get_thread id s).0 ≡ ok ms)
        × Perm ms (filter (λ x. eqb x.thread_id (thread_of id m)) s.messages)
        × IsOrdered oldest_first ms
  unfolding get_thread list_thread
  get_thread-sorted m e =
      let rows = filter (λ x. eqb x.thread_id (thread_of id m)) s.messages in
      (
        order_by oldest_first rows,
        ground (
          arith,
          query-read (λ t. find message_key id t.messages) s r,
          e,
          query-read
              (λ t.
                order_by oldest_first (filter (λ x. eqb x.thread_id (thread_of id m)) t.messages))
              (changed (λ t. t) s) r,
        ),
        order_by-perm oldest_first rows,
        order_by-IsOrdered oldest_first oldest_total oldest_trans rows,
      )
