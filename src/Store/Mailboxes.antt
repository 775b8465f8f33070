-- ===== src/Store/Mailboxes.antt =====
-- The rows of a server's table `messages` as one mailbox for each user: a specification without row
-- ids, and what the operations of pkg/store on scoped rows make of it.
use dmail.Prelude.{
  ◌≡◌, refl, sym, ap, ◌∙◌, inl, inr, true, ◌&&◌, Option, none, some, List, [], ◌∷◌, ◌++◌, arith,
  if◌then◌else◌, Bool-cases, Option-cases, All,
}
use dmail.Prelude.Bytes.{Bytes, codes, eqb, eqb_iff, eqb_refl, append-injective}
use dmail.Sql.{find, replace, update}
use dmail.Sql.Keys.{find-replace, find-update}
use dmail.Store.{Message, Store, with_thread}
use dmail.Store.Single.{mark_read, delete_message}
use dmail.Store.Multi.{scoped, save_message_for_user, update_message_status_for_user}
use dmail.Store.Integrity.{message_key}
use dmail.Store.Messages.{IsReliable, changed, on_messages, exec-changed, with_thread-id}
use dmail.Store.Scope.{IsUuid}
use dmail.Store.Tenants.{row_of}

-- For each user and message id, the message that the user has under it.
abbrev pub Mailboxes : Type 0
Mailboxes = Bytes → Bytes → Option Message

pub data MailOp : Type 0 where
  deliver : Bytes → Message → MailOp
  read : Bytes → Bytes → MailOp
  discard : Bytes → Bytes → MailOp
  set_status : Bytes → Bytes → Bytes → MailOp

abbrev pub user_of : MailOp → Bytes
user_of (deliver v m) = v
user_of (read v id) = v
user_of (discard v id) = v
user_of (set_status v id status) = v

-- The specification.
abbrev pub alter : (Message → Message) → Option Message → Option Message
alter set none = none
alter set (some m) = some (set m)

abbrev pub at : Bytes → Bytes → (Option Message → Option Message) → Mailboxes → Mailboxes
at v id change b u i = if eqb v u && eqb id i then change (b u i) else b u i

unfoldable pub specify : MailOp → Mailboxes → Mailboxes
specify (deliver v m) = at v m.id (λ _. some (with_thread m))
specify (read v id) = at v id (alter (λ m. record m { is_read = true }))
specify (discard v id) = at v id (alter (λ m. record m { folder = codes "trash" }))
specify (set_status v id status) = at v id (alter (λ m. record m { status = status }))

unfoldable pub specify_all : List MailOp → Mailboxes → Mailboxes
unfolding specify
specify_all [] b = b
specify_all (op ∷ ops) b = specify_all ops (specify op b)

-- The store's operations.
unfoldable pub perform : MailOp → Store → Store
perform (deliver v m) s = (save_message_for_user v m s).1
perform (read v id) s = (mark_read (scoped v id) s).1
perform (discard v id) s = (delete_message (scoped v id) s).1
perform (set_status v id status) s = (update_message_status_for_user v id status s).1

unfoldable pub perform_all : List MailOp → Store → Store
unfolding perform
perform_all [] s = s
perform_all (op ∷ ops) s = perform_all ops (perform op s)

-- The mailboxes that the rows stand for.
abbrev pub mailboxes : List Message → Mailboxes
mailboxes rows u i = alter (λ m. record m { id = i }) (find message_key (scoped u i) rows)

-- Row ids of users with UUIDs agree exactly if users and message ids do.
eqb-scoped :
    (v u j i : Bytes) → IsUuid v → IsUuid u → eqb (scoped v j) (scoped u i) ≡ (eqb v u && eqb j i)
eqb-scoped v u j i hv hu = elim (Bool-cases (eqb (scoped v j) (scoped u i))) [
  | inl same ↦
      let e : scoped v j ≡ scoped u i = (eqb_iff _ _).0 same in
      let (users, rest) =
        append-injective v u (codes ":" ++ j) (codes ":" ++ i) (hv.size ∙ sym hu.size) e in
      let ids : j ≡ i = cc in same ∙ sym (rw (users, ids, eqb_refl u, eqb_refl i))
  | inr differ ↦ ground (arith, eqb_iff v u, eqb_iff j i, eqb_iff (scoped v j) (scoped u i))
]

-- What an operation does to the table.
abbrev pub rows : MailOp → List Message → List Message
rows (deliver v m) = replace message_key (row_of v m)
rows (read v id) = update message_key (scoped v id) (λ m. record m { is_read = true })
rows (discard v id) = update message_key (scoped v id) (λ m. record m { folder = codes "trash" })
rows (set_status v id status) = update message_key (scoped v id) (λ m. record m { status = status })

perform-changed :
    (op : MailOp) (s : Store) → IsReliable s → perform op s ≡ changed (on_messages (rows op)) s
unfolding perform save_message_for_user mark_read delete_message update_message_status_for_user
perform-changed (deliver v m) s r = ap (λ (x : _ × Store). x.1) (exec-changed _ s r)
perform-changed (read v id) s r = ap (λ (x : _ × Store). x.1) (exec-changed _ s r)
perform-changed (discard v id) s r = ap (λ (x : _ × Store). x.1) (exec-changed _ s r)
perform-changed (set_status v id status) s r = ap (λ (x : _ × Store). x.1) (exec-changed _ s r)

-- An update of one row, in terms of mailboxes.
update-at :
    (v id : Bytes) (set : Message → Message) (ms : List Message) (u i : Bytes)
    → IsUuid v
    → IsUuid u
    → ((m : Message) → (set m).id ≡ m.id)
    → ((m : Message) → record (set m) { id = i } ≡ set (record m { id = i }))
    → mailboxes (update message_key (scoped v id) set ms) u i
      ≡ at v id (alter set) (mailboxes ms) u i
update-at v id set ms u i hv hu keeps commutes =
    let updated = find-update message_key (scoped v id) set (scoped u i) ms keeps in
    elim (Option-cases (find message_key (scoped u i) ms)) [
      | inl absent ↦ ground (arith, updated, eqb-scoped v u id i hv hu)
      | inr (m, present) ↦ ground (arith, updated, eqb-scoped v u id i hv hu, commutes m)
    ]

pub rows-specify :
    (op : MailOp) (ms : List Message) (u i : Bytes)
    → IsUuid (user_of op)
    → IsUuid u
    → mailboxes (rows op ms) u i ≡ specify op (mailboxes ms) u i
unfolding specify
rows-specify (deliver v m) ms u i hv hu =
    rw
      (
        find-replace message_key (row_of v m) (scoped u i) ms,
        with_thread-id m,
        eqb-scoped v u m.id i hv hu,
      )
      (ground (arith, with_thread-id m, eqb_iff m.id i))
rows-specify (read v id) ms u i hv hu = update-at v id _ ms u i hv hu (λ m. refl) (λ m. refl)
rows-specify (discard v id) ms u i hv hu = update-at v id _ ms u i hv hu (λ m. refl) (λ m. refl)
rows-specify (set_status v id status) ms u i hv hu =
    update-at v id _ ms u i hv hu (λ m. refl) (λ m. refl)

-- The mailboxes of users with UUIDs are those of a specification.
abbrev pub Represents : Store → Mailboxes → Type 0
Represents s b = (u i : Bytes) → IsUuid u → mailboxes s.messages u i ≡ b u i

specify-congruent :
    (op : MailOp) (b b' : Mailboxes) (u i : Bytes)
    → b u i ≡ b' u i
    → specify op b u i ≡ specify op b' u i
unfolding specify
specify-congruent (deliver v m) b b' u i e = ground arith
specify-congruent (read v id) b b' u i e = ground arith
specify-congruent (discard v id) b b' u i e = ground arith
specify-congruent (set_status v id status) b b' u i e = ground arith

pub perform-Represents :
    (op : MailOp) (s : Store) (b : Mailboxes)
    → IsReliable s
    → IsUuid (user_of op)
    → Represents s b
    → Represents (perform op s) (specify op b)
perform-Represents op s b r hv h u i hu = rw (perform-changed op s r) (
    rows-specify op s.messages u i hv hu
    ∙ specify-congruent op (mailboxes s.messages) b u i (h u i hu))

perform-IsReliable : (op : MailOp) (s : Store) → IsReliable s → IsReliable (perform op s)
perform-IsReliable op s r = rw (perform-changed op s r) r

-- Where no statement fails and the ids of all users are UUIDs: after any sequence of deliveries,
-- MarkRead, DeleteMessage and changes of status, the rows stand for the mailboxes of the
-- specification, which changes one user's one message at a time and knows no row ids.
pub perform_all-Represents :
    (ops : List MailOp) (s : Store) (b : Mailboxes)
    → IsReliable s
    → All (λ op. IsUuid (user_of op)) ops
    → Represents s b
    → Represents (perform_all ops s) (specify_all ops b)
unfolding perform_all specify_all
perform_all-Represents [] s b r hs h = h
perform_all-Represents (op ∷ ops) s b r hs h =
    perform_all-Represents ops (perform op s) (specify op b) (perform-IsReliable op s r) hs.1
      (perform-Represents op s b r hs.0 h)
