-- ===== src/Store/Messages.antt =====
-- What a message looks like after each operation of the single-user store.
use dmail.Prelude.{
  ℕ, ◌+◌, ◌≡◌, refl, ap, ◌∙◌, Bool, true, false, Option, none, some, List, arith, if◌then◌else◌, ok,
}
use dmail.Prelude.Bytes.{Bytes, codes, eqb}
use dmail.Sql.{find, update}
use dmail.Sql.Keys.{find-replace, find-update}
use dmail.Store.{Message, Tables, Store, exec, query, with_thread}
use dmail.Store.Integrity.{message_key}
use dmail.Store.Single.{save_message, get_message, mark_read, delete_message, update_message_status}

-- No statement from here on fails.
abbrev pub IsReliable : Store → Type 0
IsReliable s = (n : ℕ) → s.fault n ≡ false

-- The store after a statement that ran.
abbrev pub changed : (Tables → Tables) → Store → Store
changed change s = record s { tables = change s.tables; statements = s.statements + 1 }

-- A statement that changes the messages alone.
abbrev pub on_messages : (List Message → List Message) → Tables → Tables
on_messages change t = record t { messages = change t.messages }

pub exec-changed :
    (change : Tables → Tables) (s : Store)
    → IsReliable s
    → exec change s ≡ (ok tt, changed change s)
unfolding exec
exec-changed change s r = rw (r s.statements)

pub exec-IsReliable :
    (change : Tables → Tables) (s : Store) → IsReliable s → IsReliable (exec change s).1
exec-IsReliable change s r = rw (exec-changed change s r) r

pub query-read :
    {A : Type 0} (read : Tables → A) (s : Store)
    → IsReliable s
    → query read s ≡ (ok (read s.tables), changed (λ t. t) s)
unfolding query
query-read read s r = rw (r s.statements)

pub with_thread-id : (m : Message) → (with_thread m).id ≡ m.id
unfolding with_thread
with_thread-id m = ground arith

pub with_thread-folder : (m : Message) → (with_thread m).folder ≡ m.folder
unfolding with_thread
with_thread-folder m = ground arith

pub get_message-changed :
    (change : Tables → Tables) (s : Store) (id : Bytes)
    → IsReliable s
    → (get_message id (exec change s).1).0 ≡ ok (find message_key id (change s.tables).messages)
unfolding get_message
get_message-changed change s id r =
    rw (exec-changed change s r) (ap (λ (x : _ × Store). x.0) (query-read _ (changed change s) r))

module _ (s : Store) (r : IsReliable s) (id : Bytes) where
  pub get_message-find : (get_message id s).0 ≡ ok (find message_key id s.messages)
  unfolding get_message
  get_message-find = ap (λ (x : _ × Store). x.0) (query-read _ s r)

  -- Where no statement fails: after a message is saved, its id gives the message with its thread
  -- filled in, and every other id gives what it gave before.
  pub get_message-save_message :
      (m : Message)
      → (get_message id (save_message m s).1).0
        ≡ (if eqb m.id id then ok (some (with_thread m)) else (get_message id s).0)
  unfolding save_message
  get_message-save_message m =
      rw (get_message-changed _ s id r, get_message-find)
        (ground (arith, find-replace message_key (with_thread m) id s.messages, with_thread-id m))

-- What an UPDATE makes of a looked-up message, if it is the one named.
abbrev pub altered : Bool → (Message → Message) → Option Message → Option Message
altered here set none = none
altered here set (some m) = some (if here then set m else m)

module _ (s : Store) (r : IsReliable s) (id j : Bytes) (before : Option Message) where
  -- Where no statement fails: if `j` gives `before`, then after MarkRead, DeleteMessage and
  -- UpdateMessageStatus of `id` it gives the same message, but read, in the trash, or of the new
  -- status where `j` is `id`.
  pub get_message_updated :
      (status : Bytes)
      → (get_message j s).0 ≡ ok before
      → ((get_message j (mark_read id s).1).0
          ≡ ok (altered (eqb id j) (λ m. record m { is_read = true }) before))
        × ((get_message j (delete_message id s).1).0
            ≡ ok (altered (eqb id j) (λ m. record m { folder = codes "trash" }) before))
        × ((get_message j (update_message_status id status s).1).0
            ≡ ok (altered (eqb id j) (λ m. record m { status = status }) before))
  unfolding mark_read delete_message update_message_status
  get_message_updated status e =
      let found : find message_key j s.messages ≡ before = ground (arith, get_message-find s r j) in
      let at = λ (set : Message → Message) (keeps : (m : Message) → (set m).id ≡ m.id).
        let after : find message_key j (update message_key id set s.messages)
            ≡ altered (eqb id j) set before =
          ground (arith, found, find-update message_key id set j s.messages keeps) in
        after in
      (
        get_message-changed _ s j r ∙ ap ok (at _ (λ m. refl)),
        get_message-changed _ s j r ∙ ap ok (at _ (λ m. refl)),
        get_message-changed _ s j r ∙ ap ok (at _ (λ m. refl)),
      )
