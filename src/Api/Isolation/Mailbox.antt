-- ===== src/Api/Isolation/Mailbox.antt =====
-- The handlers on the store alone leave the other users' messages alone.
use dmail.Prelude.{
  ℕ, refl, sym, ◌≢◌, inl, inr, Bool, true, Option, none, some, List, [], ok, err, Result,
  Bool-cases, Option-cases,
}
use dmail.Prelude.Bytes.{Bytes, codes, eqb}
use dmail.Store
use dmail.Store.{Message, User, Tables, Store, exec, query}
use dmail.Store.Single.{get_message, mark_read, delete_message, save_contact}
use dmail.Store.Multi.{scoped, search_messages_for_user, get_thread_for_user, list_thread_for_user}
use dmail.Store.Scope.{IsUuid, scoped-apart}
use dmail.Api.{Reply, ContactRequest, or_500}
use dmail.Api.Single.{is_contact}
use dmail.Api.Mailbox.{
  identity_reply, confirm_read, propagate_receipt, read_reply, handle_mt_mark_read,
  handle_mt_delete_message, handle_mt_save_contact, handle_mt_search_messages,
}
use dmail.Api.Isolation.{Shows, Sees, exec-Shows, query-Shows, update-Shows, same-Shows}
use dmail.Api.Isolation.Sending.{update_message_status_for_user-Shows, get_user_by_pubkey-Shows}

module _ (u i : Bytes) (before : Option Message) (hu : IsUuid u) where
  pub or_500-Shows :
      {A : Type 0} (reply : A → Reply) (answer : Result Store.Error A) (s : Store)
      → Sees u i before s
      → Sees u i before (or_500 reply (answer, s)).1
  unfolding or_500
  or_500-Shows reply (ok a) s h = h
  or_500-Shows reply (err _) s h = h

  -- A handler that reads, and one that writes to another table.
  pub read-Shows :
      {A : Type 0} (reply : A → Reply) (read : Tables → A) (s : Store)
      → Sees u i before s
      → Sees u i before (or_500 reply (query read s)).1
  read-Shows reply read s h = or_500-Shows reply _ _ (query-Shows u i before read s h)

  pub write-Shows :
      (reply : Unit {0} → Reply) (change : Tables → Tables) (s : Store)
      → (Shows u i before s.tables → Shows u i before (change s.tables))
      → Sees u i before s
      → Sees u i before (or_500 reply (exec change s)).1
  write-Shows reply change s keeps h =
      or_500-Shows reply _ _ (exec-Shows u i before change s keeps h)

  pub identity_reply-Shows :
      (found : Result Store.Error (Option User)) (s : Store)
      → Sees u i before s
      → Sees u i before (identity_reply (found, s)).1
  unfolding identity_reply
  identity_reply-Shows (ok (some x)) s h = h
  identity_reply-Shows (ok none) s h = h
  identity_reply-Shows (err _) s h = h

  confirm_read-Shows :
      (id : Bytes) (found : Result Store.Error (Option User)) (s : Store)
      → Sees u i before s
      → Sees u i before (confirm_read id (found, s))
  unfolding confirm_read
  confirm_read-Shows id (ok (some x)) s h =
      update_message_status_for_user-Shows u i before hu x.id id (codes "read") s h
  confirm_read-Shows id (ok none) s h = h
  confirm_read-Shows id (err _) s h =
      update_message_status_for_user-Shows u i before hu [] id (codes "read") s h

  propagate_receipt-Shows :
      (id : Bytes) (found : Result Store.Error (Option Message)) (s : Store)
      → Sees u i before s
      → Sees u i before (propagate_receipt id (found, s))
  unfolding propagate_receipt
  propagate_receipt-Shows id (ok (some m)) s h =
      confirm_read-Shows id _ _ (get_user_by_pubkey-Shows u i before hu m.sender_pubkey s h)
  propagate_receipt-Shows id (ok none) s h = h
  propagate_receipt-Shows id (err _) s h =
      confirm_read-Shows id _ _ (get_user_by_pubkey-Shows u i before hu [] s h)

  read_reply-Shows :
      (v id : Bytes) (done : Result Store.Error (Unit {0})) (s : Store)
      → Sees u i before s
      → Sees u i before (read_reply v id (done, s)).1
  unfolding read_reply get_message
  read_reply-Shows v id (ok _) s h = propagate_receipt-Shows id _ _ (query-Shows u i before _ s h)
  read_reply-Shows v id (err _) s h = h

  -- The second query of GetThreadForUser.
  thread-Shows :
      (v id : Bytes) (found : Result Store.Error (Option Message)) (s : Store)
      → Sees u i before s
      → Sees u i before
          (let r : Result Store.Error (List Message) × Store = elim found [
            | err e ↦ (err e, s)
            | ok none ↦ (ok [], s)
            | ok (some m) ↦ list_thread_for_user v id m.thread_id s
          ] in
            r).1
  unfolding list_thread_for_user
  thread-Shows v id (err e) s h = h
  thread-Shows v id (ok none) s h = h
  thread-Shows v id (ok (some m)) s h = query-Shows u i before _ s h

  pub get_thread_for_user-Shows :
      (v id : Bytes) (s : Store)
      → Sees u i before s
      → Sees u i before (get_thread_for_user v id s).1
  unfolding get_thread_for_user
  get_thread_for_user-Shows v id s h = thread-Shows v id _ _ (query-Shows u i before _ s h)

  module _ (v id : Bytes) (hv : IsUuid v) (other : u ≢ v) (s : Store) (h : Sees u i before s) where
    apart : scoped v id ≢ scoped u i
    apart = scoped-apart v u id i hv hu (λ e. other (sym e))

    pub handle_mt_mark_read-Shows : Sees u i before (handle_mt_mark_read v id s).1
    unfolding handle_mt_mark_read mark_read
    handle_mt_mark_read-Shows = read_reply-Shows v id _ _ (
        exec-Shows u i before _ s
          (update-Shows u i before (scoped v id) (λ m. record m { is_read = true }) s.tables
            (λ m. refl) (inl apart))
          h)

    pub handle_mt_delete_message-Shows : Sees u i before (handle_mt_delete_message v id s).1
    unfolding handle_mt_delete_message delete_message
    handle_mt_delete_message-Shows =
        write-Shows _ _ s
          (update-Shows u i before (scoped v id) (λ m. record m { folder = codes "trash" }) s.tables
            (λ m. refl) (inl apart))
          h

  pub handle_mt_save_contact-Shows :
      (now : ℕ) (req : Option ContactRequest) (s : Store)
      → Sees u i before s
      → Sees u i before (handle_mt_save_contact now req s).1
  unfolding handle_mt_save_contact save_contact
  handle_mt_save_contact-Shows now none s h = h
  handle_mt_save_contact-Shows now (some req) s h = elim (Bool-cases (is_contact req)) [
    | inl good ↦
        rw (good, handle_mt_save_contact)
          (write-Shows _ _ s (same-Shows u i before s.tables _ refl refl) h)
    | inr bad ↦ rw (bad, handle_mt_save_contact) h
  ]

  search_messages_for_user-Shows :
      (fts_match : Bytes → Option (Message → Bool)) (v q : Bytes) (s : Store)
      → Sees u i before s
      → Sees u i before (search_messages_for_user fts_match v q 50 s).1
  unfolding search_messages_for_user
  search_messages_for_user-Shows fts_match v q s h = elim (Option-cases (fts_match q)) [
    | inl malformed ↦ rw (malformed, search_messages_for_user) h
    | inr (matches, parsed) ↦ rw (parsed, search_messages_for_user) (query-Shows u i before _ s h)
  ]

  pub handle_mt_search_messages-Shows :
      (fts_match : Bytes → Option (Message → Bool)) (v q : Bytes) (s : Store)
      → Sees u i before s
      → Sees u i before (handle_mt_search_messages fts_match v q s).1
  unfolding handle_mt_search_messages
  handle_mt_search_messages-Shows fts_match v q s h = elim (Bool-cases (eqb q [])) [
    | inl empty ↦ rw (empty, handle_mt_search_messages) h
    | inr asks ↦
        rw (asks, handle_mt_search_messages)
          (or_500-Shows _ (search_messages_for_user fts_match v q 50 s).0
            (search_messages_for_user fts_match v q 50 s).1
            (search_messages_for_user-Shows fts_match v q s h))
  ]
