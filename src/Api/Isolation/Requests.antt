-- ===== src/Api/Isolation/Requests.antt =====
-- No request of a user of a server changes a message of another user but for its status.
use dmail.Prelude.{
  ℕ, ◌≡◌, refl, ◌≢◌, inl, inr, Option, none, some, [], ok, err, Result, Result-cases, Option-cases,
  Bool-cases, All,
}
use dmail.Prelude.Bytes.{Bytes, codes, eqb, has_suffix}
use dmail.Node.{Dht}
use dmail.Names.{validate_name}
use dmail.Store.{Message, User}
use dmail.Store.Single.{get_message, list_contacts, delete_contact, get_my_names}
use dmail.Store.Multi.{get_user_by_id, list_users, list_messages_for_user, count_unread_for_user}
use dmail.Store.Scope.{IsUuid}
use dmail.Store.Mailboxes.{alter, mailboxes}
use dmail.Auth.Sessions.{get}
use dmail.Federation.{parse_federated_address}
use dmail.MultiTenant
use dmail.MultiTenant.{Server}
use dmail.Api.{SendRequest}
use dmail.Api.Single.{is_incomplete}
use dmail.Api.Mailbox.{
  handle_mt_identity, handle_mt_list_messages, handle_mt_get_message, handle_mt_list_contacts,
  handle_mt_delete_contact, handle_mt_my_names, handle_mt_unread_count, handle_mt_get_thread,
  handle_mt_list_users,
}
use dmail.Api.Site.{
  Site, Request, sent_reply, resolve_in, send_resolved, send_here, handle_mt_send_message,
  start_naming, handle_mt_register_name,
}
use dmail.Api.Serve.{Setup, handle}
use dmail.Api.Isolation.{blank, Sees, query-Shows, same-Shows}
use dmail.Api.Isolation.Sending.{
  send_message_for_user-Shows, send_message_federated-Shows, resolve_name_for_user-Shows,
}
use dmail.Api.Isolation.Mailbox.{
  or_500-Shows, read-Shows, write-Shows, identity_reply-Shows, get_thread_for_user-Shows,
  handle_mt_save_contact-Shows, handle_mt_search_messages-Shows, handle_mt_mark_read-Shows,
  handle_mt_delete_message-Shows,
}

module _ (u i : Bytes) (before : Option Message) (hu : IsUuid u) where
  module _ (c : Setup) {D : Type 0} (dht : Dht D) (now : ℕ) (v msg_id : Bytes) (hv : IsUuid v)
      (other : u ≢ v) (fresh : msg_id ≢ i) where
    abbrev InSite : Site D → Type 0
    InSite d = Sees u i before d.server.store

    sent_reply-Shows :
        (d : Site D) (sent : Result MultiTenant.Error (Unit {0})) (server : Server D)
        → Sees u i before server.store
        → InSite (sent_reply c.lower c.primitives c.wire dht d (sent, server)).1
    unfolding sent_reply
    sent_reply-Shows d (ok _) server h = h
    sent_reply-Shows d (err _) server h = h

    send_resolved-Shows :
        (req : SendRequest) (found : Result MultiTenant.Error Bytes) (d : Site D)
        → InSite d
        → InSite (send_resolved c.lower c.primitives c.wire dht now msg_id v req (found, d)).1
    unfolding send_resolved
    send_resolved-Shows req (err _) d h = h
    send_resolved-Shows req (ok recipient) d h = sent_reply-Shows d _ _ (
        send_message_for_user-Shows u i before hu c.lower c.primitives c.wire dht v msg_id hv other
          fresh now recipient req.subject req.body req.reply_to_id d.server h)

    send_here-Shows :
        (req : SendRequest) (d : Site D)
        → InSite d
        → InSite (send_here c.lower c.primitives c.wire dht now msg_id v req d).1
    unfolding send_here resolve_in
    send_here-Shows req d h = elim (Bool-cases (has_suffix req.recipient (codes ".dmail"))) [
      | inl named ↦
          rw (named, send_here)
            (send_resolved-Shows req _ _ (
              resolve_name_for_user-Shows u i before hu c.lower c.primitives c.wire dht v msg_id hv
                other fresh req.recipient d.server.network d.server.store h))
      | inr plain ↦ rw (plain, send_here) (send_resolved-Shows req (ok req.recipient) d h)
    ]

    handle_mt_send_message-Shows :
        (req : Option SendRequest) (d : Site D)
        → InSite d
        → InSite
            (handle_mt_send_message c.lower c.primitives c.wire dht c.http now msg_id v req d).1
    unfolding handle_mt_send_message
    handle_mt_send_message-Shows none d h = h
    handle_mt_send_message-Shows (some req) d h = elim (Bool-cases (is_incomplete req)) [
      | inl bad ↦ rw (bad, handle_mt_send_message) h
      | inr whole ↦ elim (Bool-cases (eqb (parse_federated_address req.recipient).0 [])) [
        | inl here ↦ rw (whole, here, handle_mt_send_message) (send_here-Shows req d h)
        | inr away ↦
            rw (whole, away, handle_mt_send_message)
              (sent_reply-Shows d _ _ (
                send_message_federated-Shows u i before hu c.lower c.primitives c.wire dht v msg_id
                  hv other fresh c.http now _ _ req.subject req.body req.reply_to_id d.server h))
      ]
    ]

    handle_mt_register_name-Shows :
        (name : Option Bytes) (d : Site D)
        → InSite d
        → InSite (handle_mt_register_name c.lower c.primitives c.wire dht now v name d).1
    unfolding handle_mt_register_name start_naming
    handle_mt_register_name-Shows none d h = h
    handle_mt_register_name-Shows (some name) d h = elim (Bool-cases (eqb name [])) [
      | inl empty ↦ rw (empty, handle_mt_register_name) h
      | inr given ↦ elim (Option-cases (get now v d.server.sessions)) [
        | inl expired ↦ rw (given, expired, handle_mt_register_name) h
        | inr (session, live) ↦ elim (Result-cases (validate_name c.lower name)) [
          | inl (_, bad) ↦ rw (given, live, handle_mt_register_name, bad, start_naming) h
          | inr (_, good) ↦ rw (given, live, handle_mt_register_name, good, start_naming) h
        ]
      ]
    ]

    handle-Shows :
        (req : Request) (d : Site D) → InSite d → InSite (handle c dht now msg_id v req d).1
    unfolding handle handle_mt_list_messages handle_mt_get_message handle_mt_unread_count
        handle_mt_get_thread handle_mt_list_users handle_mt_list_contacts handle_mt_delete_contact
        handle_mt_my_names handle_mt_identity list_messages_for_user get_message
        count_unread_for_user list_users list_contacts delete_contact get_my_names get_user_by_id
    handle-Shows (Request.get_unread_count folder) d h =
        read-Shows u i before hu _ _ d.server.store h
    handle-Shows (Request.get_search q) d h =
        handle_mt_search_messages-Shows u i before hu c.fts_match v q d.server.store h
    handle-Shows (Request.get_thread_of id) d h =
        or_500-Shows u i before hu _ _ _
          (get_thread_for_user-Shows u i before hu v id d.server.store h)
    handle-Shows (Request.get_messages folder) d h = read-Shows u i before hu _ _ d.server.store h
    handle-Shows (Request.get_one id) d h = read-Shows u i before hu _ _ d.server.store h
    handle-Shows (Request.post_send req) d h = handle_mt_send_message-Shows req d h
    handle-Shows (Request.put_read id) d h =
        handle_mt_mark_read-Shows u i before hu v id hv other d.server.store h
    handle-Shows (Request.delete_one id) d h =
        handle_mt_delete_message-Shows u i before hu v id hv other d.server.store h
    handle-Shows Request.get_users d h = read-Shows u i before hu _ _ d.server.store h
    handle-Shows Request.get_contacts d h = read-Shows u i before hu _ _ d.server.store h
    handle-Shows (Request.post_contact req) d h =
        handle_mt_save_contact-Shows u i before hu now req d.server.store h
    handle-Shows (Request.delete_contact_of pubkey) d h =
        write-Shows u i before hu _ _ d.server.store
          (same-Shows u i before d.server.store.tables _ refl refl) h
    handle-Shows (Request.post_name name) d h = handle_mt_register_name-Shows name d h
    handle-Shows Request.get_names d h = read-Shows u i before hu _ _ d.server.store h
    handle-Shows Request.get_identity d h =
        identity_reply-Shows u i before hu _ _ (query-Shows u i before _ d.server.store h)

-- Whichever statements fail, where the ids of all users are UUIDs: whatever request a user makes, no
-- other user's message changes in anything but its status, appears or disappears, under any id but
-- that of the message that the request sends.
pub handle-other_mail :
    (c : Setup) {D : Type 0} (dht : Dht D) (now : ℕ) (v msg_id u i : Bytes) (req : Request)
    (d : Site D)
    → All (λ (x : User). IsUuid x.id) d.server.store.users
    → IsUuid v
    → IsUuid u
    → u ≢ v
    → msg_id ≢ i
    → alter blank (mailboxes (handle c dht now msg_id v req d).1.server.store.messages u i)
      ≡ alter blank (mailboxes d.server.store.messages u i)
handle-other_mail c dht now v msg_id u i req d uuids hv hu other fresh =
    (handle-Shows u i (alter blank (mailboxes d.server.store.messages u i)) hu c dht now v msg_id hv
      other fresh req d (record { uuids = uuids; shown = refl })).shown
