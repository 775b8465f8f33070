-- ===== src/MultiTenant/Delivery.antt =====
-- Mail between two users of one server.
use mathlib.Core.Path.{subst}
use mathlib.Core.List.{Mem}
use dmail.Prelude.{
  ℕ, ◌≡◌, refl, sym, ap, ◌∙◌, ◌≢◌, false, none, some, List, arith, if◌then◌else◌, Result, ok,
}
use dmail.Prelude.Bytes.{Bytes, codes, eqb, eqb_iff, eqb_refl, eqb-apart}
use dmail.Pb.{Wire}
use dmail.Crypto.{Primitives}
use dmail.Crypto.Keys.{address, pub_key_from_address}
use dmail.Sql.{find, replace, update}
use dmail.Sql.Keys.{find-replace, find-update}
use dmail.Store.{Message, User, Store, exec, with_thread}
use dmail.Store.Single.{get_message}
use dmail.Store.Multi.{
  get_user_by_pubkey, scoped, save_message_for_user, list_messages_for_user,
  update_message_status_for_user,
}
use dmail.Store.Integrity.{message_key}
use dmail.Store.Messages.{
  IsReliable, changed, on_messages, exec-changed, exec-IsReliable, get_message-changed, query-read,
  with_thread-id,
}
use dmail.Store.Scope.{IsUuid, scoped-apart}
use dmail.Store.Tenants.{
  row_of, list_messages_for_user-save_own, list_messages_for_user-update_other,
}
use dmail.Node.{Dht}
use dmail.Auth.Sessions.{CachedSession, get}
use dmail.MultiTenant.{
  Error, Task, Server, session_keys, sent_message, inbox_message, deliver_locally, route, send_from,
  send_message_for_user,
}

module _ (u : Bytes → Bytes) (p : Primitives) (w : Wire) {D : Type 0} (dht : Dht D) (d : Server D)
    (r : IsReliable d.store) (now : ℕ) (msg_id user_id addr subject body reply_to_id key : Bytes)
    (session : CachedSession) (recipient : User) where
  abbrev sent : Message
  sent = sent_message now msg_id (address p session.public_key) addr subject body reply_to_id

  abbrev inbox : Message
  inbox = inbox_message now msg_id (address p session.public_key) addr subject body reply_to_id

  -- The store after the sender's copy was saved and the recipient looked up.
  abbrev looked_up : Store
  looked_up =
      changed (λ t. t) (changed (on_messages (replace message_key (row_of user_id sent))) d.store)

  abbrev task : Task
  task = record {
    user_id = user_id;
    msg_id = msg_id;
    subject = subject;
    body = body;
    reply_to_id = reply_to_id;
    keys = session_keys session;
    recipient_pub = key;
    host = none;
  }

  -- The two users, a live session of the sender, and the recipient's address.
  pub record AreLocal : Type 0 where
    pub live : get now user_id d.sessions ≡ some session
    pub good : pub_key_from_address p addr ≡ ok key
    pub known : find (λ r. r.pubkey) addr d.store.users ≡ some recipient

  found :
      AreLocal
      → get_user_by_pubkey addr (save_message_for_user user_id sent d.store).1
        ≡ (ok (some recipient), looked_up)
  unfolding get_user_by_pubkey save_message_for_user
  found l =
      let saved = changed (on_messages (replace message_key (row_of user_id sent))) d.store in
      let ran : (save_message_for_user user_id sent d.store).1 ≡ saved =
        ap (λ (x : _ × Store). x.1)
          (exec-changed (on_messages (replace message_key (row_of user_id sent))) d.store r) in
      let read : get_user_by_pubkey addr saved
          ≡ (ok (find (λ x. x.pubkey) addr d.store.users), looked_up) =
        query-read (λ t. find (λ x. x.pubkey) addr t.users) saved r in
      ap (get_user_by_pubkey addr) ran ∙ read ∙ ap (λ o. (ok o, looked_up)) l.known

  send_from-local :
      AreLocal
      → send_from u p w dht now msg_id user_id addr subject body reply_to_id session key d ≡ (
        ok tt,
        record d { store = deliver_locally u p w dht user_id msg_id recipient inbox looked_up },
      )
  unfolding send_from route
  send_from-local l = ap (λ x. route u p w dht task inbox x d) (found l)

  send_message_for_user-local :
      AreLocal
      → send_message_for_user u p w dht now msg_id user_id addr subject body reply_to_id d ≡ (
        ok tt,
        record d { store = deliver_locally u p w dht user_id msg_id recipient inbox looked_up },
      )
  unfolding send_message_for_user
  send_message_for_user-local l = ground (arith, l.live, l.good, send_from-local l)

  -- Both copies as rows, after the last statement.
  rows_after :
      (k : Bytes)
      → k ≡ scoped user_id msg_id
      → (get_message k (deliver_locally u p w dht user_id msg_id recipient inbox looked_up)).0
        ≡ ok (
            if eqb (scoped recipient.id msg_id) k
            then some (record (row_of recipient.id inbox) { status = codes "delivered" })
            else some (record (row_of user_id sent) { status = codes "delivered" }))
  unfolding deliver_locally save_message_for_user update_message_status_for_user
  rows_after k e =
      let set = λ (m : Message). record m { status = codes "delivered" } in
      let saved = replace message_key (row_of recipient.id inbox) in
      let kept = exec-IsReliable (on_messages saved) looked_up r in
      let ran : (exec (on_messages saved) looked_up).1 ≡ changed (on_messages saved) looked_up =
        ap (λ (x : _ × Store). x.1) (exec-changed (on_messages saved) looked_up r) in
      get_message-changed (on_messages (update message_key (scoped user_id msg_id) set))
        (exec (on_messages saved) looked_up).1 k kept
      ∙ ap
          (λ (s : Store).
            ok (find message_key k (update message_key (scoped user_id msg_id) set s.messages)))
          ran
      ∙ ap ok (
          ground (
            arith,
            e,
            eqb_iff (scoped user_id msg_id) k,
            with_thread-id sent,
            with_thread-id inbox,
            find-update message_key (scoped user_id msg_id) set k
                (saved (replace message_key (row_of user_id sent) d.store.messages)) (λ m. refl),
            find-replace message_key (row_of recipient.id inbox) k
                (replace message_key (row_of user_id sent) d.store.messages),
            find-replace message_key (row_of user_id sent) k d.store.messages,
          ))

  -- What the sender is answered, and what the two users then find.
  pub record IsDelivered (answer : Result Error (Unit {0}) × Server D) : Type 0 where
    pub accepted : answer.0 ≡ ok tt
    pub no_work : answer.1.tasks ≡ d.tasks
    pub received :
        (ms : List Message) × ((list_messages_for_user recipient.id
            (codes "inbox")
            answer.1.store).0
          ≡ ok ms)
        × Mem (with_thread inbox) ms
    pub confirmed :
        (get_message (scoped user_id msg_id) answer.1.store).0
        ≡ ok (some (record (row_of user_id sent) { status = codes "delivered" }))

  -- Where no statement fails, the sender has a live session and the ids of both users are UUIDs, a
  -- message to the address of another user of the server is sent without an error and without a
  -- proof of work: the recipient finds it in the inbox, unread, and the sender's copy has the
  -- status "delivered".
  pub send_message_for_user-IsDelivered :
      AreLocal
      → IsUuid user_id
      → IsUuid recipient.id
      → user_id ≢ recipient.id
      → IsDelivered
          (send_message_for_user u p w dht now msg_id user_id addr subject body reply_to_id d)
  unfolding deliver_locally save_message_for_user
  send_message_for_user-IsDelivered l hu hv other =
      let kept =
        exec-IsReliable (on_messages (replace message_key (row_of recipient.id inbox))) looked_up
          r in
      let (ms, listed, here) =
        list_messages_for_user-save_own looked_up r recipient.id (codes "inbox") inbox hv refl in
      let differ : eqb (scoped recipient.id msg_id) (scoped user_id msg_id) ≡ false =
        eqb-apart _ _
          (scoped-apart recipient.id user_id msg_id msg_id hv hu (λ e. other (sym e))) in
      subst IsDelivered (sym (send_message_for_user-local l)) (record {
        accepted = refl;
        no_work = refl;
        received = (
          ms,
          list_messages_for_user-update_other (save_message_for_user recipient.id inbox looked_up).1
                kept recipient.id (codes "inbox") user_id msg_id (codes "delivered") hv hu
                (λ e. other (sym e))
              ∙ listed,
          here,
        );
        confirmed = rows_after (scoped user_id msg_id) refl ∙ rw differ;
      })

  -- Where no statement fails: a message that a user of the server sends to their own address leaves
  -- the inbox copy in the place of the sender's, under the one row id of both.
  pub send_message_for_user-own :
      AreLocal
      → user_id ≡ recipient.id
      → (get_message
          (scoped user_id msg_id)
          (send_message_for_user u p w dht now msg_id user_id addr subject body reply_to_id
            d).1.store).0
        ≡ ok (some (record (row_of user_id inbox) { status = codes "delivered" }))
  send_message_for_user-own l own =
      ap (λ (x : _ × Server D). (get_message (scoped user_id msg_id) x.1.store).0)
        (send_message_for_user-local l)
      ∙ rows_after (scoped user_id msg_id) refl
      ∙ ap ok (
          subst
            (λ v.
              (if eqb (scoped v msg_id) (scoped user_id msg_id)
                then some (record (row_of v inbox) { status = codes "delivered" })
                else some (record (row_of user_id sent) { status = codes "delivered" }))
              ≡ some (record (row_of user_id inbox) { status = codes "delivered" }))
            own (rw (eqb_refl (scoped user_id msg_id))))
