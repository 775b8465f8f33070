-- ===== src/MultiTenant/Arrival.antt =====
-- Mail from another server: from the packet that it delivers to the mailbox of its recipient.
pub mod Built
use dmail.Prelude.{
  ℕ, ◌+◌, ◌==◌, ◌≤◌, ◌≡◌, ap, ◌∙◌, Bool, true, false, some, [], ◌∷◌, ◌++◌, map, filter,
  filter-append, leb, ltb, arith, if◌then◌else◌, ok, length,
}
use dmail.Prelude.Bytes.{Bytes, eqb_refl}
use dmail.Clock.{unix}
use dmail.Pb.{DmailPacket, Payload, Wire, IsWire}
use dmail.Crypto.{Primitives}
use dmail.Crypto.Keys.{address}
use dmail.Packet.{max_packet_size, verify, open_payload, decrypt_raw, unmarshal_and_verify}
use dmail.Sql.{find, replace, order_by}
use dmail.Sql.Keys.{find-replace}
use dmail.Node.{Dht}
use dmail.Store
use dmail.Store.{Message, User, PendingPacket, Store}
use dmail.Store.Single.{get_message}
use dmail.Store.Multi.{
  scoped, get_user_by_pubkey, save_pending_packet, get_pending_packets, mark_packet_processed,
  save_message_for_user,
}
use dmail.Store.Integrity.{message_key}
use dmail.Store.Messages.{
  IsReliable, changed, on_messages, exec-changed, query-read, get_message-find, with_thread-id,
}
use dmail.Store.Tenants.{row_of}
use dmail.Auth.Sessions.{CachedSession, SessionCache, get}
use dmail.MultiTenant.{Server}
use dmail.MultiTenant.Inbox.{
  received_message, process_packet, process_packets, process_pending_packets,
}
use dmail.MultiTenant.Pending.{waits}
use dmail.MultiTenant.Federated.{active, kept, deliver_to, handle_federation_deliver}

module _ (p : Primitives) (w : Wire) (wire : IsWire w) (now : ℕ) (pkt : DmailPacket)
    (content : Bytes) (s : Store) (r : IsReliable s) (user : User) (sessions : SessionCache) where
  -- A packet that passes the checks, for a user of the server.
  pub record IsMail : Type 0 where
    pub written : w.marshal_packet pkt ≡ some content
    pub sized : length content ≤ max_packet_size
    pub sound : verify p w now pkt ≡ ok tt
    pub known : find (λ x. x.pubkey) (address p pkt.recipient_pubkey) s.users ≡ some user

  -- Its row.
  abbrev pub row : PendingPacket
  row = record {
    id = s.next_packet_id;
    user_id = user.id;
    raw_data = content;
    sender_pubkey = address p pkt.sender_pubkey;
    received_at = unix now;
    processed = false;
  }

  abbrev pub waiting_store : Store
  waiting_store =
      changed
        (λ t. record t {
          pending_packets = t.pending_packets ++ row ∷ [];
          next_packet_id = t.next_packet_id + 1;
        })
        (changed (λ t. t) s)

  unmarshal_and_verify-ok : IsMail → unmarshal_and_verify p w now content ≡ ok pkt
  unfolding unmarshal_and_verify
  unmarshal_and_verify-ok m = ground (arith, wire.packet pkt content m.written, m.sound)

  user_found :
      IsMail
      → get_user_by_pubkey (address p pkt.recipient_pubkey) s ≡ (ok (some user), changed (λ t. t) s)
  unfolding get_user_by_pubkey
  user_found m =
      query-read (λ t. find (λ x. x.pubkey) (address p pkt.recipient_pubkey) t.users) s r
      ∙ ap (λ o. (ok o, changed (λ t. t) s)) m.known

  delivered :
      IsMail
      → handle_federation_deliver p w now content sessions s
        ≡ record { status = 200; store = waiting_store; process = active now user.id sessions }
  unfolding handle_federation_deliver deliver_to kept save_pending_packet
  delivered m =
      let fits : ltb max_packet_size (length content) ≡ false = ground (arith, m.sized) in
      rw (fits, unmarshal_and_verify-ok m, handle_federation_deliver)
        (ap (deliver_to p w now content pkt sessions) (user_found m)
          ∙ ap (kept now user.id sessions) (exec-changed _ (changed (λ t. t) s) r))

  module _ (u : Bytes → Bytes) {D : Type 0} (dht : Dht D) (later : ℕ) (session : CachedSession)
      (payload : Payload) (d : Server D) where
    -- The recipient has a session with the key that opens the packet, and no other packet waits.
    pub record IsAwaited : Type 0 where
      pub live : get later user.id d.sessions ≡ some session
      pub opens : open_payload p w pkt session.private_key ≡ ok payload
      pub alone : filter (waits user.id) s.pending_packets ≡ []

    abbrev first : PendingPacket → PendingPacket → Bool
    first a b = leb a.received_at b.received_at

    waiting_read :
        IsAwaited
        → get_pending_packets user.id waiting_store
          ≡ (ok (row ∷ []), changed (λ t. t) waiting_store)
    unfolding get_pending_packets order_by
    waiting_read h =
        let only : filter (waits user.id) (s.pending_packets ++ row ∷ []) ≡ row ∷ [] =
          filter-append (waits user.id) s.pending_packets (row ∷ [])
          ∙ rw (h.alone, eqb_refl user.id) in
        query-read (λ t. order_by first (filter (waits user.id) t.pending_packets)) waiting_store r
        ∙ ap (λ qs. (ok (order_by first qs), changed (λ t. t) waiting_store)) only

    decrypted : IsMail → IsAwaited → decrypt_raw p w content session.private_key ≡ ok payload
    unfolding decrypt_raw
    decrypted m h = ground (arith, wire.packet pkt content m.written, h.opens)

    abbrev pub arrived : Message
    arrived = received_message u p w dht (address p session.public_key) row payload

    processed :
        IsMail
        → IsAwaited
        → (process_pending_packets u p w dht later user.id
            (record d { store = waiting_store })).store
          ≡ (mark_packet_processed s.next_packet_id
              (save_message_for_user user.id arrived (changed (λ t. t) waiting_store)).1).1
    unfolding process_pending_packets process_packets process_packet
    processed m h = ground (arith, h.live, waiting_read h, decrypted m h)

    saved :
        (mark_packet_processed s.next_packet_id
          (save_message_for_user user.id arrived (changed (λ t. t) waiting_store)).1).1
        ≡ changed
            (λ t. record t {
              pending_packets =
                  map
                    (λ x. if x.id == s.next_packet_id then record x { processed = true } else x)
                    t.pending_packets;
            })
            (changed
              (on_messages (replace message_key (row_of user.id arrived)))
              (changed (λ t. t) waiting_store))
    unfolding mark_packet_processed save_message_for_user
    saved =
        ap (λ (x : _ × Store). (mark_packet_processed s.next_packet_id x.1).1)
          (exec-changed (on_messages (replace message_key (row_of user.id arrived)))
            (changed (λ t. t) waiting_store) r)
        ∙ ap (λ (x : _ × Store). x.1)
            (exec-changed _
              (changed (on_messages (replace message_key (row_of user.id arrived)))
                (changed (λ t. t) waiting_store))
              r)

    arrived_lem :
        IsMail
        → IsAwaited
        → (get_message
            (scoped user.id payload.message_id)
            (process_pending_packets u p w dht later user.id
              (record d { store = waiting_store })).store).0
          ≡ ok (some (row_of user.id arrived))
    arrived_lem m h =
        rw (processed m h, saved)
          (get_message-find _ r (scoped user.id payload.message_id)
            ∙ ap ok (
                find-replace message_key (row_of user.id arrived)
                  (scoped user.id payload.message_id) s.messages
                ∙ rw (with_thread-id arrived, eqb_refl (scoped user.id payload.message_id))))
