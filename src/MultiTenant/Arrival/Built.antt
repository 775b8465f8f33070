-- ===== src/MultiTenant/Arrival/Built.antt =====
-- From Build on one server to the mailbox on another.
use dmail.Prelude.{
  ℕ, ◌+◌, ◌*◌, ◌^◌, ◌≤◌, ◌<◌, ◌≡◌, refl, ap, ◌∙◌, false, some, [], filter, arith, ok, length,
}
use dmail.Prelude.Bytes.{Bytes, codes}
use dmail.Clock.{second, hour, unix_to_internal}
use dmail.Pb.{DmailPacket, Wire, IsWire}
use dmail.Crypto.{Primitives}
use dmail.Crypto.Assumptions.{IsBox, IsSignature}
use dmail.Crypto.Keys.{address}
use dmail.Pow.Search.{IsSha256}
use dmail.Pow.{default_difficulty}
use dmail.Packet.{max_packet_size, build}
use dmail.Packet.Delivery.{Solvable, payload_of, key_pair_of, build-delivered}
use dmail.Sql.{find}
use dmail.Node.{Dht}
use dmail.Store.{Message, User, with_thread}
use dmail.Store.Single.{get_message}
use dmail.Store.Multi.{scoped}
use dmail.Store.Messages.{IsReliable}
use dmail.Store.Tenants.{row_of}
use dmail.Auth.Sessions.{CachedSession, get}
use dmail.MultiTenant.{Server}
use dmail.MultiTenant.Inbox.{process_pending_packets}
use dmail.MultiTenant.Pending.{waits}
use dmail.MultiTenant.Federated.{Delivery, handle_federation_deliver}
use dmail.MultiTenant.Arrival.{IsMail, IsAwaited, delivered, arrived, arrived_lem}

module _ (u : Bytes → Bytes) (p : Primitives) (w : Wire) (base : Bytes → Bytes)
    (sha : IsSha256 p.sha256) (box : IsBox p base) (sig : IsSignature p) (wire : IsWire w)
    {D : Type 0} (dht : Dht D) (d : Server D) (r : IsReliable d.store) where
  module _ (subject body reply_to_id message_id sender recipient nonce raw : Bytes)
      (now time later : ℕ) (user : User) (session : CachedSession) where
    -- The sender: what `Build` needs to make a packet, at `now`.
    pub record IsReady : Type 0 where
      pub nonce_length : length nonce ≡ 24
      pub solvable : Solvable p.sha256 default_difficulty
      pub written : w.marshal_payload (payload_of message_id subject body reply_to_id) ≡ some raw
      pub after_1970 : unix_to_internal * second ≤ now
      pub in_range : now < 2 ^ 63 * second

    -- The server of the recipient, who is a user with a session, for whom no other packet waits.
    pub record IsPresent : Type 0 where
      pub known :
          find (λ x. x.pubkey) (address p (p.public_key recipient)) d.store.users ≡ some user
      pub live : get later user.id d.sessions ≡ some session
      pub own_key : session.private_key ≡ recipient
      pub alone : filter (waits user.id) d.store.pending_packets ≡ []

    -- The server after the delivery of a packet at `time`.
    abbrev taken : Bytes → Server D
    taken content = record d {
      store = (handle_federation_deliver p w time content d.sessions d.store).store;
    }

    -- What the recipient then has.
    pub record IsReceived (m : Message) : Type 0 where
      pub subject_kept : m.subject ≡ subject
      pub body_kept : m.body ≡ body
      pub from_sender : m.sender_pubkey ≡ address p (p.public_key sender)
      pub in_inbox : m.folder ≡ codes "inbox"
      pub unread : m.is_read ≡ false
      pub no_reply : m.reply_to_id ≡ []
      pub own_thread : m.thread_id ≡ message_id

    -- Under the laws of the packages, and where no statement fails: `Build` makes a packet that the
    -- server of its recipient, in the next 23 hours, takes with 200 if it marshals to at most
    -- 256 KB; ProcessPendingPackets of the recipient, if no other packet waits, then puts the
    -- message unread into the inbox, with the subject, the body and the sender's address, but
    -- without the message that it replies to: it starts a thread of its own.
    pub handle_federation_deliver-build :
        IsReady
        → IsPresent
        → now ≤ time
        → time ≤ now + 23 * hour
        → (pkt : DmailPacket) × (build p w subject body reply_to_id
              (key_pair_of p sender)
              (p.public_key recipient)
              default_difficulty
              now
              message_id
              (some nonce)
            ≡ ok pkt)
          × ((content : Bytes)
              → w.marshal_packet pkt ≡ some content
              → length content ≤ max_packet_size
              → ((handle_federation_deliver p w time content d.sessions d.store).status ≡ 200)
                × ((m : Message) × ((get_message
                        (scoped user.id message_id)
                        (process_pending_packets u p w dht later user.id (taken content)).store).0
                      ≡ ok (some m))
                    × IsReceived m))
    unfolding with_thread
    handle_federation_deliver-build ready present from until =
        let (pkt, built, to, by, level, checked, opened) =
          build-delivered p w base sha box sig wire subject body reply_to_id message_id sender
            recipient nonce raw default_difficulty now time ready.nonce_length (omega arith)
            ready.solvable ready.written ready.after_1970 ready.in_range from until in
        (
          pkt,
          built,
          λ content written sized.
              let mail : IsMail p w wire time pkt content d.store r user d.sessions = record {
                written = written;
                sized = sized;
                sound = checked ∙ rw written (ground (arith, sized));
                known = rw to present.known;
              } in
              let payload = payload_of message_id subject body reply_to_id in
              let awaited : IsAwaited p w wire time pkt content d.store r user d.sessions u dht
                  later session payload d =
                record {
                  live = present.live;
                  opens = rw present.own_key opened;
                  alone = present.alone;
                } in
              let done = delivered p w wire time pkt content d.store r user d.sessions mail in
              let m = row_of user.id (
                arrived p w wire time pkt content d.store r user d.sessions u dht later session
                  payload d) in
              (
                ap (λ (x : Delivery). x.status) done,
                (
                  m,
                  ap
                        (λ (x : Delivery).
                          (get_message (scoped user.id message_id)
                            (process_pending_packets u p w dht later user.id
                              (record d { store = x.store })).store).0)
                        done
                      ∙ arrived_lem p w wire time pkt content d.store r user d.sessions u dht later
                          session payload d mail awaited,
                  record {
                    subject_kept = refl;
                    body_kept = refl;
                    from_sender = ap (address p) by;
                    in_inbox = refl;
                    unread = refl;
                    no_reply = refl;
                    own_thread = refl;
                  },
                ),
              ),
        )
