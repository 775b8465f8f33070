-- ===== src/MultiTenant/Inbox.antt =====
-- pkg/daemon/multi_tenant.go: names, the packets that wait for their user, and the polling.
use dmail.Prelude.{
  ℕ, Bool, true, if◌then◌else◌, false, Option, none, some, List, [], ◌∷◌, Result, ok, err,
}
use dmail.Prelude.Bytes.{Bytes, codes, trim_suffix}
use dmail.Clock.{int64}
use dmail.Pb.{NameRecord, Payload, Wire, or_nil}
use dmail.Crypto.{Primitives}
use dmail.Crypto.Keys.{address, pub_key_from_address}
use dmail.Packet
use dmail.Packet.{decrypt_raw, unmarshal_and_verify}
use dmail.Names.{to_lower}
use dmail.Node.{Dht, packet_key, resolve_name}
use dmail.Store
use dmail.Store.{Message, NameEntry, User, PendingPacket, Store}
use dmail.Store.Single.{get_name, save_name}
use dmail.Store.Multi.{
  list_users, get_all_user_pub_keys, save_pending_packet, get_pending_packets,
  mark_packet_processed, save_message_for_user,
}
use dmail.Auth.Sessions.{CachedSession, get}
use dmail.MultiTenant.{Server, Error, in_store, in_node, owner_of}

module _ (u : Bytes → Bytes) (p : Primitives) (w : Wire) {D : Type 0} (dht : Dht D) where
  abbrev pub cache_entry : Bytes → NameRecord → NameEntry
  cache_entry name rec = record {
    name = name;
    pubkey = address p rec.pubkey;
    timestamp = int64 rec.timestamp;
    raw_record = or_nil (w.marshal_name rec);
    is_mine = false;
  }

  -- The look at the DHT, after the one at the local names.
  unfoldable pub resolve_remote : Bytes → D → Store → Result Error Bytes × Store
  resolve_remote name net s = elim (resolve_name u p w dht net name) [
    | err e ↦ (err (in_node e), s)
    | ok rec ↦ (ok (address p rec.pubkey), (save_name (cache_entry name rec) s).1)
  ]

  unfoldable pub resolve_cached :
      Bytes → D → Result Store.Error (Option NameEntry) × Store → Result Error Bytes × Store
  unfolding resolve_remote
  resolve_cached name net (err e, s) = (err (in_store e), s)
  resolve_cached name net (ok (some entry), s) = (ok entry.pubkey, s)
  resolve_cached name net (ok none, s) = resolve_remote name net s

  unfoldable pub resolve_name_for_user : Bytes → D → Store → Result Error Bytes × Store
  unfolding resolve_cached to_lower trim_suffix
  resolve_name_for_user asked net s =
      let name = to_lower u (trim_suffix asked (codes ".dmail")) in
      resolve_cached name net (get_name name s)

  abbrev pub received_message : Bytes → PendingPacket → Payload → Message
  received_message recipient_addr packet payload = record {
    id = payload.message_id;
    folder = codes "inbox";
    sender_pubkey = packet.sender_pubkey;
    recipient_pubkey = recipient_addr;
    subject = payload.subject;
    body = payload.body;
    timestamp = packet.received_at;
    is_read = false;
    reply_to_id = [];
    thread_id = [];
    status = [];
  }

  -- One round of the loop of `ProcessPendingPackets`.
  unfoldable pub process_packet : Bytes → CachedSession → PendingPacket → Store → Store
  process_packet user_id session packet s =
      elim (decrypt_raw p w packet.raw_data session.private_key) [
        | err _ ↦ (mark_packet_processed packet.id s).1
        | ok payload ↦
            (mark_packet_processed packet.id
              (save_message_for_user user_id
                (received_message (address p session.public_key) packet payload) s).1).1
      ]

  unfoldable pub process_packets : Bytes → CachedSession → List PendingPacket → Store → Store
  unfolding process_packet
  process_packets user_id session [] s = s
  process_packets user_id session (packet ∷ packets) s =
      process_packets user_id session packets (process_packet user_id session packet s)

  unfoldable pub process_pending_packets : ℕ → Bytes → Server D → Server D
  unfolding process_packets
  process_pending_packets now user_id d = elim (get now user_id d.sessions) [
    | none ↦ d
    | some session ↦
        let (packets, s) = get_pending_packets user_id d.store in
        elim packets [
          | err _ ↦ record d { store = s }
          | ok waiting ↦ record d { store = process_packets user_id session waiting s }
        ]
  ]

  abbrev pub sender_unless : Packet.Error → Option Bytes
  sender_unless Packet.panicked = none
  sender_unless _ = some []

  -- The sender of a packet that passes the checks, for display; `none` if the checks panic.
  unfoldable pub sender_of : ℕ → Bytes → Option Bytes
  sender_of now content = elim (unmarshal_and_verify p w now content) [
    | err e ↦ sender_unless e
    | ok pkt ↦ some (address p pkt.sender_pubkey)
  ]

  abbrev pub users_or_nil : Result Store.Error (List User) → List User
  users_or_nil (ok users) = users
  users_or_nil (err _) = []

  -- The rest of a round of `doPollAll`, with the packet that the DHT has for a user's address. The
  -- test is false if it panics, and the store is that of this moment: nothing recovers the panic.
  unfoldable pub keep_packet : ℕ → Bytes → Bytes → Store → Bool × Store
  unfolding sender_of owner_of
  keep_packet now addr content s =
      let (users, s') = list_users s in
      elim (owner_of addr (users_or_nil users)) [
        | none ↦ (true, s')
        | some user ↦ elim (sender_of now content) [
          | none ↦ (false, s')
          | some sender ↦ (true, (save_pending_packet now user.id content sender s').1)
        ]
      ]

  unfoldable pub poll_user : ℕ → D → Bytes → Store → Bool × Store
  unfolding keep_packet
  poll_user now net addr s = elim (pub_key_from_address p addr) [
    | err _ ↦ (true, s)
    | ok pub_key ↦ elim (dht.get_value net (packet_key u p w pub_key)) [
      | none ↦ (true, s)
      | some content ↦ keep_packet now addr content s
    ]
  ]

  unfoldable pub poll_users : ℕ → D → List Bytes → Store → Bool × Store
  unfolding poll_user
  poll_users now net [] s = (true, s)
  poll_users now net (addr ∷ addrs) s =
      let (runs, s') = poll_user now net addr s in
      let rest = poll_users now net addrs s' in if runs then rest else (false, s')

  -- Whether the program goes on, and the server.
  unfoldable pub do_poll_all : ℕ → Server D → Bool × Server D
  unfolding poll_users
  do_poll_all now d =
      let (addrs, s) = get_all_user_pub_keys d.store in
      elim addrs [
        | err _ ↦ (true, record d { store = s })
        | ok keys ↦
            let (runs, s') = poll_users now d.network keys s in (runs, record d { store = s' })
      ]
