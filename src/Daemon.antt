-- ===== src/Daemon.antt =====
-- pkg/daemon/daemon.go: the daemon of one user. The goroutines of SendMessage and RegisterName are
-- functions of their own, on the state that they find when they run; the clock and the values of the
-- source of randomness are arguments. An error that the source only logs leaves no trace.
pub mod Polling
pub mod Sending
pub mod Jobs
use dmail.Prelude.{ℕ, Bool, true, false, Option, none, some, [], Result, ok, err, wrap}
use dmail.Prelude.Bytes.{Bytes, codes, trim_suffix}
use dmail.Clock.{unix, int64}
use dmail.Pb.{DmailPacket, Payload, NameRecord, Wire, or_nil}
use dmail.Crypto
use dmail.Crypto.{Primitives}
use dmail.Crypto.Keys.{KeyPair, address, pub_key_from_address}
use dmail.Pow.{default_difficulty}
use dmail.Packet
use dmail.Packet.{build, open_payload}
use dmail.Names
use dmail.Names.{to_lower, validate_name, build_name_record}
use dmail.Node
use dmail.Node.{Dht, push, poll, register_name, resolve_name}
use dmail.Store
use dmail.Store.{Message, NameEntry, Store}
use dmail.Store.Single.{save_message, has_message, get_name, save_name}

pub data Error : Type 0 where
  bad_recipient : Crypto.Error → Error
  bad_name : Names.Error → Error
  in_store : Store.Error → Error
  in_node : Node.Error → Error

pub record Daemon (D : Type 0) : Type 0 where
  pub store : Store
  pub network : D

module _ (u : Bytes → Bytes) (p : Primitives) (w : Wire) {D : Type 0} (dht : Dht D)
    (keys : KeyPair) where
  -- The part of `SendMessage` before its goroutine: the recipient's key.
  unfoldable pub send_message : Bytes → Result Error Bytes
  send_message recipient_addr = wrap bad_recipient (pub_key_from_address p recipient_addr)

  -- The row for the folder "sent", by what `Decrypt` makes of the packet.
  unfoldable pub sent_row :
      Bytes → Bytes → Bytes → ℕ → DmailPacket → Result Packet.Error Payload → Message
  sent_row recipient_addr subject body now pkt (err _) = record {
    id = subject;
    folder = codes "sent";
    sender_pubkey = address p keys.public_key;
    recipient_pubkey = recipient_addr;
    subject = subject;
    body = body;
    timestamp = unix now;
    is_read = true;
    reply_to_id = [];
    thread_id = [];
    status = [];
  }
  sent_row recipient_addr subject body now pkt (ok payload) = record {
    id = payload.message_id;
    folder = codes "sent";
    sender_pubkey = address p keys.public_key;
    recipient_pubkey = recipient_addr;
    subject = payload.subject;
    body = payload.body;
    timestamp = pkt.timestamp;
    is_read = true;
    reply_to_id = [];
    thread_id = [];
    status = [];
  }

  -- The goroutine, from the packet on.
  unfoldable pub send_packet : Bytes → Bytes → Bytes → ℕ → DmailPacket → Daemon D → Daemon D
  unfolding sent_row
  send_packet recipient_addr subject body now pkt d =
      let row =
        sent_row recipient_addr subject body now pkt (open_payload p w pkt keys.private_key) in
      record { store = (save_message row d.store).1; network = (push u p w dht d.network pkt).1 }

  -- The goroutine of `SendMessage`: `now` is the time of the packet, `saved` that of the row.
  unfoldable pub send_task :
      Bytes → Bytes → Bytes → Bytes → Bytes → ℕ → ℕ → Bytes → Option Bytes → Daemon D → Daemon D
  unfolding send_packet
  send_task recipient_addr recipient_pub subject body reply_to_id now saved message_id random d =
      elim (build p w subject body reply_to_id keys recipient_pub default_difficulty now message_id
        random) [ err _ ↦ d | ok pkt ↦ send_packet recipient_addr subject body saved pkt d ]

  abbrev name_entry : Bytes → Bytes → NameRecord → Bool → NameEntry
  name_entry name addr rec is_mine = record {
    name = name;
    pubkey = addr;
    timestamp = int64 rec.timestamp;
    raw_record = or_nil (w.marshal_name rec);
    is_mine = is_mine;
  }

  -- The part of `RegisterName` before its goroutine.
  unfoldable pub register : Bytes → Result Error (Unit {0})
  register name = wrap bad_name (validate_name u name)

  -- The store, if the DHT took the record.
  unfoldable pub keep_name : Bytes → NameRecord → Result Node.Error (Unit {0}) → Store → Store
  keep_name name rec (err _) s = s
  keep_name name rec (ok _) s =
      (save_name (name_entry name (address p keys.public_key) rec true) s).1

  -- The goroutine of `RegisterName`.
  unfoldable pub register_task : Bytes → ℕ → Daemon D → Daemon D
  unfolding keep_name
  register_task name now d = elim (build_name_record u p name keys now) [
    | err _ ↦ d
    | ok rec ↦
        let (answer, net) = register_name u p w dht d.network rec in
        record { store = keep_name name rec answer d.store; network = net }
  ]

  unfoldable pub resolve_remote : Bytes → D → Store → Result Error Bytes × Store
  resolve_remote name net s = elim (resolve_name u p w dht net name) [
    | err e ↦ (err (in_node e), s)
    | ok rec ↦ (
      ok (address p rec.pubkey),
      (save_name (name_entry name (address p rec.pubkey) rec false) s).1,
    )
  ]

  unfoldable pub resolve_cached :
      Bytes → D → Result Store.Error (Option NameEntry) × Store → Result Error Bytes × Store
  unfolding resolve_remote
  resolve_cached name net (err e, s) = (err (in_store e), s)
  resolve_cached name net (ok (some entry), s) = (ok entry.pubkey, s)
  resolve_cached name net (ok none, s) = resolve_remote name net s

  -- `ResolveName`
  unfoldable pub resolve : Bytes → D → Store → Result Error Bytes × Store
  unfolding resolve_cached to_lower trim_suffix
  resolve asked net s =
      let name = to_lower u (trim_suffix asked (codes ".dmail")) in
      resolve_cached name net (get_name name s)

  abbrev pub received_row : DmailPacket → Payload → Message
  received_row pkt payload = record {
    id = payload.message_id;
    folder = codes "inbox";
    sender_pubkey = address p pkt.sender_pubkey;
    recipient_pubkey = address p pkt.recipient_pubkey;
    subject = payload.subject;
    body = payload.body;
    timestamp = pkt.timestamp;
    is_read = false;
    reply_to_id = [];
    thread_id = [];
    status = [];
  }

  -- `doPoll`, from the look at the store on.
  unfoldable pub keep_message : Message → Result Store.Error Bool × Store → Store
  keep_message row (err _, s) = s
  keep_message row (ok true, s) = s
  keep_message row (ok false, s) = (save_message row s).1

  unfoldable pub do_poll : ℕ → Daemon D → Daemon D
  unfolding keep_message
  do_poll now d = elim (poll u p w dht now d.network keys.public_key) [
    | err _ ↦ d
    | ok pkt ↦ elim (open_payload p w pkt keys.private_key) [
      | err _ ↦ d
      | ok payload ↦ record d {
        store = keep_message (received_row pkt payload) (has_message payload.message_id d.store);
      }
    ]
  ]
