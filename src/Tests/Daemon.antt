-- ===== src/Tests/Daemon.antt =====
-- The daemon of one user at concrete inputs.
use dmail.Prelude.{◌≡◌, refl, true, false, ℕ, List, some, [], ◌∷◌, ◌++◌, arith, ok, err}
use dmail.Prelude.Bytes.{Bytes, codes, eqb}
use dmail.Clock.{from_unix}
use dmail.Pb.{DmailPacket, or_nil}
use dmail.Crypto
use dmail.Crypto.Keys.{KeyPair}
use dmail.Crypto.Encrypt.{decrypt, ed25519_pub_to_curve25519}
use dmail.Packet
use dmail.Packet.{verify, open_payload, signable_bytes_with_nonce}
use dmail.Packet.Delivery.{payload_of, verify_zero_difficulty}
use dmail.Store.{Message}
use dmail.Store.Single.{get_message}
use dmail.Node.{packet_key, poll}
use dmail.Node.Exchange.{poll-push}
use dmail.Daemon.{Daemon, send_packet}
use dmail.MultiTenant.{Server}
use dmail.Start.Polling.{poll_loop, poll_loop-known}
use dmail.Start.Daemons.{IsSettled, new_daemon, new_multi_tenant, new_daemons-IsSettled}
use dmail.Daemon.Sending.{send_packet-same_subject}
use dmail.Tests.Toys.{
  zero_bytes, toy, toy-IsSha256, toy_wire, toy_wire-IsWire, toy_dht, toy_stored, Network,
}
use dmail.Tests.Mail.{new_year, small_packet}
use dmail.Tests.Naming.{toy_lower}
use dmail.Tests.Rows.{store_of, mail}
use dmail.Sql.{find}

abbrev pub unsigned : DmailPacket
unsigned = record {
  version = 1;
  recipient_pubkey = codes "b";
  sender_pubkey = zero_bytes 32;
  timestamp = 978307200;
  pow_nonce = 3;
  pow_difficulty = 0;
  -- a nonce, the overhead, and a payload without a message that it replies to
  encrypted_payload = zero_bytes 40 ++ (2 ∷ 2 ∷ 5 ∷ codes "idhihello");
  signature = [];
}

abbrev full_packet : DmailPacket
full_packet = record unsigned {
  signature = zero_bytes 32 ++ or_nil (toy_wire.marshal_packet unsigned);
}

full_packet-verified : verify toy toy_wire new_year full_packet ≡ ok tt
unfolding from_unix signable_bytes_with_nonce eqb
full_packet-verified =
    verify_zero_difficulty toy toy_wire toy-IsSha256 new_year new_year full_packet refl refl
      (omega arith) (omega arith) refl refl

abbrev bob_keys : KeyPair
bob_keys = record { public_key = codes "b"; private_key = codes "bob"; mnemonic = [] }

opened :
    open_payload toy toy_wire full_packet (codes "bob")
    ≡ ok (payload_of (codes "id") (codes "hi") (codes "hello") [])
unfolding open_payload decrypt ed25519_pub_to_curve25519
opened = refl

unopened :
    open_payload toy toy_wire small_packet (codes "bob") ≡ err (Packet.in_crypto Crypto.too_short)
unfolding open_payload decrypt
unopened = refl

abbrev content : Bytes
content = or_nil (toy_wire.marshal_packet full_packet)

abbrev b_key : Bytes
b_key = packet_key toy_lower toy toy_wire (codes "b")

polled :
    poll toy_lower toy toy_wire toy_dht new_year ((b_key, content) ∷ []) (codes "b")
    ≡ ok full_packet
polled =
    (poll-push toy_lower toy toy_wire toy_dht toy_wire-IsWire new_year [] ((b_key, content) ∷ [])
      full_packet content refl full_packet-verified (toy_stored [] b_key content)).2

abbrev idle : Daemon Network
idle = record { store = store_of []; network = (b_key, content) ∷ [] }

abbrev two_ticks : List ℕ
two_ticks = new_year ∷ new_year ∷ []

-- The message of the packet, read and in the trash.
abbrev trashed : Message
trashed = record (mail (codes "id") (codes "trash") 7 true) { subject = codes "hi" }

abbrev tidied : Daemon Network
tidied = record idle { store = store_of (trashed ∷ []) }

poll_loop-known_example :
    ((get_message
        (codes "id")
        (poll_loop toy_lower toy toy_wire toy_dht bob_keys new_year two_ticks tidied).store).0
      ≡ ok (some trashed))
    × ((poll_loop toy_lower toy toy_wire toy_dht bob_keys new_year two_ticks tidied).store.tables
        ≡ tidied.store.tables)
unfolding find eqb
poll_loop-known_example =
    poll_loop-known toy_lower toy toy_wire toy_dht bob_keys full_packet
      (payload_of (codes "id") (codes "hi") (codes "hello") []) opened new_year two_ticks tidied
      trashed (λ n. refl) polled (polled, (polled, tt)) refl

new_daemons-IsSettled_example :
    IsSettled
      (λ (d : Daemon Network). d.store)
      (new_daemon toy bob_keys (some idle.store) (some []))
    × IsSettled
        (λ (d : Server Network). d.store)
        (new_multi_tenant toy bob_keys (some idle.store) false (some []))
new_daemons-IsSettled_example = new_daemons-IsSettled toy bob_keys (some idle.store) false (some [])

send_packet-same_subject_example :
    (send_packet toy_lower toy toy_wire toy_dht bob_keys
      (codes "y")
      (codes "hi")
      (codes "two")
      2
      small_packet
      (send_packet toy_lower toy toy_wire toy_dht bob_keys
        (codes "x")
        (codes "hi")
        (codes "one")
        1
        small_packet
        idle)).store.messages
    ≡ (send_packet toy_lower toy toy_wire toy_dht bob_keys
        (codes "y")
        (codes "hi")
        (codes "two")
        2
        small_packet
        idle).store.messages
send_packet-same_subject_example =
    send_packet-same_subject toy_lower toy toy_wire toy_dht bob_keys idle (codes "x") (codes "y")
      (codes "hi") (codes "one") (codes "two") 1 2 small_packet small_packet
      (Packet.in_crypto Crypto.too_short) (Packet.in_crypto Crypto.too_short) (λ n. refl) unopened
      unopened
