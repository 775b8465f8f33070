-- ===== src/Tests/Server.antt =====
-- A server with two users at concrete inputs.
use dmail.Prelude.{◌++◌, ◌≡◌, refl, true, false, none, some, [], ◌∷◌, ok}
use dmail.Clock.{pos}
use dmail.Prelude.Bytes.{Bytes, codes, eqb}
use dmail.Crypto.Keys.{address, pub_key_from_address}
use dmail.Sql.{find}
use dmail.Store.{User, query}
use dmail.Store.Single.{get_message, get_name}
use dmail.Store.Multi.{scoped, get_pending_packets}
use dmail.Store.Tenants.{row_of}
use dmail.Auth.Sessions.{CachedSession, get}
use dmail.Federation.{Http}
use dmail.MultiTenant.{Task, Server, start_task, send_message_for_user, finish_task, inbox_message}
use dmail.MultiTenant.Inbox.{
  resolve_cached, resolve_name_for_user, process_pending_packets, do_poll_all,
}
use dmail.MultiTenant.Delivery.{
  AreLocal, IsDelivered, send_message_for_user-IsDelivered, send_message_for_user-own,
}
use dmail.MultiTenant.Pending.{process_pending_packets-none_left}
use dmail.Pb.{DmailPacket, or_nil}
use dmail.MultiTenant.Federated.{
  Verdict, handle_federation_deliver, handle_federation_deliver-Verdict,
}
use dmail.Tests.Mail.{new_year}
use dmail.Tests.Daemon.{unsigned}
use dmail.Tests.Toys.{zero_bytes, toy, toy_wire, toy_dht, Network, apart}
use dmail.Tests.Crypto.{zero_address}
use dmail.Tests.Naming.{toy_lower}
use dmail.Tests.Rows.{store_of, alice, bob, alice-IsUuid, bob-IsUuid}

abbrev pub user_of : Bytes → User
user_of id = record {
  id = id;
  username = codes "bob";
  email = [];
  password_hash = [];
  password_salt = [];
  pubkey = zero_address;
  encrypted_privkey = [];
  encrypted_key_salt = [];
  encrypted_key_nonce = [];
  created_at = 1;
}

abbrev alice_session : CachedSession
alice_session = record {
  private_key = codes "alice";
  public_key = toy.public_key (codes "alice");
  expires_at = 50;
}

-- A server on which Alice has a session, and the zero address is that of `owner`.
abbrev pub server_of : Bytes → Server Network
server_of owner = record {
  store = record (store_of []) {
    tables = record (store_of []).tables {
      users = user_of owner ∷ [];
      names =
          record {
            name = codes "bob";
            pubkey = zero_address;
            timestamp = pos 1;
            raw_record = [];
            is_mine = false;
          }
          ∷ [];
      pending_packets =
          record {
            id = 1;
            user_id = alice;
            raw_data = codes "raw";
            sender_pubkey = [];
            received_at = 3;
            processed = false;
          }
          ∷ [];
      next_packet_id = 2;
    };
  };
  sessions = (alice, alice_session) ∷ [];
  network = [];
  pending_pow = 0;
  tasks = [];
}

are_local :
    (owner : Bytes)
    → AreLocal toy_lower toy toy_wire toy_dht
        (server_of owner)
        (λ n. refl)
        9
        (codes "msg-1")
        alice
        zero_address
        (codes "hi")
        (codes "hello")
        []
        (zero_bytes 32)
        alice_session
        (user_of owner)
unfolding get pub_key_from_address find eqb
are_local owner = record { live = refl; good = refl; known = refl }

send_message_for_user-IsDelivered_example :
    IsDelivered toy_lower toy toy_wire toy_dht
      (server_of bob)
      (λ n. refl)
      9
      (codes "msg-1")
      alice
      zero_address
      (codes "hi")
      (codes "hello")
      []
      (zero_bytes 32)
      alice_session
      (user_of bob)
      (send_message_for_user toy_lower toy toy_wire toy_dht 9
        (codes "msg-1")
        alice
        zero_address
        (codes "hi")
        (codes "hello")
        []
        (server_of bob))
unfolding eqb
send_message_for_user-IsDelivered_example =
    send_message_for_user-IsDelivered toy_lower toy toy_wire toy_dht (server_of bob) (λ n. refl) 9
      (codes "msg-1") alice zero_address (codes "hi") (codes "hello") [] (zero_bytes 32)
      alice_session (user_of bob) (are_local bob) alice-IsUuid bob-IsUuid (apart alice bob refl)

send_message_for_user-own_example :
    (get_message
      (scoped alice (codes "msg-1"))
      (send_message_for_user toy_lower toy toy_wire toy_dht 9
        (codes "msg-1")
        alice
        zero_address
        (codes "hi")
        (codes "hello")
        []
        (server_of alice)).1.store).0
    ≡ ok (
        some
          (record (row_of alice (
            inbox_message 9
              (codes "msg-1")
              (address toy (toy.public_key (codes "alice")))
              zero_address
              (codes "hi")
              (codes "hello")
              [])) { status = codes "delivered" }))
send_message_for_user-own_example =
    send_message_for_user-own toy_lower toy toy_wire toy_dht (server_of alice) (λ n. refl) 9
      (codes "msg-1") alice zero_address (codes "hi") (codes "hello") [] (zero_bytes 32)
      alice_session (user_of alice) (are_local alice) refl

live_session : get 9 alice (server_of bob).sessions ≡ some alice_session
unfolding get eqb
live_session = refl

process_pending_packets-none_left_example :
    (get_pending_packets alice
      (process_pending_packets toy_lower toy toy_wire toy_dht 9 alice (server_of bob)).store).0
    ≡ ok []
process_pending_packets-none_left_example =
    process_pending_packets-none_left toy_lower toy toy_wire toy_dht 9 alice (server_of bob)
      alice_session (λ n. refl) live_session

resolved_bob :
    resolve_name_for_user toy_lower toy toy_wire toy_dht
      (codes "bob.dmail")
      []
      (server_of bob).store
    ≡ (ok zero_address, record (server_of bob).store { statements = 1 })
unfolding resolve_name_for_user resolve_cached get_name query find eqb
resolved_bob = refl

-- A network where no request is answered.
abbrev pub toy_http : Http
toy_http = record {
  is_url = λ url. true;
  send = λ method url content. none;
  query_escape = λ s. s;
  decode_well_known = λ s. none;
  decode_resolve = λ s. none;
}

abbrev a_task : Task
a_task = record {
  user_id = alice;
  msg_id = codes "msg-1";
  subject = codes "hi";
  body = codes "hello";
  reply_to_id = [];
  keys = record { public_key = []; private_key = []; mnemonic = [] };
  recipient_pub = zero_bytes 32;
  host = none;
}

abbrev busy : Server Network
busy = start_task a_task (server_of bob).store (server_of bob)

abbrev polled : Server Network
polled =
    (do_poll_all toy_lower toy toy_wire toy_dht 9
      (finish_task toy_lower toy toy_wire toy_dht toy_http 9 (codes "id") none [] a_task [] busy)).1

-- A packet for the zero address.
abbrev letter : DmailPacket
letter = record unsigned { recipient_pubkey = zero_bytes 32 }

abbrev letter_content : Bytes
letter_content = or_nil (
    toy_wire.marshal_packet
      (record letter { signature = zero_bytes 32 ++ or_nil (toy_wire.marshal_packet letter) }))

handle_federation_deliver-Verdict_example :
    Verdict toy toy_wire new_year letter_content
      (server_of bob).store
      (handle_federation_deliver toy toy_wire new_year letter_content [] (server_of bob).store)
handle_federation_deliver-Verdict_example =
    handle_federation_deliver-Verdict toy toy_wire new_year letter_content [] (server_of bob).store
