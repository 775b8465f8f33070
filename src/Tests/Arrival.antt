-- ===== src/Tests/Arrival.antt =====
-- Mail from one server to another at concrete inputs.
use dmail.Prelude.{ℕ, true, err, ◌+◌, ◌*◌, ◌≡◌, refl, some, [], ◌∷◌, arith, ok, length, ◌≤◌}
use dmail.Prelude.Bytes.{Bytes, codes, eqb, eqb_refl}
use dmail.Clock.{hour}
use dmail.Pb.{DmailPacket}
use dmail.Crypto.Keys.{address}
use dmail.Pow.{default_difficulty}
use dmail.Packet
use dmail.Packet.{unmarshal_and_verify, max_packet_size, build}
use dmail.Packet.Delivery.{key_pair_of}
use dmail.Sql.{find}
use dmail.Store.{Message, User}
use dmail.Store.Single.{get_message}
use dmail.Store.Multi.{scoped}
use dmail.Auth.Sessions.{CachedSession, get}
use dmail.MultiTenant.{Server}
use dmail.MultiTenant.Inbox.{process_pending_packets}
use dmail.MultiTenant.Federated.{handle_federation_deliver}
use dmail.MultiTenant.Arrival.Built.{
  IsReady, IsPresent, IsReceived, handle_federation_deliver-build,
}
use dmail.Tests.Mail.{new_year, solved_20}
use dmail.Tests.Naming.{toy_lower}
use dmail.Tests.Rows.{store_of, bob}
use dmail.Tests.Server.{user_of}
use dmail.Node.{packet_key}
use dmail.Start.Polling.{poll_tick, cleanup_tick, poll_loop_all}
use dmail.Start.Growth.{IsGrown}
use dmail.Start.Fetching.{IsCalm, Waits, poll_loop_all-Waits}
use dmail.Store.Multi.{listed, listing}
use dmail.Sql.{order_by}
use dmail.MultiTenant.{owner_of}
use dmail.Crypto.Addresses.{pub_key_from_address-address}
use dmail.Start.Ticks.{poll_loop_all-IsGrown}
use dmail.Tests.Toys.{
  toy_stored, toy-IsEncoding, zero_bytes, toy, toy_wire, toy_dht, toy_base, Network, toy-IsSha256,
  toy-IsBox, toy-IsSignature, toy_wire-IsWire, toy-Solvable,
}

abbrev bobs_user : User
bobs_user = record (user_of bob) { pubkey = address toy (toy.public_key (codes "bob")) }

abbrev bobs_session : CachedSession
bobs_session = record {
  private_key = codes "bob";
  public_key = toy.public_key (codes "bob");
  expires_at = new_year + 24 * hour;
}

abbrev bobs_server : Server Network
bobs_server = record {
  store = record (store_of []) { tables = record (store_of []).tables { users = bobs_user ∷ [] } };
  sessions = (bob, bobs_session) ∷ [];
  network = [];
  pending_pow = 0;
  tasks = [];
}

ready :
    IsReady toy_lower toy toy_wire toy_base toy-IsSha256 toy-IsBox toy-IsSignature toy_wire-IsWire
      toy_dht bobs_server
      (λ n. refl)
      (codes "hi")
      (codes "hello")
      (codes "m0")
      (codes "id")
      (codes "alice")
      (codes "bob")
      (zero_bytes 24)
      (2 ∷ 2 ∷ 5 ∷ codes "idhihellom0")
      new_year
      (new_year + hour)
      (new_year + hour)
      bobs_user
      bobs_session
ready = record {
  nonce_length = refl;
  solvable = toy-Solvable 20 solved_20;
  written = refl;
  after_1970 = omega arith;
  in_range = omega arith;
}

present :
    IsPresent toy_lower toy toy_wire toy_base toy-IsSha256 toy-IsBox toy-IsSignature toy_wire-IsWire
      toy_dht bobs_server
      (λ n. refl)
      (codes "hi")
      (codes "hello")
      (codes "m0")
      (codes "id")
      (codes "alice")
      (codes "bob")
      (zero_bytes 24)
      (2 ∷ 2 ∷ 5 ∷ codes "idhihellom0")
      new_year
      (new_year + hour)
      (new_year + hour)
      bobs_user
      bobs_session
unfolding find eqb get address
present = record { known = refl; live = refl; own_key = refl; alone = refl }

handle_federation_deliver-build_example :
    (pkt : DmailPacket) × (build toy toy_wire
        (codes "hi")
        (codes "hello")
        (codes "m0")
        (key_pair_of toy (codes "alice"))
        (toy.public_key (codes "bob"))
        default_difficulty
        new_year
        (codes "id")
        (some (zero_bytes 24))
      ≡ ok pkt)
    × ((content : Bytes)
        → toy_wire.marshal_packet pkt ≡ some content
        → length content ≤ max_packet_size
        → ((handle_federation_deliver toy toy_wire
              (new_year + hour)
              content
              bobs_server.sessions
              bobs_server.store).status
            ≡ 200)
          × ((m : Message) × ((get_message
                  (scoped bob (codes "id"))
                  (process_pending_packets toy_lower toy toy_wire toy_dht
                    (new_year + hour)
                    bob
                    (record bobs_server {
                      store =
                          (handle_federation_deliver toy toy_wire
                            (new_year + hour)
                            content
                            bobs_server.sessions
                            bobs_server.store).store;
                    })).store).0
                ≡ ok (some m))
              × IsReceived toy_lower toy toy_wire toy_base toy-IsSha256 toy-IsBox toy-IsSignature
                  toy_wire-IsWire toy_dht bobs_server
                  (λ n. refl)
                  (codes "hi")
                  (codes "hello")
                  (codes "m0")
                  (codes "id")
                  (codes "alice")
                  (codes "bob")
                  (zero_bytes 24)
                  (2 ∷ 2 ∷ 5 ∷ codes "idhihellom0")
                  new_year
                  (new_year + hour)
                  (new_year + hour)
                  bobs_user
                  bobs_session
                  m))
handle_federation_deliver-build_example =
    handle_federation_deliver-build toy_lower toy toy_wire toy_base toy-IsSha256 toy-IsBox
      toy-IsSignature toy_wire-IsWire toy_dht bobs_server (λ n. refl) (codes "hi") (codes "hello")
      (codes "m0") (codes "id") (codes "alice") (codes "bob") (zero_bytes 24)
      (2 ∷ 2 ∷ 5 ∷ codes "idhihellom0") new_year (new_year + hour) (new_year + hour) bobs_user
      bobs_session ready present (omega arith) (omega arith)

-- The DHT has something at Bob's key.
abbrev offered_server : Server Network
offered_server = record bobs_server {
  network = (packet_key toy_lower toy toy_wire (toy.public_key (codes "bob")), codes "mail") ∷ [];
}

poll_loop_all-IsGrown_example :
    IsGrown toy_lower toy toy_wire toy_dht offered_server.network offered_server.store.users
      offered_server.store.tables
      (poll_loop_all toy_lower toy toy_wire toy_dht new_year
        (cleanup_tick new_year ∷ poll_tick new_year ∷ [])
        offered_server).1.store.tables
poll_loop_all-IsGrown_example =
    poll_loop_all-IsGrown toy_lower toy toy_wire toy_dht new_year
      (cleanup_tick new_year ∷ poll_tick new_year ∷ []) offered_server (λ n. refl)

offered_to_bob : owner_of bobs_user.pubkey (listing (bobs_user ∷ [])) ≡ some (listed bobs_user)
unfolding owner_of order_by
offered_to_bob = rw (eqb_refl bobs_user.pubkey) refl

toy_get-value :
    (k key content value : Bytes)
    → toy_dht.get_value ((key, content) ∷ []) k ≡ some value
    → content ≡ value
unfolding eqb
toy_get-value k key content value e = ground (arith, e)

junk : (t : ℕ) → unmarshal_and_verify toy toy_wire t (codes "mail") ≡ err Packet.cannot_unmarshal
unfolding unmarshal_and_verify
junk t = refl

offered-IsCalm : IsCalm toy_lower toy toy_wire toy_dht offered_server.network
offered-IsCalm t k value e panics =
    let same : codes "mail" ≡ value =
      toy_get-value k (packet_key toy_lower toy toy_wire (toy.public_key (codes "bob")))
        (codes "mail") value e in
    let read : unmarshal_and_verify toy toy_wire t value ≡ err Packet.cannot_unmarshal =
      rw (← same) (junk t) in
    cc

poll_loop_all-Waits_example :
    ((poll_loop_all toy_lower toy toy_wire toy_dht new_year
        (cleanup_tick new_year ∷ poll_tick new_year ∷ [])
        offered_server).0
      ≡ true)
    × Waits bob
        (codes "mail")
        (poll_loop_all toy_lower toy toy_wire toy_dht new_year
          (cleanup_tick new_year ∷ poll_tick new_year ∷ [])
          offered_server).1.store.tables
poll_loop_all-Waits_example =
    poll_loop_all-Waits toy_lower toy toy_wire toy_dht new_year
      (cleanup_tick new_year ∷ poll_tick new_year ∷ []) offered_server (listed bobs_user)
      (toy.public_key (codes "bob")) (codes "mail") (λ n. refl) offered-IsCalm offered_to_bob
      (pub_key_from_address-address toy toy-IsEncoding (toy.public_key (codes "bob")) refl)
      (toy_stored [] (packet_key toy_lower toy toy_wire (toy.public_key (codes "bob")))
        (codes "mail")).1
