-- ===== src/MultiTenant/Federated.antt =====
-- pkg/daemon/federation.go, the inbound half: what a server answers to other servers. A reply is a
-- status code with what the body tells.
use dmail.Prelude.{
  ℕ, ◌≡◌, refl, ◌≢◌, inl, inr, false, Option, none, some, [], arith, ltb, if◌then◌else◌, Bool-cases,
  length, Result, ok, err, Result-cases,
}
use dmail.Prelude.Bytes.{Bytes, eqb}
use dmail.Pb.{DmailPacket, Wire}
use dmail.Crypto.{Primitives}
use dmail.Crypto.Keys.{address}
use dmail.Packet.{max_packet_size, unmarshal_and_verify}
use dmail.Sql.{find}
use dmail.Store
use dmail.Store.{User, Tables, Store, exec, query}
use dmail.Store.Multi.{get_user_by_username, get_user_by_pubkey, save_pending_packet}
use dmail.Auth.Sessions.{SessionCache, get}

-- The JSON of a wellKnownResponse or of a resolveResponse; errors and "delivered" carry no data.
pub data Reply : Type 0 where
  plain : ℕ → Reply
  well_known : Bytes → Bytes → Reply
  resolved : Bytes → Bytes → Reply

-- `server_url` is the environment's DMAIL_SERVER_URL.
unfoldable pub handle_well_known : Primitives → Bytes → Bytes → Reply
unfolding eqb
handle_well_known p service_key server_url =
    if eqb server_url [] then plain 503 else well_known (address p service_key) server_url

unfoldable pub resolve_reply : Result Store.Error (Option User) × Store → Reply × Store
resolve_reply (err _, s) = (plain 500, s)
resolve_reply (ok none, s) = (plain 404, s)
resolve_reply (ok (some user), s) = (resolved user.username user.pubkey, s)

unfoldable pub handle_federation_resolve : Bytes → Store → Reply × Store
unfolding resolve_reply eqb
handle_federation_resolve username s =
    if eqb username [] then (plain 400, s) else resolve_reply (get_user_by_username username s)

-- The status, the store, and the user for whom ProcessPendingPackets is started.
pub record Delivery : Type 0 where
  pub status : ℕ
  pub store : Store
  pub process : Option Bytes

abbrev refuse : ℕ → Store → Delivery
refuse status s = record { status = status; store = s; process = none }

-- `if session := d.Sessions.Get(user.ID); session != nil`
abbrev pub active : ℕ → Bytes → SessionCache → Option Bytes
active now id sessions = elim (get now id sessions) [ none ↦ none | some _ ↦ some id ]

unfoldable pub kept : ℕ → Bytes → SessionCache → Result Store.Error (Unit {0}) × Store → Delivery
kept now id sessions (err _, s) = refuse 500 s
kept now id sessions (ok _, s) = record {
  status = 200;
  store = s;
  process = active now id sessions;
}

module _ (p : Primitives) (w : Wire) where
  unfoldable pub deliver_to :
      ℕ → Bytes → DmailPacket → SessionCache → Result Store.Error (Option User) × Store → Delivery
  unfolding kept
  deliver_to now content pkt sessions (err _, s) = refuse 500 s
  deliver_to now content pkt sessions (ok none, s) = refuse 404 s
  deliver_to now content pkt sessions (ok (some user), s) =
      kept now user.id sessions
        (save_pending_packet now user.id content (address p pkt.sender_pubkey) s)

  unfoldable pub handle_federation_deliver : ℕ → Bytes → SessionCache → Store → Delivery
  unfolding deliver_to
  handle_federation_deliver now content sessions s =
      if ltb max_packet_size (length content)
      then refuse 413 s
      else elim (unmarshal_and_verify p w now content) [
        | err _ ↦ refuse 400 s
        | ok pkt ↦
            deliver_to now content pkt sessions
              (get_user_by_pubkey (address p pkt.recipient_pubkey) s)
      ]

  -- What a status says: 200 that the content is a packet that passes the checks, for the address of
  -- a user of this server, whose row was added last; any other that no table changed.
  pub data Verdict (now : ℕ) (content : Bytes) (s : Store) (d : Delivery) : Type 0 where
    accepted :
        (pkt : DmailPacket) (user : User)
        → d.status ≡ 200
        → unmarshal_and_verify p w now content ≡ ok pkt
        → find (λ r. r.pubkey) (address p pkt.recipient_pubkey) s.users ≡ some user
        → d.store.tables
          ≡ (save_pending_packet now user.id content
              (address p pkt.sender_pubkey)
              (record s { statements = 0; fault = λ n. false })).1.tables
        → Verdict now content s d
    refused : d.status ≢ 200 → d.store.tables ≡ s.tables → Verdict now content s d

  deliver_to-Verdict :
      (now : ℕ) (content : Bytes) (pkt : DmailPacket) (sessions : SessionCache) (s s' : Store)
      (found : Result Store.Error (Option User))
      → unmarshal_and_verify p w now content ≡ ok pkt
      → s'.tables ≡ s.tables
      → ((user : User)
          → found ≡ ok (some user)
          → find (λ r. r.pubkey) (address p pkt.recipient_pubkey) s.users ≡ some user)
      → Verdict now content s (deliver_to now content pkt sessions (found, s'))
  unfolding deliver_to kept save_pending_packet exec
  deliver_to-Verdict now content pkt sessions s s' (err _) e same user_of =
      refused (λ h. ground arith) same
  deliver_to-Verdict now content pkt sessions s s' (ok none) e same user_of =
      refused (λ h. ground arith) same
  deliver_to-Verdict now content pkt sessions s s' (ok (some user)) e same user_of =
      elim (Bool-cases (s'.fault s'.statements)) [
        | inl fails ↦ rw fails (refused (λ h. ground arith) same)
        | inr runs ↦ rw runs (accepted pkt user refl e (user_of user refl) (rw same))
      ]

  looked_up-Verdict :
      (now : ℕ) (content : Bytes) (pkt : DmailPacket) (sessions : SessionCache) (s : Store)
      → unmarshal_and_verify p w now content ≡ ok pkt
      → Verdict now content s (
          deliver_to now content pkt sessions
            (get_user_by_pubkey (address p pkt.recipient_pubkey) s))
  unfolding get_user_by_pubkey query
  looked_up-Verdict now content pkt sessions s e = elim (Bool-cases (s.fault s.statements)) [
    | inl fails ↦ rw fails (
        deliver_to-Verdict now content pkt sessions s _ (err Store.failed) e refl
          (λ user h. ground arith))
    | inr runs ↦ rw runs (
        deliver_to-Verdict now content pkt sessions s _
          (ok (find (λ r. r.pubkey) (address p pkt.recipient_pubkey) s.users)) e refl
          (λ user h. ground arith))
  ]

  -- Whichever statements fail, FederationDeliver answers 200 only for a packet that passes the
  -- checks and that it then keeps for a user, and otherwise changes no table.
  pub handle_federation_deliver-Verdict :
      (now : ℕ) (content : Bytes) (sessions : SessionCache) (s : Store)
      → Verdict now content s (handle_federation_deliver now content sessions s)
  unfolding handle_federation_deliver
  handle_federation_deliver-Verdict now content sessions s =
      elim (Bool-cases (ltb max_packet_size (length content))) [
        | inl large ↦ rw large (refused (λ h. ground arith) refl)
        | inr fits ↦ rw fits (elim (Result-cases (unmarshal_and_verify p w now content)) [
          | inl (_, bad) ↦ rw bad (refused (λ h. ground arith) refl)
          | inr (pkt, good) ↦ rw good (looked_up-Verdict now content pkt sessions s good)
        ])
      ]
