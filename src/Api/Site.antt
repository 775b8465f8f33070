-- ===== src/Api/Site.antt =====
-- pkg/daemon/api_multi.go: the handlers that use the network or start a goroutine, and the patterns
-- of NewMultiTenantHTTPHandler with what they lead to. Serving the files of the front end is not
-- modelled.
use dmail.Prelude.{
  ℕ, ◌+◌, ◌-◌, true, Option, none, some, List, [], ◌∷◌, ◌++◌, if◌then◌else◌, Result, ok, err,
}
use dmail.Prelude.Bytes.{Bytes, codes, eqb, has_suffix, trim_suffix}
use dmail.Clock.{int64}
use dmail.Pb.{NameRecord, Wire, or_nil}
use dmail.Crypto.{Primitives}
use dmail.Crypto.Keys.{KeyPair, address}
use dmail.Names.{validate_name, build_name_record}
use dmail.Node
use dmail.Node.{Dht, register_name}
use dmail.Store.{Store}
use dmail.Store.Single.{save_name}
use dmail.Auth.Sessions.{CachedSession, get}
use dmail.Federation.{Http, parse_federated_address}
use dmail.MultiTenant
use dmail.MultiTenant.{Server, send_message_for_user, send_message_federated, session_keys}
use dmail.MultiTenant.Inbox.{resolve_name_for_user, process_pending_packets}
use dmail.MultiTenant.Federated
use dmail.MultiTenant.Federated.{
  Delivery, handle_well_known, handle_federation_resolve, handle_federation_deliver,
}
use dmail.Api.{
  SendRequest, ContactRequest, accepted, resolved_name, federation, Reply, write_json, write_error,
}
use dmail.Api.Single.{is_incomplete}
use dmail.Api.Accounts.{SignupRequest, LoginRequest, Draws, Accounts, Answer}

-- What the goroutine of handleMTRegisterName closes over.
pub record Naming : Type 0 where
  pub name : Bytes
  pub keys : KeyPair

pub record Site (D : Type 0) : Type 0 where
  pub server : Server D
  pub namings : List Naming
  -- the users whose ProcessPendingPackets was started and has not run
  pub processing : List Bytes

-- The protected patterns, and the public ones.
pub data Request : Type 0 where
  get_unread_count : Bytes → Request
  get_search : Bytes → Request
  get_thread_of : Bytes → Request
  get_messages : Bytes → Request
  get_one : Bytes → Request
  post_send : Option SendRequest → Request
  put_read : Bytes → Request
  delete_one : Bytes → Request
  get_users : Request
  get_contacts : Request
  post_contact : Option ContactRequest → Request
  delete_contact_of : Bytes → Request
  post_name : Option Bytes → Request
  get_names : Request
  get_identity : Request

pub data PublicRequest : Type 0 where
  preflight : PublicRequest
  post_signup : Option SignupRequest → Draws → PublicRequest
  post_login : Option LoginRequest → PublicRequest
  get_status : PublicRequest
  get_well_known : PublicRequest
  get_federation_resolve : Bytes → PublicRequest
  post_federation_deliver : Bytes → PublicRequest
  get_resolve : Bytes → PublicRequest

abbrev pub with_store : {D : Type 0} → Site D → Store → Site D
with_store d s = record d { server = record d.server { store = s } }

abbrev pub on_store : {D : Type 0} → (Store → Reply × Store) → Site D → Reply × Site D
on_store handler d = let (reply, s) = handler d.server.store in (reply, with_store d s)

-- `go d.ProcessPendingPackets(user.ID)`
abbrev pub start_processing : {D : Type 0} → Option Bytes → Site D → Site D
start_processing none d = d
start_processing (some user_id) d = record d { processing = d.processing ++ user_id ∷ [] }

abbrev pub accounts_of : {D : Type 0} → Site D → Accounts
accounts_of d = record { store = d.server.store; sessions = d.server.sessions }

abbrev pub answered : {D : Type 0} → Answer → Site D → Reply × Site D
answered a d = (
  a.reply,
  start_processing a.process (record d {
    server = record d.server { store = a.accounts.store; sessions = a.accounts.sessions };
  }),
)

-- The reply to an inbound delivery of another server.
abbrev pub delivered : {D : Type 0} → Delivery → Site D → Reply × Site D
delivered r d = (
  write_json r.status (federation (Federated.plain r.status)),
  start_processing r.process (with_store d r.store),
)

abbrev pub federated : Federated.Reply → Reply
federated (Federated.plain status) = write_json status (federation (Federated.plain status))
federated (Federated.well_known key url) =
    write_json 200 (federation (Federated.well_known key url))
federated (Federated.resolved username key) =
    write_json 200 (federation (Federated.resolved username key))

module _ (u : Bytes → Bytes) (p : Primitives) (w : Wire) {D : Type 0} (dht : Dht D) where
  -- The reply to what SendMessageForUser and SendMessageFederated return.
  unfoldable pub sent_reply :
      Site D → Result MultiTenant.Error (Unit {0}) × Server D → Reply × Site D
  sent_reply d (ok _, server) = (write_json 202 accepted, record d { server = server })
  sent_reply d (err _, server) = (write_error 400, record d { server = server })

  -- `ResolveNameForUser`
  unfoldable pub resolve_in : Bytes → Site D → Result MultiTenant.Error Bytes × Site D
  resolve_in asked d =
      let (answer, s) = resolve_name_for_user u p w dht asked d.server.network d.server.store in
      (answer, with_store d s)

  -- handleMTSendMessage from `SendMessageForUser` on.
  unfoldable pub send_resolved :
      ℕ → Bytes → Bytes → SendRequest → Result MultiTenant.Error Bytes × Site D → Reply × Site D
  unfolding sent_reply
  send_resolved now msg_id user_id req (err _, d) = (write_error 400, d)
  send_resolved now msg_id user_id req (ok recipient, d) = sent_reply d (
      send_message_for_user u p w dht now msg_id user_id recipient req.subject req.body
        req.reply_to_id d.server)

  -- The addresses that are not federated.
  unfoldable pub send_here : ℕ → Bytes → Bytes → SendRequest → Site D → Reply × Site D
  unfolding send_resolved resolve_in
  send_here now msg_id user_id req d =
      if has_suffix req.recipient (codes ".dmail")
      then send_resolved now msg_id user_id req (resolve_in req.recipient d)
      else send_resolved now msg_id user_id req (ok req.recipient, d)

  unfoldable pub handle_mt_send_message :
      Http → ℕ → Bytes → Bytes → Option SendRequest → Site D → Reply × Site D
  unfolding is_incomplete sent_reply send_here
  handle_mt_send_message h now msg_id user_id none d = (write_error 400, d)
  handle_mt_send_message h now msg_id user_id (some req) d =
      let (username, host) = parse_federated_address req.recipient in
      if is_incomplete req
      then (write_error 400, d)
      else if eqb username []
      then send_here now msg_id user_id req d
      else sent_reply d (
          send_message_federated u p w dht h now msg_id user_id username host req.subject req.body
            req.reply_to_id d.server)

  unfoldable pub start_naming : Bytes → CachedSession → Site D → Reply × Site D
  start_naming name session d = elim (validate_name u name) [
    | err _ ↦ (write_error 400, d)
    | ok _ ↦ (
      write_json 202 accepted,
      record d {
        server = record d.server { pending_pow = d.server.pending_pow + 1 };
        namings = d.namings ++ record { name = name; keys = session_keys session } ∷ [];
      },
    )
  ]

  unfoldable pub handle_mt_register_name : ℕ → Bytes → Option Bytes → Site D → Reply × Site D
  unfolding start_naming
  handle_mt_register_name now user_id none d = (write_error 400, d)
  handle_mt_register_name now user_id (some name) d =
      if eqb name [] then (write_error 400, d) else elim (get now user_id d.server.sessions) [
        | none ↦ (write_error 401, d)
        | some session ↦ start_naming name session d
      ]

  -- The store, if the DHT took the record.
  unfoldable pub keep_name : Naming → NameRecord → Result Node.Error (Unit {0}) → Store → Store
  keep_name n rec (err _) s = s
  keep_name n rec (ok _) s =
      (save_name
        (record {
          name = n.name;
          pubkey = address p n.keys.public_key;
          timestamp = int64 rec.timestamp;
          raw_record = or_nil (w.marshal_name rec);
          is_mine = true;
        })
        s).1

  -- The goroutine of handleMTRegisterName, without its deferred calls.
  unfoldable pub naming_body : ℕ → Naming → Server D → Server D
  unfolding keep_name
  naming_body now n d = elim (build_name_record u p n.name n.keys now) [
    | err _ ↦ d
    | ok rec ↦
        let (answer, net) = register_name u p w dht d.network rec in
        record d { store = keep_name n rec answer d.store; network = net }
  ]

  -- The goroutine to its end; `n` is in the list of the registrations.
  unfoldable pub finish_naming : ℕ → List Naming → Naming → List Naming → Site D → Site D
  unfolding naming_body
  finish_naming now before n after d =
      let done = naming_body now n d.server in
      record d {
        server = record done { pending_pow = done.pending_pow - 1 };
        namings = before ++ after;
      }

  unfoldable pub resolve_reply : Bytes → Result MultiTenant.Error Bytes × Site D → Reply × Site D
  resolve_reply name (err _, d) = (write_error 404, d)
  resolve_reply name (ok addr, d) =
      (write_json 200 (resolved_name (name ++ codes ".dmail") addr), d)

  unfoldable pub handle_mt_resolve_name : Bytes → Site D → Reply × Site D
  unfolding resolve_in resolve_reply
  handle_mt_resolve_name asked d =
      let name = trim_suffix asked (codes ".dmail") in resolve_reply name (resolve_in name d)

  -- The goroutine of `go d.ProcessPendingPackets`, whose user is in the list.
  unfoldable pub finish_processing : ℕ → List Bytes → Bytes → List Bytes → Site D → Site D
  finish_processing now before user_id after d = record d {
    server = process_pending_packets u p w dht now user_id d.server;
    processing = before ++ after;
  }
