-- ===== src/Api/Serve.antt =====
-- pkg/daemon/api_multi.go: NewMultiTenantHTTPHandler, from the pattern that a request matched to its
-- reply and the server after it.
use dmail.Prelude.{Option, ℕ, Bool, none, some, if◌then◌else◌}
use dmail.Prelude.Bytes.{Bytes, codes, has_prefix}
use dmail.Pb.{Wire}
use dmail.Crypto.{Primitives}
use dmail.Crypto.Keys.{KeyPair}
use dmail.Node.{Dht}
use dmail.Store.{Message}
use dmail.Auth.{Ciphers}
use dmail.Federation.{Http}
use dmail.MultiTenant.Federated.{
  handle_well_known, handle_federation_resolve, handle_federation_deliver,
}
use dmail.Api.{no_body, Reply, write_json, write_error}
use dmail.Api.Single.{handle_status}
use dmail.Api.Accounts.{authenticate, handle_signup, handle_login}
use dmail.Api.Mailbox.{
  handle_mt_identity, handle_mt_list_messages, handle_mt_get_message, handle_mt_mark_read,
  handle_mt_delete_message, handle_mt_list_contacts, handle_mt_save_contact,
  handle_mt_delete_contact, handle_mt_my_names, handle_mt_unread_count, handle_mt_search_messages,
  handle_mt_get_thread, handle_mt_list_users,
}
use dmail.Api.Site.{
  Site, Request, PublicRequest, on_store, accounts_of, answered, delivered, federated,
  handle_mt_send_message, handle_mt_register_name, handle_mt_resolve_name,
}

-- What the server was started with, and what it gets from outside.
pub record Setup : Type 0 where
  pub primitives : Primitives
  pub ciphers : Ciphers
  pub jwt_secret : Bytes
  pub service_keys : KeyPair
  -- the environment's DMAIL_SERVER_URL
  pub server_url : Bytes
  pub connected_peers : ℕ
  pub http : Http
  -- strings.ToLower, the wire format, the full-text index
  pub lower : Bytes → Bytes
  pub wire : Wire
  pub fts_match : Bytes → Option (Message → Bool)

-- The public status, under the address of the service.
unfoldable pub handle_mt_status : Setup → ℕ → Reply
unfolding handle_status
handle_mt_status c pending_pow =
    handle_status c.primitives c.service_keys c.connected_peers pending_pow

pub data Served : Type 0 where
  not_found index_html : Served
  static_file : Bytes → Served

-- `exists path` says that `os.Stat` finds the path below the directory of the front end.
unfoldable pub spa_handler : (Bytes → Bool) → Bytes → Served
unfolding has_prefix
spa_handler exists path =
    if has_prefix path (codes "/api/")
    then not_found
    else if exists path
    then static_file path
    else index_html

module _ (c : Setup) {D : Type 0} (dht : Dht D) where
  -- The handlers behind requireAuth. `msg_id` is the id of a message that is sent.
  unfoldable pub handle : ℕ → Bytes → Bytes → Request → Site D → Reply × Site D
  unfolding handle_mt_identity handle_mt_list_messages handle_mt_get_message handle_mt_mark_read
      handle_mt_delete_message handle_mt_list_contacts handle_mt_save_contact
      handle_mt_delete_contact handle_mt_my_names handle_mt_unread_count handle_mt_search_messages
      handle_mt_get_thread handle_mt_list_users handle_mt_send_message handle_mt_register_name
  handle now msg_id user_id (Request.get_unread_count folder) d =
      on_store (handle_mt_unread_count user_id folder) d
  handle now msg_id user_id (Request.get_search q) d =
      on_store (handle_mt_search_messages c.fts_match user_id q) d
  handle now msg_id user_id (Request.get_thread_of id) d =
      on_store (handle_mt_get_thread user_id id) d
  handle now msg_id user_id (Request.get_messages folder) d =
      on_store (handle_mt_list_messages user_id folder) d
  handle now msg_id user_id (Request.get_one id) d = on_store (handle_mt_get_message user_id id) d
  handle now msg_id user_id (Request.post_send req) d =
      handle_mt_send_message c.lower c.primitives c.wire dht c.http now msg_id user_id req d
  handle now msg_id user_id (Request.put_read id) d = on_store (handle_mt_mark_read user_id id) d
  handle now msg_id user_id (Request.delete_one id) d =
      on_store (handle_mt_delete_message user_id id) d
  handle now msg_id user_id Request.get_users d = on_store handle_mt_list_users d
  handle now msg_id user_id Request.get_contacts d = on_store handle_mt_list_contacts d
  handle now msg_id user_id (Request.post_contact req) d =
      on_store (handle_mt_save_contact now req) d
  handle now msg_id user_id (Request.delete_contact_of pubkey) d =
      on_store (handle_mt_delete_contact pubkey) d
  handle now msg_id user_id (Request.post_name name) d =
      handle_mt_register_name c.lower c.primitives c.wire dht now user_id name d
  handle now msg_id user_id Request.get_names d = on_store handle_mt_my_names d
  handle now msg_id user_id Request.get_identity d = on_store (handle_mt_identity user_id) d

  -- requireAuth around them, on the header Authorization.
  unfoldable pub require_auth : ℕ → Bytes → Bytes → Request → Site D → Reply × Site D
  unfolding handle
  require_auth now header msg_id req d = elim (authenticate c.ciphers c.jwt_secret now header) [
    | none ↦ (write_error 401, d)
    | some user_id ↦ handle now msg_id user_id req d
  ]

  -- The patterns without requireAuth, and corsMiddleware's answer to the method OPTIONS.
  unfoldable pub serve_public : ℕ → PublicRequest → Site D → Reply × Site D
  unfolding handle_mt_status handle_well_known handle_federation_resolve handle_federation_deliver
      handle_signup handle_login handle_mt_resolve_name
  serve_public now PublicRequest.preflight d = (write_json 200 no_body, d)
  serve_public now (PublicRequest.post_signup req draws) d =
      answered (handle_signup c.primitives c.ciphers c.jwt_secret req draws (accounts_of d)) d
  serve_public now (PublicRequest.post_login req) d =
      answered (handle_login c.primitives c.ciphers c.jwt_secret now req (accounts_of d)) d
  serve_public now PublicRequest.get_status d = (handle_mt_status c d.server.pending_pow, d)
  serve_public now PublicRequest.get_well_known d =
      (federated (handle_well_known c.primitives c.service_keys.public_key c.server_url), d)
  serve_public now (PublicRequest.get_federation_resolve username) d =
      on_store
        (λ s. let (reply, s') = handle_federation_resolve username s in (federated reply, s')) d
  serve_public now (PublicRequest.post_federation_deliver content) d =
      delivered
        (handle_federation_deliver c.primitives c.wire now content d.server.sessions d.server.store)
        d
  serve_public now (PublicRequest.get_resolve asked) d =
      handle_mt_resolve_name c.lower c.primitives c.wire dht asked d
