-- ===== src/Api/Single.antt =====
-- pkg/daemon/api.go: the handlers of the daemon of one user. The number of connected peers, the
-- clock and SQLite's full-text index are arguments.
use dmail.Prelude.{
  ℕ, ◌||◌, ◌&&◌, ◌==◌, not, Bool, Option, none, some, [], ◌++◌, if◌then◌else◌, Result, ok, err,
}
use dmail.Prelude.Bytes.{Bytes, codes, eqb, has_prefix, has_suffix, trim_suffix}
use dmail.Clock.{unix}
use dmail.Pb.{Wire}
use dmail.Crypto.{Primitives}
use dmail.Crypto.Keys.{KeyPair, address}
use dmail.Node.{Dht}
use dmail.Store.{Message, Contact, Store}
use dmail.Store.Single
use dmail.Daemon
use dmail.Daemon.Jobs.{Service, start_sending, start_naming}
use dmail.Api.{
  SendRequest, ContactRequest, no_body, accepted, message_list, one_message, contact_list,
  one_contact, name_list, counted, status_response, identity_of, registering, resolved_name, Reply,
  write_json, write_error, no_content, or_inbox, or_500,
}

-- The patterns of NewHTTPHandler with the values of path and query, and any request with the method
-- OPTIONS.
pub data Request : Type 0 where
  preflight : Request
  get_unread_count : Bytes → Request
  get_search : Bytes → Request
  get_thread_of : Bytes → Request
  get_messages : Bytes → Request
  get_one : Bytes → Request
  post_send : Option SendRequest → Request
  put_read : Bytes → Request
  delete_one : Bytes → Request
  get_contacts : Request
  post_contact : Option ContactRequest → Request
  delete_contact_of : Bytes → Request
  post_name : Option Bytes → Request
  get_resolve : Bytes → Request
  get_names : Request
  get_status : Request
  get_identity : Request

unfoldable pub handle_list_messages : Bytes → Store → Reply × Store
unfolding or_500
handle_list_messages folder s =
    or_500 (λ msgs. write_json 200 (message_list msgs)) (Single.list_messages (or_inbox folder) s)

unfoldable pub message_or_404 : Option Message → Reply
message_or_404 none = write_error 404
message_or_404 (some msg) = write_json 200 (one_message msg)

unfoldable pub handle_get_message : Bytes → Store → Reply × Store
unfolding or_500 message_or_404
handle_get_message id s = or_500 message_or_404 (Single.get_message id s)

unfoldable pub handle_mark_read : Bytes → Store → Reply × Store
unfolding or_500
handle_mark_read id s = or_500 (λ _. no_content) (Single.mark_read id s)

unfoldable pub handle_delete_message : Bytes → Store → Reply × Store
unfolding or_500
handle_delete_message id s = or_500 (λ _. no_content) (Single.delete_message id s)

unfoldable pub handle_list_contacts : Store → Reply × Store
unfolding or_500
handle_list_contacts s =
    or_500 (λ contacts. write_json 200 (contact_list contacts)) (Single.list_contacts s)

-- The tests of handleSaveContact on the decoded body.
unfoldable pub is_contact : ContactRequest → Bool
unfolding eqb has_prefix
is_contact req =
    not (eqb req.pubkey [] || eqb req.petname []) && has_prefix req.pubkey (codes "dmail:")

abbrev pub contact_of : ContactRequest → Contact
contact_of req = record { pubkey = req.pubkey; petname = req.petname; created_at = 0 }

-- SaveContact sets the time of creation of the contact that it is given.
abbrev pub dated_contact : ℕ → Contact → Contact
dated_contact now c = if c.created_at == 0 then record c { created_at = unix now } else c

unfoldable pub save_contact_reply : ℕ → ContactRequest → Store → Reply × Store
unfolding or_500
save_contact_reply now req s =
    or_500 (λ _. write_json 201 (one_contact (dated_contact now (contact_of req))))
      (Single.save_contact now (contact_of req) s)

unfoldable pub handle_save_contact : ℕ → Option ContactRequest → Store → Reply × Store
unfolding is_contact save_contact_reply
handle_save_contact now none s = (write_error 400, s)
handle_save_contact now (some req) s =
    if is_contact req then save_contact_reply now req s else (write_error 400, s)

unfoldable pub handle_delete_contact : Bytes → Store → Reply × Store
unfolding or_500
handle_delete_contact pubkey s = or_500 (λ _. no_content) (Single.delete_contact pubkey s)

unfoldable pub handle_my_names : Store → Reply × Store
unfolding or_500
handle_my_names s = or_500 (λ entries. write_json 200 (name_list entries)) (Single.get_my_names s)

unfoldable pub handle_unread_count : Bytes → Store → Reply × Store
unfolding or_500
handle_unread_count folder s =
    or_500 (λ count. write_json 200 (counted count)) (Single.count_unread (or_inbox folder) s)

unfoldable pub handle_search_messages :
    (Bytes → Option (Message → Bool)) → Bytes → Store → Reply × Store
unfolding or_500
handle_search_messages fts_match q s =
    if eqb q []
    then (write_json 200 (message_list []), s)
    else or_500 (λ msgs. write_json 200 (message_list msgs))
        (Single.search_messages fts_match q 50 s)

unfoldable pub handle_get_thread : Bytes → Store → Reply × Store
unfolding or_500
handle_get_thread id s =
    or_500 (λ msgs. write_json 200 (message_list msgs)) (Single.get_thread id s)

unfoldable pub handle_status : Primitives → KeyPair → ℕ → ℕ → Reply
handle_status p keys connected_peers pending_pow = write_json 200 (
    status_response (record {
      connected_peers = connected_peers;
      pending_pow_tasks = pending_pow;
      address = address p keys.public_key;
    }))

unfoldable pub handle_identity : Primitives → KeyPair → Reply
handle_identity p keys = write_json 200 (identity_of (address p keys.public_key) keys.mnemonic)

-- `req.Recipient == "" || req.Subject == ""`
unfoldable pub is_incomplete : SendRequest → Bool
unfolding eqb
is_incomplete req = eqb req.recipient [] || eqb req.subject []

module _ (u : Bytes → Bytes) (p : Primitives) (w : Wire) {D : Type 0} (dht : Dht D)
    (keys : KeyPair) where
  abbrev with_store : Service D → Store → Service D
  with_store d s = record d { daemon = record d.daemon { store = s } }

  -- The reply of a handler that works on the store alone.
  abbrev pub on_store : (Store → Reply × Store) → Service D → Reply × Service D
  on_store handler d = let (reply, s) = handler d.daemon.store in (reply, with_store d s)

  -- The reply to what SendMessage and RegisterName return.
  unfoldable pub or_400 : Reply → Result Daemon.Error (Unit {0}) × Service D → Reply × Service D
  or_400 reply (ok _, d) = (reply, d)
  or_400 reply (err _, d) = (write_error 400, d)

  -- handleSendMessage from `SendMessage` on, with the address that was asked for or resolved.
  unfoldable pub send_resolved :
      SendRequest → Result Daemon.Error Bytes × Service D → Reply × Service D
  unfolding or_400
  send_resolved req (err _, d) = (write_error 400, d)
  send_resolved req (ok recipient, d) =
      or_400 (write_json 202 accepted)
        (start_sending u p w dht keys recipient req.subject req.body req.reply_to_id d)

  -- `ResolveName`, on the daemon's network and store.
  unfoldable pub resolve_in : Bytes → Service D → Result Daemon.Error Bytes × Service D
  resolve_in asked d =
      let (answer, s) = Daemon.resolve u p w dht keys asked d.daemon.network d.daemon.store in
      (answer, with_store d s)

  unfoldable pub handle_send_message : Option SendRequest → Service D → Reply × Service D
  unfolding is_incomplete send_resolved resolve_in
  handle_send_message none d = (write_error 400, d)
  handle_send_message (some req) d =
      if is_incomplete req
      then (write_error 400, d)
      else if has_suffix req.recipient (codes ".dmail")
      then send_resolved req (resolve_in req.recipient d)
      else send_resolved req (ok req.recipient, d)

  unfoldable pub handle_register_name : Option Bytes → Service D → Reply × Service D
  unfolding or_400
  handle_register_name none d = (write_error 400, d)
  handle_register_name (some name) d =
      if eqb name []
      then (write_error 400, d)
      else or_400 (write_json 202 (registering (name ++ codes ".dmail")))
          (start_naming u p w dht keys name d)

  unfoldable pub resolve_reply : Bytes → Result Daemon.Error Bytes × Service D → Reply × Service D
  resolve_reply name (err _, d) = (write_error 404, d)
  resolve_reply name (ok addr, d) =
      (write_json 200 (resolved_name (name ++ codes ".dmail") addr), d)

  unfoldable pub handle_resolve_name : Bytes → Service D → Reply × Service D
  unfolding resolve_in resolve_reply
  handle_resolve_name asked d =
      let name = trim_suffix asked (codes ".dmail") in resolve_reply name (resolve_in name d)

  module _ (fts_match : Bytes → Option (Message → Bool)) (connected_peers : ℕ) where
    -- NewHTTPHandler: corsMiddleware, and the handler of each pattern.
    unfoldable pub serve : ℕ → Request → Service D → Reply × Service D
    unfolding handle_list_messages handle_get_message handle_mark_read handle_delete_message
        handle_list_contacts handle_save_contact handle_delete_contact handle_my_names
        handle_unread_count handle_search_messages handle_get_thread handle_status handle_identity
        handle_send_message handle_register_name handle_resolve_name
    serve now preflight d = (write_json 200 no_body, d)
    serve now (get_unread_count folder) d = on_store (handle_unread_count folder) d
    serve now (get_search q) d = on_store (handle_search_messages fts_match q) d
    serve now (get_thread_of id) d = on_store (handle_get_thread id) d
    serve now (get_messages folder) d = on_store (handle_list_messages folder) d
    serve now (get_one id) d = on_store (handle_get_message id) d
    serve now (post_send req) d = handle_send_message req d
    serve now (put_read id) d = on_store (handle_mark_read id) d
    serve now (delete_one id) d = on_store (handle_delete_message id) d
    serve now get_contacts d = on_store handle_list_contacts d
    serve now (post_contact req) d = on_store (handle_save_contact now req) d
    serve now (delete_contact_of pubkey) d = on_store (handle_delete_contact pubkey) d
    serve now (post_name req) d = handle_register_name req d
    serve now (get_resolve asked) d = handle_resolve_name asked d
    serve now get_names d = on_store handle_my_names d
    serve now get_status d = (handle_status p keys connected_peers d.pending_pow, d)
    serve now get_identity d = (handle_identity p keys, d)
