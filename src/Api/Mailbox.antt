-- ===== src/Api/Mailbox.antt =====
-- pkg/daemon/api_multi.go: the protected handlers that work on the store alone, with the id of the
-- user that requireAuth found. The clock and SQLite's full-text index are arguments.
use dmail.Prelude.{ℕ, Bool, Option, none, some, [], map, if◌then◌else◌, Result, ok, err}
use dmail.Prelude.Bytes.{Bytes, codes, eqb}
use dmail.Store
use dmail.Store.{Message, User, Store}
use dmail.Store.Single.{
  no_message, get_message, mark_read, delete_message, list_contacts, save_contact, delete_contact,
  get_my_names,
}
use dmail.Store.Multi.{
  no_user, get_user_by_id, get_user_by_pubkey, list_users, scoped, list_messages_for_user,
  count_unread_for_user, search_messages_for_user, get_thread_for_user,
  update_message_status_for_user,
}
use dmail.Api.{
  ContactRequest, PublicUser, message_list, contact_list, one_contact, name_list, counted,
  identity_of, directory, Reply, write_json, write_error, no_content, or_inbox, or_500,
}
use dmail.Api.Single.{message_or_404, is_contact, contact_of, dated_contact}

unfoldable pub identity_reply : Result Store.Error (Option User) × Store → Reply × Store
identity_reply (ok (some user), s) = (write_json 200 (identity_of user.pubkey []), s)
identity_reply (ok none, s) = (write_error 404, s)
identity_reply (err _, s) = (write_error 404, s)

unfoldable pub handle_mt_identity : Bytes → Store → Reply × Store
unfolding identity_reply
handle_mt_identity user_id s = identity_reply (get_user_by_id user_id s)

unfoldable pub handle_mt_list_messages : Bytes → Bytes → Store → Reply × Store
unfolding or_500
handle_mt_list_messages user_id folder s =
    or_500 (λ msgs. write_json 200 (message_list msgs))
      (list_messages_for_user user_id (or_inbox folder) s)

unfoldable pub handle_mt_get_message : Bytes → Bytes → Store → Reply × Store
unfolding or_500
handle_mt_get_message user_id id s = or_500 message_or_404 (get_message (scoped user_id id) s)

-- `if senderUser != nil`; beside an error, which is dropped, it is the empty user.
unfoldable pub confirm_read : Bytes → Result Store.Error (Option User) × Store → Store
confirm_read id (ok (some sender), s) =
    (update_message_status_for_user sender.id id (codes "read") s).1
confirm_read id (ok none, s) = s
confirm_read id (err _, s) = (update_message_status_for_user no_user.id id (codes "read") s).1

-- `if msg != nil`; beside an error, which is dropped, it is the empty message.
unfoldable pub propagate_receipt : Bytes → Result Store.Error (Option Message) × Store → Store
unfolding confirm_read
propagate_receipt id (ok (some msg), s) = confirm_read id (get_user_by_pubkey msg.sender_pubkey s)
propagate_receipt id (ok none, s) = s
propagate_receipt id (err _, s) = confirm_read id (get_user_by_pubkey no_message.sender_pubkey s)

unfoldable pub read_reply : Bytes → Bytes → Result Store.Error (Unit {0}) × Store → Reply × Store
unfolding propagate_receipt
read_reply user_id id (err _, s) = (write_error 500, s)
read_reply user_id id (ok _, s) =
    (no_content, propagate_receipt id (get_message (scoped user_id id) s))

unfoldable pub handle_mt_mark_read : Bytes → Bytes → Store → Reply × Store
unfolding read_reply
handle_mt_mark_read user_id id s = read_reply user_id id (mark_read (scoped user_id id) s)

unfoldable pub handle_mt_delete_message : Bytes → Bytes → Store → Reply × Store
unfolding or_500
handle_mt_delete_message user_id id s =
    or_500 (λ _. no_content) (delete_message (scoped user_id id) s)

-- Contacts and names are not of one user.
unfoldable pub handle_mt_list_contacts : Store → Reply × Store
unfolding or_500
handle_mt_list_contacts s =
    or_500 (λ contacts. write_json 200 (contact_list contacts)) (list_contacts s)

unfoldable pub handle_mt_save_contact : ℕ → Option ContactRequest → Store → Reply × Store
unfolding is_contact or_500
handle_mt_save_contact now none s = (write_error 400, s)
handle_mt_save_contact now (some req) s =
    if is_contact req
    then or_500 (λ _. write_json 201 (one_contact (dated_contact now (contact_of req))))
        (save_contact now (contact_of req) s)
    else (write_error 400, s)

unfoldable pub handle_mt_delete_contact : Bytes → Store → Reply × Store
unfolding or_500
handle_mt_delete_contact pubkey s = or_500 (λ _. no_content) (delete_contact pubkey s)

unfoldable pub handle_mt_my_names : Store → Reply × Store
unfolding or_500
handle_mt_my_names s = or_500 (λ entries. write_json 200 (name_list entries)) (get_my_names s)

unfoldable pub handle_mt_unread_count : Bytes → Bytes → Store → Reply × Store
unfolding or_500
handle_mt_unread_count user_id folder s =
    or_500 (λ count. write_json 200 (counted count))
      (count_unread_for_user user_id (or_inbox folder) s)

unfoldable pub handle_mt_search_messages :
    (Bytes → Option (Message → Bool)) → Bytes → Bytes → Store → Reply × Store
unfolding or_500
handle_mt_search_messages fts_match user_id q s =
    if eqb q []
    then (write_json 200 (message_list []), s)
    else or_500 (λ msgs. write_json 200 (message_list msgs))
        (search_messages_for_user fts_match user_id q 50 s)

unfoldable pub handle_mt_get_thread : Bytes → Bytes → Store → Reply × Store
unfolding or_500
handle_mt_get_thread user_id id s =
    or_500 (λ msgs. write_json 200 (message_list msgs)) (get_thread_for_user user_id id s)

abbrev pub public_user : User → PublicUser
public_user u = record {
  id = u.id;
  username = u.username;
  pubkey = u.pubkey;
  created_at = u.created_at;
}

-- Where there is no user, the JSON of the list is null.
unfoldable pub handle_mt_list_users : Store → Reply × Store
unfolding or_500
handle_mt_list_users s =
    or_500 (λ users. write_json 200 (directory (map public_user users))) (list_users s)
