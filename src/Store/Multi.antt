-- ===== src/Store/Multi.antt =====
-- pkg/store/store_multi.go: users, packets that wait for their user, and messages scoped to a user
-- by the prefix "userID:" of their row's id.
use dmail.Prelude.{
  ℕ, ◌+◌, Bool, true, false, ◌&&◌, ◌||◌, not, Option, none, some, List, [], ◌∷◌, ◌++◌, map, leb,
  ◌==◌, if◌then◌else◌, length, take, drop, filter, any, Result, ok, err,
}
use dmail.Prelude.Bytes.{Bytes, codes, eqb, has_prefix}
use dmail.Clock.{unix}
use dmail.Sql.{find, replace, update, order_by, leb_bytes, like}
use dmail.Store.{
  failing, Message, User, PendingPacket, Store, Error, exec, insert, query, with_thread,
  newest_first, oldest_first, default_limit,
}

-- `if u.CreatedAt == 0 { u.CreatedAt = time.Now().Unix() }`
unfoldable pub dated : ℕ → User → User
dated now u = if u.created_at == 0 then record u { created_at = unix now } else u

unfoldable pub create_user : ℕ → User → Store → Result Error (Unit {0}) × Store
unfolding eqb
create_user now u =
    insert (λ t. any (λ r. eqb r.id u.id || eqb r.username u.username) t.users)
      (λ t. record t { users = t.users ++ dated now u ∷ [] })

unfoldable pub get_user_by_username : Bytes → Store → Result Error (Option User) × Store
unfolding find
get_user_by_username username = query (λ t. find (λ r. r.username) username t.users)

unfoldable pub get_user_by_pubkey : Bytes → Store → Result Error (Option User) × Store
unfolding find
get_user_by_pubkey pubkey = query (λ t. find (λ r. r.pubkey) pubkey t.users)

unfoldable pub get_user_by_id : Bytes → Store → Result Error (Option User) × Store
unfolding find
get_user_by_id id = query (λ t. find (λ r. r.id) id t.users)

-- `&User{}`: what the look-ups of a user return beside an error other than ErrNoRows.
abbrev pub no_user : User
no_user = record {
  id = [];
  username = [];
  email = [];
  password_hash = [];
  password_salt = [];
  pubkey = [];
  encrypted_privkey = [];
  encrypted_key_salt = [];
  encrypted_key_nonce = [];
  created_at = 0;
}

-- The columns that `ListUsers` selects; the other fields are left nil.
abbrev pub listed : User → User
listed u = record u {
  password_hash = [];
  password_salt = [];
  encrypted_privkey = [];
  encrypted_key_salt = [];
  encrypted_key_nonce = [];
}

-- ORDER BY username
abbrev pub listing : List User → List User
listing users = map listed (order_by (λ a b. leb_bytes a.username b.username) users)

unfoldable pub list_users : Store → Result Error (List User) × Store
unfolding order_by
list_users = query (λ t. listing t.users)

unfoldable pub get_all_user_pub_keys : Store → Result Error (List Bytes) × Store
get_all_user_pub_keys = query (λ t. map (λ r. r.pubkey) t.users)

-- The foreign key of `user_id` is not enforced: SQLite's default.
unfoldable pub save_pending_packet :
    ℕ → Bytes → Bytes → Bytes → Store → Result Error (Unit {0}) × Store
save_pending_packet now user_id raw_data sender_pubkey = exec (λ t. record t {
  pending_packets =
      t.pending_packets
      ++ record {
        id = t.next_packet_id;
        user_id = user_id;
        raw_data = raw_data;
        sender_pubkey = sender_pubkey;
        received_at = unix now;
        processed = false;
      }
        ∷ [];
  next_packet_id = t.next_packet_id + 1;
})

unfoldable pub get_pending_packets : Bytes → Store → Result Error (List PendingPacket) × Store
unfolding order_by eqb
get_pending_packets user_id = query (λ t.
    order_by (λ a b. leb a.received_at b.received_at)
      (filter (λ r. eqb r.user_id user_id && not r.processed) t.pending_packets))

unfoldable pub mark_packet_processed : ℕ → Store → Result Error (Unit {0}) × Store
mark_packet_processed id = exec (λ t. record t {
  pending_packets =
      map (λ r. if r.id == id then record r { processed = true } else r) t.pending_packets;
})

-- fmt.Sprintf("%s:%s", userID, id)
abbrev pub scoped : Bytes → Bytes → Bytes
scoped user_id id = user_id ++ (codes ":" ++ id)

unfoldable pub save_message_for_user : Bytes → Message → Store → Result Error (Unit {0}) × Store
save_message_for_user user_id m =
    let threaded = with_thread m in
    exec (λ t. record t {
      messages =
          replace (λ r. r.id) (record threaded { id = scoped user_id threaded.id }) t.messages;
    })

-- The rows that a pattern "userID:%" selects.
unfoldable pub is_scoped_to : Bytes → Message → Bool
unfolding like
is_scoped_to user_id r = like (user_id ++ codes ":%") r.id

-- `if strings.HasPrefix(m.ID, prefix) { m.ID = m.ID[len(prefix):] }`
unfoldable pub strip_scope : Bytes → Message → Message
unfolding has_prefix
strip_scope user_id m =
    let prefix = user_id ++ codes ":" in
    if has_prefix m.id prefix then record m { id = drop (length prefix) m.id } else m

unfoldable pub list_messages_for_user : Bytes → Bytes → Store → Result Error (List Message) × Store
list_messages_for_user user_id folder = query (λ t. map (strip_scope user_id) (
    order_by newest_first (filter (λ r. is_scoped_to user_id r && eqb r.folder folder) t.messages)))

unfoldable pub count_unread_for_user : Bytes → Bytes → Store → Result Error ℕ × Store
count_unread_for_user user_id folder = query (λ t.
    length
      (filter (λ r. is_scoped_to user_id r && (eqb r.folder folder && not r.is_read)) t.messages))

unfoldable pub search_messages_for_user :
    (Bytes → Option (Message → Bool))
    → Bytes
    → Bytes
    → ℕ
    → Store
    → Result Error (List Message) × Store
search_messages_for_user fts_match user_id q limit s = elim (fts_match q) [
  | none ↦ failing s
  | some matches ↦
      query
        (λ t. map (strip_scope user_id) (
          take (default_limit limit)
            (order_by newest_first (filter (λ r. matches r && is_scoped_to user_id r) t.messages))))
        s
]

-- The second query of `GetThreadForUser`.
unfoldable pub list_thread_for_user :
    Bytes → Bytes → Bytes → Store → Result Error (List Message) × Store
list_thread_for_user user_id message_id found s =
    let thread_id = if eqb found [] then message_id else found in
    query
      (λ t. map (strip_scope user_id) (
        order_by oldest_first
          (filter (λ r. is_scoped_to user_id r && eqb r.thread_id thread_id) t.messages)))
      s

unfoldable pub get_thread_for_user : Bytes → Bytes → Store → Result Error (List Message) × Store
get_thread_for_user user_id message_id s =
    let (found, s') = query (λ t. find (λ r. r.id) (scoped user_id message_id) t.messages) s in
    elim found [
      | err e ↦ (err e, s')
      | ok none ↦ (ok [], s')
      | ok (some m) ↦ list_thread_for_user user_id message_id m.thread_id s'
    ]

unfoldable pub update_message_status_for_user :
    Bytes → Bytes → Bytes → Store → Result Error (Unit {0}) × Store
unfolding update
update_message_status_for_user user_id message_id status = exec (λ t. record t {
  messages =
      update (λ r. r.id) (scoped user_id message_id) (λ r. record r { status = status }) t.messages;
})
