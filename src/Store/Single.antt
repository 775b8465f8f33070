-- ===== src/Store/Single.antt =====
-- pkg/store/store.go: the operations on messages, contacts, the key pair and names.
use dmail.Prelude.{
  false, ℕ, Bool, true, ◌&&◌, not, Option, none, some, List, [], ◌∷◌, ltb, ◌==◌, if◌then◌else◌,
  length, take, filter, Result, ok, err,
}
use dmail.Prelude.Bytes.{Bytes, codes, eqb}
use dmail.Clock.{unix}
use dmail.Sql.{find, delete, replace, update, order_by, leb_bytes}
use dmail.Store.{
  failing, Message, NameEntry, Contact, StoredKey, Store, Error, exec, query, with_thread,
  newest_first, oldest_first, default_limit,
}

unfoldable pub save_message : Message → Store → Result Error (Unit {0}) × Store
unfolding with_thread replace
save_message m = exec (λ t. record t { messages = replace (λ r. r.id) (with_thread m) t.messages })

-- `&Message{}`: what GetMessage returns beside an error other than ErrNoRows.
abbrev pub no_message : Message
no_message = record {
  id = [];
  folder = [];
  sender_pubkey = [];
  recipient_pubkey = [];
  subject = [];
  body = [];
  timestamp = 0;
  is_read = false;
  reply_to_id = [];
  thread_id = [];
  status = [];
}

-- `none` is a nil message without an error.
unfoldable pub get_message : Bytes → Store → Result Error (Option Message) × Store
unfolding find
get_message id = query (λ t. find (λ r. r.id) id t.messages)

unfoldable pub list_messages : Bytes → Store → Result Error (List Message) × Store
unfolding order_by
list_messages folder =
    query (λ t. order_by newest_first (filter (λ r. eqb r.folder folder) t.messages))

unfoldable pub mark_read : Bytes → Store → Result Error (Unit {0}) × Store
unfolding update
mark_read id = exec (λ t. record t {
  messages = update (λ r. r.id) id (λ r. record r { is_read = true }) t.messages;
})

-- UPDATE messages SET folder = 'trash'
unfoldable pub delete_message : Bytes → Store → Result Error (Unit {0}) × Store
unfolding update
delete_message id = exec (λ t. record t {
  messages = update (λ r. r.id) id (λ r. record r { folder = codes "trash" }) t.messages;
})

unfoldable pub has_message : Bytes → Store → Result Error Bool × Store
has_message id = query (λ t. ltb 0 (length (filter (λ r. eqb r.id id) t.messages)))

-- `now` is the clock, for a contact without a time of creation.
unfoldable pub save_contact : ℕ → Contact → Store → Result Error (Unit {0}) × Store
unfolding replace
save_contact now c =
    let dated = if c.created_at == 0 then record c { created_at = unix now } else c in
    exec (λ t. record t { contacts = replace (λ r. r.pubkey) dated t.contacts })

unfoldable pub get_contact : Bytes → Store → Result Error (Option Contact) × Store
unfolding find
get_contact pubkey = query (λ t. find (λ r. r.pubkey) pubkey t.contacts)

unfoldable pub list_contacts : Store → Result Error (List Contact) × Store
unfolding order_by
list_contacts = query (λ t. order_by (λ a b. leb_bytes a.petname b.petname) t.contacts)

unfoldable pub delete_contact : Bytes → Store → Result Error (Unit {0}) × Store
unfolding delete
delete_contact pubkey = exec (λ t. record t { contacts = delete (λ r. r.pubkey) pubkey t.contacts })

unfoldable pub save_key_pair : Bytes → Bytes → Store → Result Error (Unit {0}) × Store
unfolding replace
save_key_pair pubkey encrypted_privkey = exec (λ t. record t {
  keypair =
      replace (λ r. r.pubkey) (record { pubkey = pubkey; encrypted_privkey = encrypted_privkey })
        t.keypair;
})

abbrev pub first_key : List StoredKey → Bytes × Bytes
first_key [] = ([], [])
first_key (k ∷ keys) = (k.pubkey, k.encrypted_privkey)

-- LIMIT 1; two empty texts where there is no row.
unfoldable pub get_key_pair : Store → Result Error (Bytes × Bytes) × Store
get_key_pair = query (λ t. first_key t.keypair)

unfoldable pub save_name : NameEntry → Store → Result Error (Unit {0}) × Store
unfolding replace
save_name n = exec (λ t. record t { names = replace (λ r. r.name) n t.names })

unfoldable pub get_name : Bytes → Store → Result Error (Option NameEntry) × Store
unfolding find
get_name name = query (λ t. find (λ r. r.name) name t.names)

abbrev by_name : NameEntry → NameEntry → Bool
by_name a b = leb_bytes a.name b.name

unfoldable pub get_names_by_pubkey : Bytes → Store → Result Error (List NameEntry) × Store
unfolding order_by
get_names_by_pubkey pubkey =
    query (λ t. order_by by_name (filter (λ r. eqb r.pubkey pubkey) t.names))

unfoldable pub get_my_names : Store → Result Error (List NameEntry) × Store
unfolding order_by
get_my_names = query (λ t. order_by by_name (filter (λ r. r.is_mine) t.names))

unfoldable pub count_unread : Bytes → Store → Result Error ℕ × Store
count_unread folder =
    query (λ t. length (filter (λ r. eqb r.folder folder && not r.is_read) t.messages))

-- `fts_match q`: the messages whose subject or body the full-text index matches with the query, or
-- `none` if the query is malformed, which makes MATCH fail.
unfoldable pub search_messages :
    (Bytes → Option (Message → Bool)) → Bytes → ℕ → Store → Result Error (List Message) × Store
unfolding order_by
search_messages fts_match q limit s = elim (fts_match q) [
  | none ↦ failing s
  | some matches ↦
      query (λ t. take (default_limit limit) (order_by newest_first (filter matches t.messages))) s
]

-- The second query of `GetThread`.
unfoldable pub list_thread : Bytes → Bytes → Store → Result Error (List Message) × Store
unfolding order_by eqb
list_thread message_id found s =
    let thread_id = if eqb found [] then message_id else found in
    query (λ t. order_by oldest_first (filter (λ r. eqb r.thread_id thread_id) t.messages)) s

unfoldable pub get_thread : Bytes → Store → Result Error (List Message) × Store
unfolding find list_thread
get_thread message_id s =
    let (found, s') = query (λ t. find (λ r. r.id) message_id t.messages) s in
    elim found [
      | err e ↦ (err e, s')
      | ok none ↦ (ok [], s')
      | ok (some m) ↦ list_thread message_id m.thread_id s'
    ]

unfoldable pub update_message_status : Bytes → Bytes → Store → Result Error (Unit {0}) × Store
unfolding update
update_message_status id status = exec (λ t. record t {
  messages = update (λ r. r.id) id (λ r. record r { status = status }) t.messages;
})
