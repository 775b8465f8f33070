-- ===== src/Tests/Api.antt =====
-- The API of many users at concrete inputs.
use dmail.Prelude.{◌≡◌, refl, ◌≢◌, ◌⊎◌, true, false, none, some, List, [], ◌∷◌}
use dmail.Prelude.Bytes.{Bytes, codes, eqb}
use dmail.Sql.{find}
use dmail.Store.{Message, Store}
use dmail.Store.Multi.{scoped}
use dmail.Store.Integrity.{message_key}
use dmail.Store.Mailboxes.{
  MailOp, deliver, read, discard, set_status, alter, mailboxes, Represents, perform_all,
  specify_all, perform_all-Represents,
}
use dmail.Api.{write_json, write_error, one_message, no_content}
use dmail.Api.Mailbox.{handle_mt_get_message, handle_mt_mark_read}
use dmail.Api.Receipts.{IsFrom, handle_mt_mark_read-receipt, handle_mt_mark_read-own}
use dmail.Api.Access.{Access, require_auth-Access, handle_mt_get_message-id}
use dmail.Api.Site.{Site, Request}
use dmail.Api.Serve.{Setup, handle, require_auth}
use dmail.Api.Isolation.{blank}
use dmail.Api.Isolation.Requests.{handle-other_mail}
use dmail.Api.Counting.{Event, Events, IsCounted, Events-IsCounted}
use dmail.Tests.Toys.{toy, toy_wire, toy_dht, Network, toy_ciphers, toy-IsParser, apart}
use dmail.Tests.Naming.{toy_lower}
use dmail.Tests.Rows.{store_of, mail, alice, bob, alice-IsUuid, bob-IsUuid}
use dmail.Tests.Server.{server_of, user_of, toy_http}

abbrev some_ops : List MailOp
some_ops =
    deliver alice (mail (codes "1") (codes "inbox") 10 false)
    ∷ deliver bob (mail (codes "1") (codes "sent") 10 true)
    ∷ read alice (codes "1")
    ∷ set_status bob (codes "1") (codes "read")
    ∷ discard alice (codes "1")
    ∷ []

perform_all-Represents_example :
    Represents (perform_all some_ops (store_of [])) (specify_all some_ops (mailboxes []))
perform_all-Represents_example =
    perform_all-Represents some_ops (store_of []) (mailboxes []) (λ n. refl)
      (alice-IsUuid, (bob-IsUuid, (alice-IsUuid, (bob-IsUuid, (alice-IsUuid, tt))))) (λ u i h. refl)

-- A message in Alice's mailbox, from the user of the server.
abbrev letter : Message
letter = record (mail (scoped alice (codes "1")) (codes "inbox") 10 false) {
  sender_pubkey = (user_of bob).pubkey;
}

abbrev post_office : Bytes → Store
post_office owner = record (store_of (letter ∷ [])) {
  tables = record (store_of (letter ∷ [])).tables { users = user_of owner ∷ [] };
}

letter_from :
    (owner : Bytes)
    → IsFrom (post_office owner) (λ n. refl) alice (codes "1") letter (user_of owner)
unfolding find eqb
letter_from owner = record { has = refl; local = refl }

handle_mt_mark_read-receipt_example :
    ((handle_mt_mark_read alice (codes "1") (post_office bob)).0 ≡ no_content)
    × Represents (handle_mt_mark_read alice (codes "1") (post_office bob)).1 (
        specify_all
          (read alice (codes "1") ∷ set_status bob (codes "1") (codes "read") ∷ [])
          (mailboxes (letter ∷ [])))
handle_mt_mark_read-receipt_example =
    handle_mt_mark_read-receipt (post_office bob) (λ n. refl) alice (codes "1") letter (user_of bob)
      (letter_from bob) alice-IsUuid bob-IsUuid

handle_mt_mark_read-own_example :
    ((handle_mt_mark_read alice (codes "1") (post_office alice)).0 ≡ no_content)
    × (mailboxes
          (handle_mt_mark_read alice (codes "1") (post_office alice)).1.messages
          alice
          (codes "1")
        ≡ some (record letter { id = codes "1"; is_read = true; status = codes "read" }))
handle_mt_mark_read-own_example =
    handle_mt_mark_read-own (post_office alice) (λ n. refl) alice (codes "1") letter (user_of alice)
      (letter_from alice) alice-IsUuid refl

handle_mt_get_message-id_example :
    ((find message_key (scoped alice (codes "1")) (letter ∷ []) ≡ none)
      × ((handle_mt_get_message alice (codes "1") (post_office bob)).0 ≡ write_error 404))
    ⊎ ((m : Message) × (find message_key (scoped alice (codes "1")) (letter ∷ []) ≡ some m)
        × ((handle_mt_get_message alice (codes "1") (post_office bob)).0
            ≡ write_json 200 (one_message m))
        × (m.id ≡ scoped alice (codes "1"))
        × (m.id ≢ codes "1"))
handle_mt_get_message-id_example =
    handle_mt_get_message-id (post_office bob) alice (codes "1") (λ n. refl)

abbrev setup : Setup
setup = record {
  primitives = toy;
  ciphers = toy_ciphers;
  jwt_secret = codes "secret";
  service_keys = record { public_key = []; private_key = []; mnemonic = [] };
  server_url = [];
  connected_peers = 2;
  http = toy_http;
  lower = toy_lower;
  wire = toy_wire;
  fts_match = λ q. some (λ m. false);
}

abbrev site : Site Network
site = record {
  server = record (server_of bob) { store = post_office bob };
  namings = [];
  processing = [];
}

require_auth-Access_example :
    Access setup toy_dht 9
      (codes "Bearer alice")
      (codes "msg-1")
      (Request.get_one (codes "1"))
      site
      toy-IsParser
      (require_auth setup toy_dht 9
        (codes "Bearer alice")
        (codes "msg-1")
        (Request.get_one (codes "1"))
        site)
require_auth-Access_example =
    require_auth-Access setup toy_dht 9 (codes "Bearer alice") (codes "msg-1")
      (Request.get_one (codes "1")) site toy-IsParser

handle-other_mail_example :
    alter blank (
      mailboxes
        (handle setup toy_dht 9
          (codes "msg-1")
          bob
          (Request.delete_one (codes "1"))
          site).1.server.store.messages
        alice
        (codes "1"))
    ≡ alter blank (mailboxes (letter ∷ []) alice (codes "1"))
unfolding eqb
handle-other_mail_example =
    handle-other_mail setup toy_dht 9 bob (codes "msg-1") alice (codes "1")
      (Request.delete_one (codes "1")) site (bob-IsUuid, tt) bob-IsUuid alice-IsUuid
      (apart alice bob refl) (apart (codes "msg-1") (codes "1") refl)

abbrev busy : Site Network
busy =
    (require_auth setup toy_dht 9 (codes "Bearer alice") (codes "msg-1")
      (Request.post_name (some (codes "alice"))) site).1

Events-IsCounted_example : IsCounted setup toy_dht busy
Events-IsCounted_example =
    Events-IsCounted setup toy_dht
      (Events.next Events.done (
        Event.asks 9 (codes "Bearer alice") (codes "msg-1")
          (Request.post_name (some (codes "alice")))))
      refl
