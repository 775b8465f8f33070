-- ===== src/Daemon/Polling.antt =====
-- A poll that meets a known message leaves the store's messages alone.
use dmail.Prelude.{
  ℕ, ◌≡◌, refl, ap, ◌∙◌, inl, inr, true, false, none, some, List, [], ◌∷◌, arith, ltb, Option-cases,
  length, filter, ok,
}
use dmail.Prelude.Bytes.{Bytes, eqb, eqb_iff}
use dmail.Pb.{DmailPacket, Payload, Wire}
use dmail.Crypto.{Primitives}
use dmail.Crypto.Keys.{KeyPair}
use dmail.Packet.{open_payload}
use dmail.Sql.{find, replace}
use dmail.Sql.Keys.{find-replace}
use dmail.Node.{Dht, poll}
use dmail.Store.{Message, Store, with_thread}
use dmail.Store.Single.{save_message, has_message, get_message}
use dmail.Store.Integrity.{message_key}
use dmail.Store.Messages.{
  IsReliable, changed, on_messages, exec-changed, query-read, get_message-find, with_thread-id,
}
use dmail.Daemon.{Daemon, received_row, keep_message, do_poll}

absent-any :
    (id : Bytes) (rows : List Message)
    → find message_key id rows ≡ none
    → ltb 0 (length (filter (λ r. eqb r.id id) rows)) ≡ false
unfolding find
absent-any id [] e = refl
absent-any id (r ∷ rows) e = ground (arith, absent-any id rows)

found-any :
    (id : Bytes) (m : Message) (rows : List Message)
    → find message_key id rows ≡ some m
    → ltb 0 (length (filter (λ r. eqb r.id id) rows)) ≡ true
unfolding find
found-any id m [] e = cc
found-any id m (r ∷ rows) e = ground (arith, found-any id m rows)

save_message-known :
    (row : Message) (s : Store)
    → IsReliable s
    → IsReliable (save_message row s).1
      × (find message_key row.id (save_message row s).1.messages ≡ some (with_thread row))
unfolding save_message
save_message-known row s r =
    rw (exec-changed (on_messages (replace message_key (with_thread row))) s r) (
      r,
      ground (
        arith,
        find-replace message_key (with_thread row) row.id s.messages,
        with_thread-id row,
        eqb_iff (with_thread row).id row.id,
      ),
    )

module _ (u : Bytes → Bytes) (p : Primitives) (w : Wire) {D : Type 0} (dht : Dht D)
    (keys : KeyPair) where
  -- The message of a row that is known, or was just saved, is known.
  pub keep_message-known :
      (row : Message) (s : Store)
      → IsReliable s
      → IsReliable (keep_message u p w dht keys row (has_message row.id s))
        × ((m : Message) × (find message_key row.id
                (keep_message u p w dht keys row (has_message row.id s)).messages
              ≡ some m))
  unfolding keep_message has_message
  keep_message-known row s r =
      let asked = query-read (λ t. ltb 0 (length (filter (λ x. eqb x.id row.id) t.messages))) s r in
      elim (Option-cases (find message_key row.id s.messages)) [
        | inr (m, e) ↦ rw (asked, found-any row.id m s.messages e) (r, (m, e))
        | inl absent ↦
            let (reliable, found) = save_message-known row (changed (λ t. t) s) r in
            rw (asked, absent-any row.id s.messages absent) (reliable, (with_thread row, found))
      ]

  pub keep_message-again :
      (row m : Message) (s : Store)
      → IsReliable s
      → find message_key row.id s.messages ≡ some m
      → (keep_message u p w dht keys row (has_message row.id s)).tables ≡ s.tables
  unfolding keep_message has_message
  keep_message-again row m s r e =
      let known : ltb 0 (length (filter (λ x. eqb x.id row.id) s.messages)) ≡ true =
        found-any row.id m s.messages e in
      rw (query-read (λ t. ltb 0 (length (filter (λ x. eqb x.id row.id) t.messages))) s r, known)

  pub do_poll-keep :
      (now : ℕ) (d : Daemon D) (pkt : DmailPacket) (payload : Payload)
      → poll u p w dht now d.network keys.public_key ≡ ok pkt
      → open_payload p w pkt keys.private_key ≡ ok payload
      → do_poll u p w dht keys now d ≡ record d {
        store =
            keep_message u p w dht keys
              (received_row u p w dht keys pkt payload)
              (has_message payload.message_id d.store);
      }
  unfolding do_poll
  do_poll-keep now d pkt payload polled opened = ground (arith, polled, opened)

  -- Where no statement fails: when the DHT has a packet for the daemon's key that it can decrypt, a
  -- poll leaves a message of the packet's message id in the store, and a second poll that meets the
  -- same packet changes no table.
  pub do_poll-again :
      (now later : ℕ) (d : Daemon D) (pkt : DmailPacket) (payload : Payload)
      → IsReliable d.store
      → poll u p w dht now d.network keys.public_key ≡ ok pkt
      → poll u p w dht later d.network keys.public_key ≡ ok pkt
      → open_payload p w pkt keys.private_key ≡ ok payload
      → ((m : Message) × ((get_message payload.message_id (do_poll u p w dht keys now d).store).0
            ≡ ok (some m)))
        × ((do_poll u p w dht keys later (do_poll u p w dht keys now d)).store.tables
            ≡ (do_poll u p w dht keys now d).store.tables)
  do_poll-again now later d pkt payload r polled again opened =
      let row = received_row u p w dht keys pkt payload in
      let once = keep_message u p w dht keys row (has_message payload.message_id d.store) in
      let (reliable, (m, found)) = keep_message-known row d.store r in
      let first = do_poll-keep now d pkt payload polled opened in
      let second = do_poll-keep later (record d { store = once }) pkt payload again opened in
      rw first (
        (m, get_message-find once reliable payload.message_id ∙ ap ok found),
        ap (λ (x : Daemon D). x.store.tables) second ∙ keep_message-again row m once reliable found,
      )
