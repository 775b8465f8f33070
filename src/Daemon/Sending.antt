-- ===== src/Daemon/Sending.antt =====
-- What SendMessage saves of a message that the sender cannot decrypt.
use dmail.Prelude.{ℕ, ◌≡◌, refl, sym, ap, ◌∙◌, List, [], ◌∷◌, ◌++◌, arith, err}
use dmail.Prelude.Bytes.{Bytes, eqb_iff}
use dmail.Pb.{DmailPacket, Wire}
use dmail.Crypto.{Primitives}
use dmail.Crypto.Keys.{KeyPair}
use dmail.Packet
use dmail.Packet.{open_payload}
use dmail.Sql.{delete, replace}
use dmail.Node.{Dht}
use dmail.Store.{Message, Store, with_thread}
use dmail.Store.Single.{save_message}
use dmail.Store.Integrity.{message_key}
use dmail.Store.Messages.{IsReliable, on_messages, exec-changed, with_thread-id}
use dmail.Daemon.{Daemon, sent_row, send_packet}

delete-append :
    (k : Bytes) (rows : List Message) (row : Message)
    → row.id ≡ k
    → delete message_key k (delete message_key k rows ++ row ∷ []) ≡ delete message_key k rows
unfolding delete
delete-append k [] row e = ground (arith, eqb_iff row.id k)
delete-append k (r ∷ rows) row e = ground (arith, delete-append k rows row e)

-- A row replaces the one of its key that was written before it.
replace-replace :
    (old new : Message) (rows : List Message)
    → old.id ≡ new.id
    → replace message_key new (replace message_key old rows) ≡ replace message_key new rows
unfolding replace
replace-replace old new rows e =
    ap (λ k. delete message_key new.id (delete message_key k rows ++ old ∷ []) ++ new ∷ []) e
    ∙ ap (λ (x : List Message). x ++ new ∷ []) (delete-append new.id rows old e)

module _ (s : Store) (r : IsReliable s) where
  save_message-messages :
      (m : Message)
      → IsReliable (save_message m s).1
        × ((save_message m s).1.messages ≡ replace message_key (with_thread m) s.messages)
  unfolding save_message
  save_message-messages m =
      rw (exec-changed (on_messages (replace message_key (with_thread m))) s r) (r, refl)

module _ (u : Bytes → Bytes) (p : Primitives) (w : Wire) {D : Type 0} (dht : Dht D)
    (keys : KeyPair) where
  sent_row-subject :
      (addr subject body : Bytes) (now : ℕ) (pkt : DmailPacket) (e : Packet.Error)
      → (sent_row u p w dht keys addr subject body now pkt (err e)).id ≡ subject
  unfolding sent_row
  sent_row-subject addr subject body now pkt e = refl

  -- Where no statement fails: of two messages of one subject whose packets the sender cannot
  -- decrypt, the folder "sent" keeps the second alone: the rows are those that the second would
  -- have left without the first.
  pub send_packet-same_subject :
      (d : Daemon D) (addr1 addr2 subject body1 body2 : Bytes) (now1 now2 : ℕ)
      (pkt1 pkt2 : DmailPacket) (e1 e2 : Packet.Error)
      → IsReliable d.store
      → open_payload p w pkt1 keys.private_key ≡ err e1
      → open_payload p w pkt2 keys.private_key ≡ err e2
      → (send_packet u p w dht keys addr2 subject body2 now2 pkt2
          (send_packet u p w dht keys addr1 subject body1 now1 pkt1 d)).store.messages
        ≡ (send_packet u p w dht keys addr2 subject body2 now2 pkt2 d).store.messages
  unfolding send_packet
  send_packet-same_subject d addr1 addr2 subject body1 body2 now1 now2 pkt1 pkt2 e1 e2 r f1 f2 =
      let row1 = sent_row u p w dht keys addr1 subject body1 now1 pkt1 (err e1) in
      let row2 = sent_row u p w dht keys addr2 subject body2 now2 pkt2 (err e2) in
      let (reliable, first) = save_message-messages d.store r row1 in
      let (_, second) = save_message-messages (save_message row1 d.store).1 reliable row2 in
      let (_, alone) = save_message-messages d.store r row2 in
      let same : (with_thread row1).id ≡ (with_thread row2).id =
        with_thread-id row1
        ∙ sent_row-subject addr1 subject body1 now1 pkt1 e1
        ∙ sym (with_thread-id row2 ∙ sent_row-subject addr2 subject body2 now2 pkt2 e2) in
      rw (f1, f2)
        (second
          ∙ ap (replace message_key (with_thread row2)) first
          ∙ replace-replace (with_thread row1) (with_thread row2) d.store.messages same
          ∙ sym alone)
