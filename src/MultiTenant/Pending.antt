-- ===== src/MultiTenant/Pending.antt =====
-- The packets that wait for a user are all taken when the user comes.
use mathlib.Core.Path.{subst}
use dmail.Prelude.{
  ℕ, ◌≡◌, refl, sym, ap, ◌∙◌, ◌⊎◌, inl, inr, Bool, true, false, ◌&&◌, ◌||◌, not, some, List, [],
  ◌∷◌, map, arith, leb, ◌==◌, if◌then◌else◌, ==_iff, Bool-cases, filter, any, All, Result, ok,
  Result-cases,
}
use dmail.Prelude.Bytes.{Bytes, eqb}
use dmail.Pb.{Wire}
use dmail.Crypto.{Primitives}
use dmail.Sql.{insert_row, order_by}
use dmail.Node.{Dht}
use dmail.Sql.{replace}
use dmail.Crypto.Keys.{address}
use dmail.Packet.{decrypt_raw}
use dmail.Store.Integrity.{message_key}
use dmail.Store.Tenants.{row_of}
use dmail.Store.{Error, Message, PendingPacket, Store}
use dmail.Store.Multi.{get_pending_packets, mark_packet_processed, save_message_for_user}
use dmail.Store.Messages.{IsReliable, changed, on_messages, exec-changed, query-read}
use dmail.Auth.Sessions.{CachedSession, get}
use dmail.MultiTenant.{Server}
use dmail.MultiTenant.Inbox.{
  received_message, process_packet, process_packets, process_pending_packets,
}

abbrev mark : ℕ → PendingPacket → PendingPacket
mark id r = if r.id == id then record r { processed = true } else r

-- The rows after a list of packets was marked.
abbrev marks : List PendingPacket → List PendingPacket → List PendingPacket
marks [] rows = rows
marks (q ∷ qs) rows = marks qs (map (mark q.id) rows)

abbrev pub waits : Bytes → PendingPacket → Bool
waits user r = eqb r.user_id user && not r.processed

-- A row that does not wait, or that is to be marked.
abbrev Taken : Bytes → List PendingPacket → PendingPacket → Type 0
Taken user qs r = (waits user r ≡ false) ⊎ (any (λ q. r.id == q.id) qs ≡ true)

mark-Taken :
    (user : Bytes) (q : PendingPacket) (qs rows : List PendingPacket)
    → All (Taken user (q ∷ qs)) rows
    → All (Taken user qs) (map (mark q.id) rows)
mark-Taken user q qs [] h = tt
mark-Taken user q qs (r ∷ rows) (taken, rest) =
    (ground (arith, taken), mark-Taken user q qs rows rest)

marks-Taken :
    (user : Bytes) (qs rows : List PendingPacket)
    → All (Taken user qs) rows
    → filter (waits user) (marks qs rows) ≡ []
marks-Taken user [] [] h = refl
marks-Taken user [] (r ∷ rows) (inl idle, rest) = rw idle (marks-Taken user [] rows rest)
marks-Taken user [] (r ∷ rows) (inr listed, rest) = cc
marks-Taken user (q ∷ qs) rows h =
    marks-Taken user qs (map (mark q.id) rows) (mark-Taken user q qs rows h)

any-insert_row :
    (test : PendingPacket → Bool) (first : PendingPacket → PendingPacket → Bool) (r : PendingPacket)
    (rows : List PendingPacket)
    → any test (insert_row first r rows) ≡ (test r || any test rows)
unfolding insert_row
any-insert_row test first r [] = refl
any-insert_row test first r (x ∷ rows) = ground (arith, any-insert_row test first r rows)

any-order_by :
    (test : PendingPacket → Bool) (first : PendingPacket → PendingPacket → Bool)
    (rows : List PendingPacket)
    → any test (order_by first rows) ≡ any test rows
unfolding order_by
any-order_by test first [] = refl
any-order_by test first (r ∷ rows) =
    any-insert_row test first r (order_by first rows)
    ∙ ap (λ b. test r || b) (any-order_by test first rows)

Taken-more :
    (user : Bytes) (q : PendingPacket) (qs rows : List PendingPacket)
    → All (Taken user qs) rows
    → All (Taken user (q ∷ qs)) rows
Taken-more user q qs [] h = tt
Taken-more user q qs (r ∷ rows) (taken, rest) =
    (ground (arith, taken), Taken-more user q qs rows rest)

Taken-filter :
    (user : Bytes) (rows : List PendingPacket) → All (Taken user (filter (waits user) rows)) rows
Taken-filter user [] = tt
Taken-filter user (r ∷ rows) = elim (Bool-cases (waits user r)) [
  | inl waiting ↦
      let rest = filter (waits user) rows in
      let kept : filter (waits user) (r ∷ rows) ≡ r ∷ rest = rw waiting in
      let named : any (λ q. r.id == q.id) (r ∷ rest) ≡ true = ground (arith, ==_iff r.id r.id) in
      subst (λ qs. All (Taken user qs) (r ∷ rows)) (sym kept)
        (inr named, Taken-more user r rest rows (Taken-filter user rows))
  | inr idle ↦
      let dropped : filter (waits user) (r ∷ rows) ≡ filter (waits user) rows = rw idle in
      subst (λ qs. All (Taken user qs) (r ∷ rows)) (sym dropped) (inl idle, Taken-filter user rows)
]

-- The packets are read in the order of their arrival.
Taken-order_by :
    (user : Bytes) (first : PendingPacket → PendingPacket → Bool) (qs rows : List PendingPacket)
    → All (Taken user qs) rows
    → All (Taken user (order_by first qs)) rows
Taken-order_by user first qs [] h = tt
Taken-order_by user first qs (r ∷ rows) (taken, rest) = (
  ground (arith, taken, any-order_by (λ q. r.id == q.id) first qs),
  Taken-order_by user first qs rows rest,
)

mark_packet_processed-mark :
    (id : ℕ) (s : Store)
    → IsReliable s
    → IsReliable (mark_packet_processed id s).1
      × ((mark_packet_processed id s).1.pending_packets ≡ map (mark id) s.pending_packets)
unfolding mark_packet_processed
mark_packet_processed-mark id s r =
    rw (exec-changed (λ t. record t { pending_packets = map (mark id) t.pending_packets }) s r)
      (r, refl)

save_message_for_user-pending :
    (user : Bytes) (m : Message) (s : Store)
    → IsReliable s
    → IsReliable (save_message_for_user user m s).1
      × ((save_message_for_user user m s).1.pending_packets ≡ s.pending_packets)
unfolding save_message_for_user
save_message_for_user-pending user m s r =
    rw (exec-changed (on_messages (replace message_key (row_of user m))) s r) (r, refl)

module _ (u : Bytes → Bytes) (p : Primitives) (w : Wire) {D : Type 0} (dht : Dht D) (user : Bytes)
    (session : CachedSession) where
  process_packet-mark :
      (packet : PendingPacket) (s : Store)
      → IsReliable s
      → IsReliable (process_packet u p w dht user session packet s)
        × ((process_packet u p w dht user session packet s).pending_packets
            ≡ map (mark packet.id) s.pending_packets)
  unfolding process_packet
  process_packet-mark packet s r =
      let Marked = λ (x : Store).
        IsReliable x × (x.pending_packets ≡ map (mark packet.id) s.pending_packets) in
      elim (Result-cases (decrypt_raw p w packet.raw_data session.private_key)) [
        | inl (_, bad) ↦
            let same : process_packet u p w dht user session packet s
                ≡ (mark_packet_processed packet.id s).1 =
              ground (arith, bad) in
            subst Marked (sym same) (mark_packet_processed-mark packet.id s r)
        | inr (payload, good) ↦
            let m = received_message u p w dht (address p session.public_key) packet payload in
            let saved = (save_message_for_user user m s).1 in
            let (reliable, kept) = save_message_for_user-pending user m s r in
            let same : process_packet u p w dht user session packet s
                ≡ (mark_packet_processed packet.id saved).1 =
              ground (arith, good) in
            let (still, marked) = mark_packet_processed-mark packet.id saved reliable in
            subst Marked (sym same) (still, marked ∙ ap (map (mark packet.id)) kept)
      ]

  process_packets-marks :
      (packets : List PendingPacket) (s : Store)
      → IsReliable s
      → IsReliable (process_packets u p w dht user session packets s)
        × ((process_packets u p w dht user session packets s).pending_packets
            ≡ marks packets s.pending_packets)
  unfolding process_packets
  process_packets-marks [] s r = (r, refl)
  process_packets-marks (packet ∷ packets) s r =
      let (reliable, marked) = process_packet-mark packet s r in
      let (all_reliable, all_marked) =
        process_packets-marks packets (process_packet u p w dht user session packet s) reliable in
      (all_reliable, all_marked ∙ ap (marks packets) marked)

-- Where no statement fails: a user with a live session has no packet that waits after
-- ProcessPendingPackets, whether the packets could be decrypted or not.
pub process_pending_packets-none_left :
    (u : Bytes → Bytes) (p : Primitives) (w : Wire) {D : Type 0} (dht : Dht D) (now : ℕ)
    (user : Bytes) (d : Server D) (session : CachedSession)
    → IsReliable d.store
    → get now user d.sessions ≡ some session
    → (get_pending_packets user (process_pending_packets u p w dht now user d).store).0 ≡ ok []
unfolding process_pending_packets get_pending_packets order_by
process_pending_packets-none_left u p w dht now user d session r live =
    let first = λ (a b : PendingPacket). leb a.received_at b.received_at in
    let rows = d.store.pending_packets in
    let waiting = order_by first (filter (waits user) rows) in
    let read : get_pending_packets user d.store ≡ (ok waiting, changed (λ t. t) d.store) =
      query-read (λ t. order_by first (filter (waits user) t.pending_packets)) d.store r in
    let final = process_packets u p w dht user session waiting (changed (λ t. t) d.store) in
    let (reliable, marked) =
      process_packets-marks u p w dht user session waiting (changed (λ t. t) d.store) r in
    let same : (process_pending_packets u p w dht now user d).store ≡ final =
      ground (arith, live, read) in
    let clear : filter (waits user) final.pending_packets ≡ [] =
      ap (filter (waits user)) marked
      ∙ marks-Taken user waiting rows
          (Taken-order_by user first (filter (waits user) rows) rows (Taken-filter user rows)) in
    ap (λ x. (get_pending_packets user x).0) same
    ∙ ap (λ (x : Result Error (List PendingPacket) × Store). x.0)
        (query-read (λ t. order_by first (filter (waits user) t.pending_packets)) final reliable)
    ∙ ap (λ qs. ok (order_by first qs)) clear
