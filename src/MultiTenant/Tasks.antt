-- ===== src/MultiTenant/Tasks.antt =====
-- The count of pending proofs of work under every interleaving of requests and goroutines.
use dmail.Prelude.{
  ℕ, ◌+◌, ◌≡◌, refl, ap, inl, inr, Option, none, some, List, [], ◌∷◌, ◌++◌, arith, Option-cases,
  length, length-append, Result, ok, err, Result-cases,
}
use dmail.Prelude.Bytes.{Bytes}
use dmail.Pb.{DmailPacket, Wire}
use dmail.Crypto.{Primitives}
use dmail.Store
use dmail.Store.{Message, User, Store}
use dmail.Node
use dmail.Node.{Dht}
use dmail.Federation.{Http, resolve_via_federation}
use dmail.Crypto.Keys.{address, pub_key_from_address}
use dmail.Auth.Sessions.{CachedSession, get}
use dmail.Store.Multi.{get_user_by_pubkey, save_message_for_user}
use dmail.MultiTenant.{
  Task, Server, sent_message, start_task, route, send_from, send_message_for_user,
  send_federated_from, send_message_federated, push_packet, deliver_packet, send_packet, task_body,
  finish_task,
}
use dmail.MultiTenant.Inbox.{process_pending_packets, do_poll_all}

module _ (u : Bytes → Bytes) (p : Primitives) (w : Wire) {D : Type 0} (dht : Dht D) (h : Http) where
  -- What happens to a server: a request, the end of one of its goroutines, or a round of polling.
  pub data Step : Server D → Server D → Type 0 where
    sends :
        {d : Server D} (now : ℕ) (msg_id user_id addr subject body reply_to_id : Bytes)
        → Step d
            (send_message_for_user u p w dht now msg_id user_id addr subject body reply_to_id d).1
    sends_federated :
        {d : Server D} (now : ℕ) (msg_id user_id username host subject body reply_to_id : Bytes)
        → Step d
            (send_message_federated u p w dht h now msg_id user_id username host subject body
              reply_to_id d).1
    finishes :
        {d : Server D} (now : ℕ) (message_id : Bytes) (random : Option Bytes)
        (before after : List Task) (task : Task)
        → d.tasks ≡ before ++ task ∷ after
        → Step d (finish_task u p w dht h now message_id random before task after d)
    processes :
        {d : Server D} (now : ℕ) (user_id : Bytes)
        → Step d (process_pending_packets u p w dht now user_id d)
    polls : {d : Server D} (now : ℕ) → Step d (do_poll_all u p w dht now d).1

  pub data Steps : Server D → Server D → Type 0 where
    done : {d : Server D} → Steps d d
    next : {a b c : Server D} → Steps a b → Step b c → Steps a c

  module _ (n : ℕ) where
    -- The count is that of the unfinished goroutines, and `n` of other kinds.
    abbrev pub Counts : Server D → Type 0
    Counts d = d.pending_pow ≡ length d.tasks + n

    start_task-Counts :
        (task : Task) (s : Store) (d : Server D) → Counts d → Counts (start_task task s d)
    start_task-Counts task s d c = omega (arith, length-append d.tasks (task ∷ []))

    route-Counts :
        (task : Task) (inbox : Message) (found : Result Store.Error (Option User)) (s : Store)
        (d : Server D)
        → Counts d
        → Counts (route u p w dht task inbox (found, s) d).1
    unfolding route
    route-Counts task inbox (ok (some recipient)) s d c = c
    route-Counts task inbox (ok none) s d c = start_task-Counts task s d c
    route-Counts task inbox (err _) s d c = c

    push_packet-pending_pow :
        (t : Task) (r : Result Node.Error (Unit {0}) × D) (d : Server D)
        → (push_packet u p w dht h t r d).pending_pow ≡ d.pending_pow
    unfolding push_packet
    push_packet-pending_pow t (ok _, net) d = refl
    push_packet-pending_pow t (err _, net) d = refl

    send_packet-pending_pow :
        (t : Task) (host : Option Bytes) (pkt : DmailPacket) (d : Server D)
        → (send_packet u p w dht h t host pkt d).pending_pow ≡ d.pending_pow
    unfolding send_packet deliver_packet
    send_packet-pending_pow t none pkt d = push_packet-pending_pow t _ d
    send_packet-pending_pow t (some host) pkt d =
        ground (arith, push_packet-pending_pow t (Node.push u p w dht d.network pkt) d)

    -- No branch of a goroutine's body touches the count.
    task_body-pending_pow :
        (now : ℕ) (message_id : Bytes) (random : Option Bytes) (t : Task) (d : Server D)
        → (task_body u p w dht h now message_id random t d).pending_pow ≡ d.pending_pow
    unfolding task_body
    task_body-pending_pow now message_id random t d =
        let sent = λ (pkt : DmailPacket). send_packet-pending_pow t t.host pkt d in
        ground (arith, sent)

    finish_task-Counts :
        (now : ℕ) (message_id : Bytes) (random : Option Bytes) (before after : List Task)
        (task : Task) (d : Server D)
        → d.tasks ≡ before ++ task ∷ after
        → Counts d
        → Counts (finish_task u p w dht h now message_id random before task after d)
    unfolding finish_task
    finish_task-Counts now message_id random before after task d e c = omega (
      arith,
      task_body-pending_pow now message_id random task d,
      length-append before after,
      length-append before (task ∷ after),
      ap length e,
    )

    send_from-Counts :
        (now : ℕ) (msg_id user_id addr subject body reply_to_id : Bytes) (c : CachedSession)
        (key : Bytes) (d : Server D)
        → Counts d
        → Counts (send_from u p w dht now msg_id user_id addr subject body reply_to_id c key d).1
    unfolding send_from
    send_from-Counts now msg_id user_id addr subject body reply_to_id c key d counted =
        let sent = sent_message now msg_id (address p c.public_key) addr subject body reply_to_id in
        let found = get_user_by_pubkey addr (save_message_for_user user_id sent d.store).1 in
        route-Counts _ _ found.0 found.1 d counted

    send_federated_from-Counts :
        (now : ℕ) (msg_id user_id addr host subject body reply_to_id : Bytes) (c : CachedSession)
        (key : Bytes) (d : Server D)
        → Counts d
        → Counts (
            send_federated_from u p w dht h now msg_id user_id addr host subject body reply_to_id c
              key d)
    unfolding send_federated_from
    send_federated_from-Counts now msg_id user_id addr host subject body reply_to_id c key d
          counted =
        let sent = sent_message now msg_id (address p c.public_key) addr subject body reply_to_id in
        start_task-Counts _ (save_message_for_user user_id sent d.store).1 d counted

    pub Step-Counts : (a b : Server D) → Step a b → Counts a → Counts b
    unfolding send_message_for_user send_message_federated process_pending_packets do_poll_all
    Step-Counts a b (sends now msg_id user_id addr subject body reply_to_id) c =
        elim (Option-cases (get now user_id a.sessions)) [
          | inl expired ↦ rw (expired, send_message_for_user) c
          | inr (s, live) ↦
              rw (live, send_message_for_user)
                (elim (Result-cases (pub_key_from_address p addr)) [
                  | inl (_, bad) ↦ rw bad c
                  | inr (key, good) ↦
                      rw good (
                        send_from-Counts now msg_id user_id addr subject body reply_to_id s key a c)
                ])
        ]
    Step-Counts a b (sends_federated now msg_id user_id username host subject body reply_to_id) c =
        elim (Option-cases (get now user_id a.sessions)) [
          | inl expired ↦ rw (expired, send_message_federated) c
          | inr (s, live) ↦
              rw (live, send_message_federated)
                (elim (Result-cases (resolve_via_federation h username host)) [
                  | inl (_, lost) ↦ rw lost c
                  | inr (addr, found) ↦
                      rw found (elim (Result-cases (pub_key_from_address p addr)) [
                        | inl (_, bad) ↦ rw bad c
                        | inr (key, good) ↦ rw good (
                            send_federated_from-Counts now msg_id user_id addr host subject body
                              reply_to_id s key a c)
                      ])
                ])
        ]
    Step-Counts a b (finishes now message_id random before after task e) c =
        finish_task-Counts now message_id random before after task a e c
    Step-Counts a b (processes now user_id) c = ground arith
    Step-Counts a b (polls now) c = ground arith

  abbrev pub IsCounted : Server D → Type 0
  IsCounted d = d.pending_pow ≡ length d.tasks

  -- From a server that counts its goroutines, every interleaving of requests, polling and ends of
  -- goroutines, failed ones included, leads to one whose pendingPoW is the number of its unfinished
  -- goroutines.
  pub Steps-IsCounted : (a b : Server D) → Steps a b → IsCounted a → IsCounted b
  Steps-IsCounted a b done c = c
  Steps-IsCounted a b (next {b = m} before step) c =
      let at : Counts 0 m = omega (arith, Steps-IsCounted a m before c) in
      omega (arith, Step-Counts 0 m b step at)
