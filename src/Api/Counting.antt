-- ===== src/Api/Counting.antt =====
-- The count of pending proofs of work over every interleaving of requests to a server with many
-- users, its goroutines and its polling.
use dmail.Prelude.{
  ℕ, ◌+◌, ◌≡◌, refl, ap, inl, inr, Option, none, some, List, [], ◌∷◌, ◌++◌, arith, ok, err, Result,
  Result-cases, Option-cases, Bool-cases, length, length-append,
}
use dmail.Prelude.Bytes.{Bytes, codes, eqb, has_suffix}
use dmail.Node.{Dht}
use dmail.Names.{validate_name, build_name_record}
use dmail.Auth.Sessions.{get}
use dmail.Federation.{parse_federated_address}
use dmail.MultiTenant
use dmail.MultiTenant.{Task, Server, finish_task, send_message_for_user, send_message_federated}
use dmail.MultiTenant.Inbox.{do_poll_all}
use dmail.MultiTenant.Tasks.{Step, Step-Counts}
use dmail.Api.{SendRequest}
use dmail.Api.Single.{is_incomplete}
use dmail.Api.Accounts.{authenticate}
use dmail.Api.Site.{
  Naming, Site, Request, PublicRequest, start_processing, sent_reply, resolve_in, send_resolved,
  send_here, handle_mt_send_message, start_naming, handle_mt_register_name, naming_body,
  finish_naming, finish_processing, resolve_reply, handle_mt_resolve_name,
}
use dmail.Api.Serve.{Setup, handle, require_auth, serve_public}

module _ (c : Setup) {D : Type 0} (dht : Dht D) where
  -- What happens to a site: a request behind requireAuth, a public one, the end of a goroutine of
  -- one of the three kinds, or a round of polling.
  pub data Event : Site D → Site D → Type 0 where
    asks :
        {d : Site D} (now : ℕ) (header msg_id : Bytes) (req : Request)
        → Event d (require_auth c dht now header msg_id req d).1
    asks_publicly :
        {d : Site D} (now : ℕ) (req : PublicRequest) → Event d (serve_public c dht now req d).1
    sends :
        {d : Site D} (now : ℕ) (message_id : Bytes) (random : Option Bytes)
        (before after : List Task) (task : Task)
        → d.server.tasks ≡ before ++ task ∷ after
        → Event d (record d {
          server =
              finish_task c.lower c.primitives c.wire dht c.http now message_id random before task
                after d.server;
        })
    registers :
        {d : Site D} (now : ℕ) (before after : List Naming) (n : Naming)
        → d.namings ≡ before ++ n ∷ after
        → Event d (finish_naming c.lower c.primitives c.wire dht now before n after d)
    processes :
        {d : Site D} (now : ℕ) (before after : List Bytes) (user_id : Bytes)
        → d.processing ≡ before ++ user_id ∷ after
        → Event d (finish_processing c.lower c.primitives c.wire dht now before user_id after d)
    polls :
        {d : Site D} (now : ℕ)
        → Event d
            (record d { server = (do_poll_all c.lower c.primitives c.wire dht now d.server).1 })

  pub data Events : Site D → Site D → Type 0 where
    done : {d : Site D} → Events d d
    next : {a b e : Site D} → Events a b → Event b e → Events a e

  -- pendingPoW is the number of unfinished goroutines that compute a proof of work.
  abbrev pub IsCounted : Site D → Type 0
  IsCounted d = d.server.pending_pow ≡ length d.server.tasks + length d.namings

  abbrev step :
      (d : Site D) (server : Server D)
      → Step c.lower c.primitives c.wire dht c.http d.server server
      → IsCounted d
      → IsCounted (record d { server = server })
  step d server s h =
      Step-Counts c.lower c.primitives c.wire dht c.http (length d.namings) d.server server s h

  sent_reply-IsCounted :
      (d : Site D) (sent : Result MultiTenant.Error (Unit {0})) (server : Server D)
      → IsCounted (record d { server = server })
      → IsCounted (sent_reply c.lower c.primitives c.wire dht d (sent, server)).1
  unfolding sent_reply
  sent_reply-IsCounted d (ok _) server h = h
  sent_reply-IsCounted d (err _) server h = h

  send_resolved-IsCounted :
      (now : ℕ) (msg_id v : Bytes) (req : SendRequest) (found : Result MultiTenant.Error Bytes)
      (d : Site D)
      → IsCounted d
      → IsCounted (send_resolved c.lower c.primitives c.wire dht now msg_id v req (found, d)).1
  unfolding send_resolved
  send_resolved-IsCounted now msg_id v req (err _) d h = h
  send_resolved-IsCounted now msg_id v req (ok recipient) d h =
      sent_reply-IsCounted d _ _
        (step d _ (Step.sends now msg_id v recipient req.subject req.body req.reply_to_id) h)

  send_here-IsCounted :
      (now : ℕ) (msg_id v : Bytes) (req : SendRequest) (d : Site D)
      → IsCounted d
      → IsCounted (send_here c.lower c.primitives c.wire dht now msg_id v req d).1
  unfolding send_here resolve_in
  send_here-IsCounted now msg_id v req d h =
      elim (Bool-cases (has_suffix req.recipient (codes ".dmail"))) [
        | inl named ↦ rw (named, send_here) (send_resolved-IsCounted now msg_id v req _ _ h)
        | inr plain ↦
            rw (plain, send_here) (send_resolved-IsCounted now msg_id v req (ok req.recipient) d h)
      ]

  handle_mt_send_message-IsCounted :
      (now : ℕ) (msg_id v : Bytes) (req : Option SendRequest) (d : Site D)
      → IsCounted d
      → IsCounted
          (handle_mt_send_message c.lower c.primitives c.wire dht c.http now msg_id v req d).1
  unfolding handle_mt_send_message
  handle_mt_send_message-IsCounted now msg_id v none d h = h
  handle_mt_send_message-IsCounted now msg_id v (some req) d h =
      elim (Bool-cases (is_incomplete req)) [
        | inl bad ↦ rw (bad, handle_mt_send_message) h
        | inr whole ↦ elim (Bool-cases (eqb (parse_federated_address req.recipient).0 [])) [
          | inl here ↦
              rw (whole, here, handle_mt_send_message) (send_here-IsCounted now msg_id v req d h)
          | inr away ↦
              rw (whole, away, handle_mt_send_message)
                (sent_reply-IsCounted d _ _ (
                  step d _
                    (Step.sends_federated now msg_id v _ _ req.subject req.body req.reply_to_id) h))
        ]
      ]

  handle_mt_register_name-IsCounted :
      (now : ℕ) (v : Bytes) (name : Option Bytes) (d : Site D)
      → IsCounted d
      → IsCounted (handle_mt_register_name c.lower c.primitives c.wire dht now v name d).1
  unfolding handle_mt_register_name start_naming
  handle_mt_register_name-IsCounted now v none d h = h
  handle_mt_register_name-IsCounted now v (some name) d h = elim (Bool-cases (eqb name [])) [
    | inl empty ↦ rw (empty, handle_mt_register_name) h
    | inr given ↦ elim (Option-cases (get now v d.server.sessions)) [
      | inl expired ↦ rw (given, expired, handle_mt_register_name) h
      | inr (session, live) ↦ elim (Result-cases (validate_name c.lower name)) [
        | inl (_, bad) ↦ rw (given, live, handle_mt_register_name, bad, start_naming) h
        | inr (_, good) ↦
            rw (given, live, handle_mt_register_name, good, start_naming)
              (omega (
                arith,
                length-append d.namings
                    (record { name = name; keys = MultiTenant.session_keys session } ∷ []),
              ))
      ]
    ]
  ]

  handle-IsCounted :
      (now : ℕ) (msg_id v : Bytes) (req : Request) (d : Site D)
      → IsCounted d
      → IsCounted (handle c dht now msg_id v req d).1
  unfolding handle
  handle-IsCounted now msg_id v (Request.get_unread_count folder) d h = h
  handle-IsCounted now msg_id v (Request.get_search q) d h = h
  handle-IsCounted now msg_id v (Request.get_thread_of id) d h = h
  handle-IsCounted now msg_id v (Request.get_messages folder) d h = h
  handle-IsCounted now msg_id v (Request.get_one id) d h = h
  handle-IsCounted now msg_id v (Request.post_send req) d h =
      handle_mt_send_message-IsCounted now msg_id v req d h
  handle-IsCounted now msg_id v (Request.put_read id) d h = h
  handle-IsCounted now msg_id v (Request.delete_one id) d h = h
  handle-IsCounted now msg_id v Request.get_users d h = h
  handle-IsCounted now msg_id v Request.get_contacts d h = h
  handle-IsCounted now msg_id v (Request.post_contact req) d h = h
  handle-IsCounted now msg_id v (Request.delete_contact_of pubkey) d h = h
  handle-IsCounted now msg_id v (Request.post_name name) d h =
      handle_mt_register_name-IsCounted now v name d h
  handle-IsCounted now msg_id v Request.get_names d h = h
  handle-IsCounted now msg_id v Request.get_identity d h = h

  start_processing-IsCounted :
      (user : Option Bytes) (d : Site D) → IsCounted d → IsCounted (start_processing user d)
  start_processing-IsCounted none d h = h
  start_processing-IsCounted (some v) d h = h

  resolve_reply-IsCounted :
      (name : Bytes) (found : Result MultiTenant.Error Bytes) (d : Site D)
      → IsCounted d
      → IsCounted (resolve_reply c.lower c.primitives c.wire dht name (found, d)).1
  unfolding resolve_reply
  resolve_reply-IsCounted name (ok addr) d h = h
  resolve_reply-IsCounted name (err _) d h = h

  serve_public-IsCounted :
      (now : ℕ) (req : PublicRequest) (d : Site D)
      → IsCounted d
      → IsCounted (serve_public c dht now req d).1
  unfolding serve_public handle_mt_resolve_name resolve_in
  serve_public-IsCounted now PublicRequest.preflight d h = h
  serve_public-IsCounted now (PublicRequest.post_signup req draws) d h =
      start_processing-IsCounted _ _ h
  serve_public-IsCounted now (PublicRequest.post_login req) d h = start_processing-IsCounted _ _ h
  serve_public-IsCounted now PublicRequest.get_status d h = h
  serve_public-IsCounted now PublicRequest.get_well_known d h = h
  serve_public-IsCounted now (PublicRequest.get_federation_resolve username) d h = h
  serve_public-IsCounted now (PublicRequest.post_federation_deliver content) d h =
      start_processing-IsCounted _ _ h
  serve_public-IsCounted now (PublicRequest.get_resolve asked) d h = resolve_reply-IsCounted _ _ _ h

  naming_body-same :
      (now : ℕ) (n : Naming) (d : Server D)
      → ((naming_body c.lower c.primitives c.wire dht now n d).pending_pow ≡ d.pending_pow)
        × ((naming_body c.lower c.primitives c.wire dht now n d).tasks ≡ d.tasks)
  unfolding naming_body
  naming_body-same now n d =
      elim (Result-cases (build_name_record c.lower c.primitives n.name n.keys now)) [
        | inl (_, failed) ↦ rw (failed, naming_body) (refl, refl)
        | inr (rec, built) ↦ rw (built, naming_body) (refl, refl)
      ]

  Event-IsCounted : {a b : Site D} → Event a b → IsCounted a → IsCounted b
  unfolding require_auth finish_naming finish_processing
  Event-IsCounted (asks {d} now header msg_id req) h =
      elim (Option-cases (authenticate c.ciphers c.jwt_secret now header)) [
        | inl stopped ↦ rw (stopped, require_auth) h
        | inr (v, passed) ↦ rw (passed, require_auth) (handle-IsCounted now msg_id v req d h)
      ]
  Event-IsCounted (asks_publicly {d} now req) h = serve_public-IsCounted now req d h
  Event-IsCounted (sends {d} now message_id random before after task e) h =
      step d _ (Step.finishes now message_id random before after task e) h
  Event-IsCounted (registers {d} now before after n e) h =
      let (pending, tasks) = naming_body-same now n d.server in
      omega (
        arith,
        pending,
        ap length tasks,
        ap length e,
        length-append before after,
        length-append before (n ∷ after),
      )
  Event-IsCounted (processes {d} now before after v e) h = step d _ (Step.processes now v) h
  Event-IsCounted (polls {d} now) h = step d _ (Step.polls now) h

  -- From a server that counts its proofs of work, every interleaving of requests of any kind,
  -- polling and ends of goroutines, failed ones included, leads to one whose pendingPoW is the
  -- number of the unfinished goroutines that send a message or register a name.
  pub Events-IsCounted : {a b : Site D} → Events a b → IsCounted a → IsCounted b
  Events-IsCounted done h = h
  Events-IsCounted (next before e) h = Event-IsCounted e (Events-IsCounted before h)
