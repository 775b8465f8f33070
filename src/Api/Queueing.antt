-- ===== src/Api/Queueing.antt =====
-- Sending over the API of one user: what is queued for which answer.
use dmail.Prelude.{
  ◌+◌, ◌≡◌, refl, ◌∙◌, ◌≢◌, ◌⊎◌, inl, inr, true, false, Option, none, some, [], ◌∷◌, ◌++◌, arith,
  ok, err, Result, Result-cases, Bool-cases,
}
use dmail.Prelude.Bytes.{Bytes, codes, eqb_iff, has_suffix}
use dmail.Pb.{Wire}
use dmail.Crypto.{Primitives}
use dmail.Crypto.Keys.{KeyPair, pub_key_from_address}
use dmail.Node
use dmail.Node.{Dht}
use dmail.Store
use dmail.Store.{Message, NameEntry, Tables, Store, exec, query}
use dmail.Store.Single.{get_name, save_name}
use dmail.Daemon
use dmail.Daemon.{Daemon, send_message, resolve, resolve_cached, resolve_remote}
use dmail.Daemon.Jobs.{Service, sending, start_sending}
use dmail.Api.{SendRequest, Reply, write_json, write_error, accepted}
use dmail.Api.Single.{is_incomplete, or_400, send_resolved, resolve_in, handle_send_message}

module _ (u : Bytes → Bytes) (p : Primitives) (w : Wire) {D : Type 0} (dht : Dht D)
    (keys : KeyPair) where
  save_name-messages : (n : NameEntry) (s : Store) → (save_name n s).1.messages ≡ s.messages
  unfolding save_name exec
  save_name-messages n s = ground arith

  get_name-messages : (name : Bytes) (s : Store) → (get_name name s).1.messages ≡ s.messages
  unfolding get_name query
  get_name-messages name s = ground arith

  resolve_remote-messages :
      (name : Bytes) (net : D) (s : Store)
      → (resolve_remote u p w dht keys name net s).1.messages ≡ s.messages
  unfolding resolve_remote
  resolve_remote-messages name net s = elim (Result-cases (Node.resolve_name u p w dht net name)) [
    | inl (_, bad) ↦ rw (bad, resolve_remote)
    | inr (rec, good) ↦ rw (good, resolve_remote) (save_name-messages _ s)
  ]

  resolve_cached-messages :
      (name : Bytes) (net : D) (cached : Result Store.Error (Option NameEntry)) (s : Store)
      → (resolve_cached u p w dht keys name net (cached, s)).1.messages ≡ s.messages
  unfolding resolve_cached
  resolve_cached-messages name net (err _) s = refl
  resolve_cached-messages name net (ok (some entry)) s = refl
  resolve_cached-messages name net (ok none) s = resolve_remote-messages name net s

  resolve-messages :
      (asked : Bytes) (net : D) (s : Store)
      → (resolve u p w dht keys asked net s).1.messages ≡ s.messages
  unfolding resolve
  resolve-messages asked net s = resolve_cached-messages _ net _ _ ∙ get_name-messages _ s

  module _ (d : Service D) where
    -- The address that a request is sent to: the recipient, or what its name resolves to.
    abbrev pub GoesTo : SendRequest → Bytes → Type 0
    GoesTo m addr =
        ((has_suffix m.recipient (codes ".dmail") ≡ false) × (addr ≡ m.recipient))
        ⊎ ((has_suffix m.recipient (codes ".dmail") ≡ true)
            × ((resolve u p w dht keys m.recipient d.daemon.network d.daemon.store).0 ≡ ok addr))

    pub data Sent (req : Option SendRequest) (answer : Reply × Service D) : Type 0 where
      queued :
          (m : SendRequest) (addr key : Bytes)
          → req ≡ some m
          → m.recipient ≢ []
          → m.subject ≢ []
          → GoesTo m addr
          → pub_key_from_address p addr ≡ ok key
          → answer.0 ≡ write_json 202 accepted
          → answer.1.jobs ≡ d.jobs ++ sending addr key m.subject m.body m.reply_to_id ∷ []
          → answer.1.pending_pow ≡ d.pending_pow + 1
          → answer.1.daemon.store.messages ≡ d.daemon.store.messages
          → Sent req answer
      refused :
          answer.0 ≡ write_error 400
          → answer.1.jobs ≡ d.jobs
          → answer.1.pending_pow ≡ d.pending_pow
          → answer.1.daemon.store.messages ≡ d.daemon.store.messages
          → Sent req answer

    send_resolved-Sent :
        (m : SendRequest) (found : Result Daemon.Error Bytes) (d' : Service D)
        → is_incomplete m ≡ false
        → ((addr : Bytes) → found ≡ ok addr → GoesTo m addr)
        → d'.jobs ≡ d.jobs
        → d'.pending_pow ≡ d.pending_pow
        → d'.daemon.store.messages ≡ d.daemon.store.messages
        → Sent (some m) (send_resolved u p w dht keys m (found, d'))
    unfolding send_resolved is_incomplete or_400 start_sending send_message
    send_resolved-Sent m (err _) d' whole goes ej ep em = refused refl ej ep em
    send_resolved-Sent m (ok addr) d' whole goes ej ep em =
        elim (Result-cases (pub_key_from_address p addr)) [
          | inl (_, bad) ↦ rw (bad, start_sending, send_message) (refused refl ej ep em)
          | inr (key, good) ↦
              rw (good, start_sending, send_message)
                (queued m addr key refl (λ e. ground (arith, eqb_iff m.recipient []))
                  (λ e. ground (arith, eqb_iff m.subject [])) (goes addr refl) good refl (rw ej)
                  (rw ep) em)
        ]

    -- A request to send is answered 202 only if it has a recipient and a subject and the recipient,
    -- or the address that its name resolves to, is an address: then one proof of work is started,
    -- for that address and with the request's texts. All else is answered 400, and starts nothing.
    -- In both cases the messages of the store are what they were.
    pub handle_send_message-Sent :
        (req : Option SendRequest) → Sent req (handle_send_message u p w dht keys req d)
    unfolding handle_send_message resolve_in
    handle_send_message-Sent none = refused refl refl refl refl
    handle_send_message-Sent (some m) = elim (Bool-cases (is_incomplete m)) [
      | inl bad ↦ rw (bad, handle_send_message) (refused refl refl refl refl)
      | inr whole ↦ elim (Bool-cases (has_suffix m.recipient (codes ".dmail"))) [
        | inl named ↦
            rw (whole, named, handle_send_message)
              (send_resolved-Sent m
                (resolve u p w dht keys m.recipient d.daemon.network d.daemon.store).0 _ whole
                (λ addr e. inr (named, e)) refl refl
                (resolve-messages m.recipient d.daemon.network d.daemon.store))
        | inr plain ↦
            rw (whole, plain, handle_send_message)
              (send_resolved-Sent m (ok m.recipient) d whole (λ addr e. inl (plain, cc)) refl refl
                refl)
      ]
    ]
