-- ===== src/Start/Fetching.antt =====
-- Whom a poll of pkg/daemon/multi_tenant.go fetches mail for.
use mathlib.Core.Path.{subst}
use dmail.Prelude.{
  ◌≢◌, err, Result-cases, Option-cases, ℕ, ◌≡◌, refl, sym, ap, ◌∙◌, inl, inr, Bool, true, ◌&&◌,
  ◌||◌, not, some, List, [], ◌∷◌, ◌++◌, map, arith, Bool-cases, any, ok,
}
use dmail.Prelude.Bytes.{Bytes, eqb, eqb_iff, eqb_refl}
use dmail.Pb.{Wire}
use dmail.Crypto.{Primitives}
use dmail.Crypto.Keys.{address, pub_key_from_address}
use dmail.Packet
use dmail.Packet.{unmarshal_and_verify}
use dmail.Sql.{insert_row, order_by}
use dmail.Node.{Dht, packet_key}
use dmail.Store.{User, Tables, Store}
use dmail.Store.Multi.{listed, listing}
use dmail.Store.Messages.{IsReliable, changed}
use dmail.MultiTenant.{Server, owner_of}
use dmail.MultiTenant.Inbox.{
  keep_packet, poll_user, poll_users, do_poll_all, sender_of, sender_unless,
}
use dmail.Start.Growth.{
  IsGrown, After-users, poll_user-After, poll_users-After, keep_packet-some, keep_packet-none,
}
use dmail.Start.Polling.{Tick, poll_tick, cleanup_tick, on_tick, on_ticks, poll_loop_all}
use dmail.Start.Ticks.{polled_all, on_ticks-After}

any-insert_row :
    {A : Type 0} (first : A → A → Bool) (f : A → Bool) (x : A) (rows : List A)
    → any f (insert_row first x rows) ≡ (f x || any f rows)
unfolding insert_row
any-insert_row first f x [] = refl
any-insert_row first f x (y ∷ rows) = ground (arith, any-insert_row first f x rows)

any-order_by :
    {A : Type 0} (first : A → A → Bool) (f : A → Bool) (rows : List A)
    → any f (order_by first rows) ≡ any f rows
unfolding order_by
any-order_by first f [] = refl
any-order_by first f (x ∷ rows) =
    any-insert_row first f x (order_by first rows) ∙ ap (λ b. f x || b) (any-order_by first f rows)

any-append :
    {A : Type 0} (f : A → Bool) (xs ys : List A) → any f xs ≡ true → any f (xs ++ ys) ≡ true
any-append f [] ys e = cc
any-append f (x ∷ xs) ys e = ground (arith, any-append f xs ys)

any-last :
    {A : Type 0} (f : A → Bool) (xs : List A) (x : A) → f x ≡ true → any f (xs ++ x ∷ []) ≡ true
any-last f [] x e = rw e refl
any-last f (y ∷ xs) x e = ground (arith, any-last f xs x e)

owner_of-listed :
    (addr : Bytes) (rows : List User) (x : User)
    → owner_of addr (map listed rows) ≡ some x
    → any (λ r. eqb r.pubkey addr) rows ≡ true
unfolding owner_of
owner_of-listed addr [] x e = cc
owner_of-listed addr (r ∷ rows) x e = ground (arith, owner_of-listed addr rows x)

any-pubkeys :
    (addr : Bytes) (rows : List User)
    → any (λ a. eqb a addr) (map (λ r. r.pubkey) rows) ≡ any (λ r. eqb r.pubkey addr) rows
any-pubkeys addr [] = refl
any-pubkeys addr (r ∷ rows) = ap (λ b. eqb r.pubkey addr || b) (any-pubkeys addr rows)

-- An unprocessed packet with this content waits for the user.
abbrev pub Waits : Bytes → Bytes → Tables → Type 0
Waits id content t =
    any (λ q. eqb q.user_id id && (eqb q.raw_data content && not q.processed)) t.pending_packets
    ≡ true

module _ (u : Bytes → Bytes) (p : Primitives) (w : Wire) {D : Type 0} (dht : Dht D) where
  -- The checks of what the DHT has do not panic at any time.
  abbrev pub IsCalm : D → Type 0
  IsCalm net =
      (t : ℕ) (k value : Bytes)
      → dht.get_value net k ≡ some value
      → unmarshal_and_verify p w t value ≢ err Packet.panicked

  sender_unless-calm :
      (e : Packet.Error) → e ≢ Packet.panicked → sender_unless u p w dht e ≡ some []
  sender_unless-calm Packet.panicked h = absurd (h refl)
  sender_unless-calm _ h = refl

  sender_of-calm :
      (net : D) (now : ℕ) (k value : Bytes)
      → IsCalm net
      → dht.get_value net k ≡ some value
      → (sender : Bytes) × (sender_of u p w dht now value ≡ some sender)
  unfolding sender_of
  sender_of-calm net now k value calm found =
      elim (Result-cases (unmarshal_and_verify p w now value)) [
        | inl (e, bad) ↦ (
          [],
          rw (sender_of, bad)
              (sender_unless-calm e (λ same. calm now k value found (bad ∙ ap err same))),
        )
        | inr (pkt, good) ↦ (address p pkt.sender_pubkey, rw (sender_of, good) refl)
      ]

module _ (u : Bytes → Bytes) (p : Primitives) (w : Wire) {D : Type 0} (dht : Dht D) (net : D)
    (users : List User) (calm : IsCalm u p w dht net) where
  poll_user-runs :
      (now : ℕ) (addr : Bytes) (s : Store)
      → IsReliable s
      → s.users ≡ users
      → (poll_user u p w dht now net addr s).0 ≡ true
  unfolding poll_user
  poll_user-runs now addr s r known = elim (Result-cases (pub_key_from_address p addr)) [
    | inl (e, bad) ↦ ground (arith, bad)
    | inr (key, keyed) ↦ elim (Option-cases (dht.get_value net (packet_key u p w key))) [
      | inl nothing ↦ ground (arith, keyed, nothing)
      | inr (content, found) ↦
          let kept : poll_user u p w dht now net addr s ≡ keep_packet u p w dht now addr content s =
            ground (arith, keyed, found) in
          elim (Option-cases (owner_of addr (listing users))) [
            | inl absent ↦
                ap (λ (x : Bool × Store). x.0)
                  (kept ∙ keep_packet-none u p w dht net users now addr content s r known absent)
            | inr (x, e) ↦
                let (sender, es) = sender_of-calm u p w dht net now _ content calm found in
                ap (λ (x : Bool × Store). x.0)
                  (kept
                    ∙ keep_packet-some u p w dht net users now addr content s r known x sender e es)
          ]
    ]
  ]

  poll_users-runs :
      (now : ℕ) (addrs : List Bytes) (s : Store)
      → IsReliable s
      → s.users ≡ users
      → (poll_users u p w dht now net addrs s).0 ≡ true
  unfolding poll_users
  poll_users-runs now [] s r known = refl
  poll_users-runs now (addr ∷ addrs) s r known =
      let once = (poll_user u p w dht now net addr s).1 in
      let step = poll_user-After u p w dht net users now addr s r known in
      rw (poll_user-runs now addr s r known) (
        poll_users-runs now addrs once step.0 (After-users u p w dht net users s once step ∙ known))

  on_ticks-runs :
      (ticks : List Tick) (d : Server D)
      → d.network ≡ net
      → IsReliable d.store
      → d.store.users ≡ users
      → (on_ticks u p w dht ticks d).0 ≡ true
  unfolding on_ticks on_tick
  on_ticks-runs [] d at r known = refl
  on_ticks-runs (cleanup_tick now ∷ ticks) d at r known = on_ticks-runs ticks _ at r known
  on_ticks-runs (poll_tick now ∷ ticks) d at r known =
      let start = changed (λ t. t) d.store in
      let addrs = map (λ x. x.pubkey) d.store.users in
      let polled = poll_users u p w dht now net addrs start in
      let step = poll_users-After u p w dht net users now addrs start r known in
      let runs : do_poll_all u p w dht now d ≡ (true, record d { store = polled.1 }) =
        polled_all u p w dht net users now d r
        ∙ ap
            (λ n. let y = poll_users u p w dht now n addrs start in (y.0, record d { store = y.1 }))
            at
        ∙ ap (λ b. (b, record d { store = polled.1 })) (poll_users-runs now addrs start r known) in
      rw runs (
        on_ticks-runs ticks (record d { store = polled.1 }) at step.0
          (After-users u p w dht net users start polled.1 step ∙ known))

  module _ (owner : User) (key content : Bytes)
      (owned : owner_of owner.pubkey (listing users) ≡ some owner)
      (keyed : pub_key_from_address p owner.pubkey ≡ ok key)
      (found : dht.get_value net (packet_key u p w key) ≡ some content) where
    Waits-grown :
        (t t' : Tables)
        → IsGrown u p w dht net users t t'
        → Waits owner.id content t
        → Waits owner.id content t'
    Waits-grown t t' g e =
        ap
          (λ (x : Tables).
            any (λ q. eqb q.user_id owner.id && (eqb q.raw_data content && not q.processed))
              x.pending_packets)
          g.grown
        ∙ any-append _ t.pending_packets g.packets e

    poll_user-Waits :
        (now : ℕ) (s : Store)
        → IsReliable s
        → s.users ≡ users
        → Waits owner.id content (poll_user u p w dht now net owner.pubkey s).1.tables
    unfolding poll_user
    poll_user-Waits now s r known =
        let kept : poll_user u p w dht now net owner.pubkey s
            ≡ keep_packet u p w dht now owner.pubkey content s =
          ground (arith, keyed, found) in
        let (sender, es) = sender_of-calm u p w dht net now _ content calm found in
        rw
          (
            kept,
            keep_packet-some u p w dht net users now owner.pubkey content s r known owner sender
                owned es,
          )
          (any-last _ s.pending_packets _ (rw (eqb_refl owner.id, eqb_refl content) refl))

    poll_users-Waits :
        (now : ℕ) (addrs : List Bytes) (s : Store)
        → IsReliable s
        → s.users ≡ users
        → any (λ a. eqb a owner.pubkey) addrs ≡ true
        → Waits owner.id content (poll_users u p w dht now net addrs s).1.tables
    unfolding poll_users
    poll_users-Waits now [] s r known e = cc
    poll_users-Waits now (addr ∷ addrs) s r known e =
        let once = (poll_user u p w dht now net addr s).1 in
        let step = poll_user-After u p w dht net users now addr s r known in
        let same : once.users ≡ users = After-users u p w dht net users s once step ∙ known in
        rw (poll_user-runs now addr s r known) (elim (Bool-cases (eqb addr owner.pubkey)) [
          | inl here ↦
              Waits-grown once.tables (poll_users u p w dht now net addrs once).1.tables
                (poll_users-After u p w dht net users now addrs once step.0 same).1
                (subst (λ a. Waits owner.id content (poll_user u p w dht now net a s).1.tables)
                  (sym ((eqb_iff addr owner.pubkey).0 here)) (poll_user-Waits now s r known))
          | inr there ↦ poll_users-Waits now addrs once step.0 same (ground (arith, e, there))
        ])

module _ (u : Bytes → Bytes) (p : Primitives) (w : Wire) {D : Type 0} (dht : Dht D) where
  -- Where no statement fails and the checks of what the DHT has never panic: if the DHT has something
  -- at the key of a user's address, and the user is the first in the listing with that address, then
  -- the server's loop, with its first poll and over any ticks, goes on, and leaves it waiting for that
  -- user, unprocessed.
  pub poll_loop_all-Waits :
      (now : ℕ) (ticks : List Tick) (d : Server D) (owner : User) (key content : Bytes)
      → IsReliable d.store
      → IsCalm u p w dht d.network
      → owner_of owner.pubkey (listing d.store.users) ≡ some owner
      → pub_key_from_address p owner.pubkey ≡ ok key
      → dht.get_value d.network (packet_key u p w key) ≡ some content
      → ((poll_loop_all u p w dht now ticks d).0 ≡ true)
        × Waits owner.id content (poll_loop_all u p w dht now ticks d).1.store.tables
  unfolding poll_loop_all
  poll_loop_all-Waits now ticks d owner key content r calm owned keyed found =
      let users = d.store.users in
      let start = changed (λ t. t) d.store in
      let addrs = map (λ x. x.pubkey) users in
      let polled = (poll_users u p w dht now d.network addrs start).1 in
      let once = record d { store = polled } in
      let step = poll_users-After u p w dht d.network users now addrs start r refl in
      let same : polled.users ≡ users = After-users u p w dht d.network users start polled step in
      let later = on_ticks-After u p w dht d.network users ticks once refl step.0 same in
      let listed_there : any (λ a. eqb a owner.pubkey) addrs ≡ true =
        any-pubkeys owner.pubkey users
        ∙ sym (any-order_by _ (λ r. eqb r.pubkey owner.pubkey) users)
        ∙ owner_of-listed owner.pubkey _ owner owned in
      rw
        (
          polled_all u p w dht d.network users now d r,
          poll_users-runs u p w dht d.network users calm now addrs start r refl,
        )
        (
          on_ticks-runs u p w dht d.network users calm ticks once refl step.0 same,
          Waits-grown u p w dht d.network users calm owner key content owned keyed found
              polled.tables (on_ticks u p w dht ticks once).1.store.tables later.1
              (poll_users-Waits u p w dht d.network users calm owner key content owned keyed found
                now addrs start r refl listed_there),
        )
