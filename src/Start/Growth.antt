-- ===== src/Start/Growth.antt =====
-- What a poll of pkg/daemon/multi_tenant.go does to the tables of the store.
use mathlib.Core.Path.{subst}
use dmail.Prelude.{
  true, false, Bool-cases, ℕ, ◌+◌, ◌≡◌, refl, sym, ap, ◌∙◌, inl, inr, false, none, some, List, [],
  ◌∷◌, ◌++◌, append-nil, append_assoc, arith, Option-cases, length, length-append, All, All-append,
  ok, Result-cases,
}
use dmail.Prelude.Bytes.{Bytes, eqb_iff}
use dmail.Pb.{Wire}
use dmail.Clock.{unix}
use dmail.Crypto.{Primitives}
use dmail.Crypto.Keys.{pub_key_from_address}
use dmail.Node.{Dht, packet_key}
use dmail.Store.{exec, User, PendingPacket, Tables, Store}
use dmail.Store.Multi.{listing, list_users, save_pending_packet}
use dmail.Store.Messages.{IsReliable, changed, exec-changed, query-read}
use dmail.MultiTenant.{owner_of}
use dmail.MultiTenant.Inbox.{keep_packet, poll_user, poll_users, sender_of}

plus_zero : (n : ℕ) → n ≡ n + 0
plus_zero n = omega arith

plus_assoc : (a b c : ℕ) → a + b + c ≡ a + (b + c)
plus_assoc a b c = omega arith

module _ (u : Bytes → Bytes) (p : Primitives) (w : Wire) {D : Type 0} (dht : Dht D) (net : D)
    (users : List User) where
  -- A new packet, and what the DHT has at the key of the user that it is for.
  pub record IsFetched (packet : PendingPacket) : Type 0 where
    pub owner : User
    pub key : Bytes
    pub owned : owner_of owner.pubkey (listing users) ≡ some owner
    pub keyed : pub_key_from_address p owner.pubkey ≡ ok key
    pub found : dht.get_value net (packet_key u p w key) ≡ some packet.raw_data
    pub addressed : packet.user_id ≡ owner.id
    pub unprocessed : packet.processed ≡ false

  abbrev pub grow : Tables → List PendingPacket → Tables
  grow t packets = record t {
    pending_packets = t.pending_packets ++ packets;
    next_packet_id = t.next_packet_id + length packets;
  }

  -- The second tables are the first with fetched packets behind those that wait.
  pub record IsGrown (t t' : Tables) : Type 0 where
    pub packets : List PendingPacket
    pub grown : t' ≡ grow t packets
    pub fetched : All IsFetched packets

  IsGrown-refl : (t : Tables) → IsGrown t t
  IsGrown-refl t = record {
    packets = [];
    grown =
        rw (append-nil t.pending_packets)
          (ap (λ n. record t { next_packet_id = n }) (plus_zero t.next_packet_id));
    fetched = tt;
  }

  grow-append : (t : Tables) (a b : List PendingPacket) → grow (grow t a) b ≡ grow t (a ++ b)
  grow-append t a b =
      rw (append_assoc t.pending_packets a b, length-append a b)
        (ap (λ n. record t { pending_packets = t.pending_packets ++ (a ++ b); next_packet_id = n })
          (plus_assoc t.next_packet_id (length a) (length b)))

  IsGrown-trans : (t1 t2 t3 : Tables) → IsGrown t1 t2 → IsGrown t2 t3 → IsGrown t1 t3
  IsGrown-trans t1 t2 t3 a b = record {
    packets = a.packets ++ b.packets;
    grown = b.grown ∙ ap (λ t. grow t b.packets) a.grown ∙ grow-append t1 a.packets b.packets;
    fetched = All-append IsFetched a.packets b.packets a.fetched b.fetched;
  }

  owner_of-pubkey :
      (addr : Bytes) (rows : List User) (x : User) → owner_of addr rows ≡ some x → x.pubkey ≡ addr
  unfolding owner_of
  owner_of-pubkey addr [] x e = cc
  owner_of-pubkey addr (r ∷ rows) x e =
      ground (arith, owner_of-pubkey addr rows x, eqb_iff r.pubkey addr)

  -- The store after some statements of which none failed.
  abbrev pub After : Store → Store → Type 0
  After s s' = IsReliable s' × IsGrown s.tables s'.tables

  users_listed :
      (s : Store)
      → IsReliable s
      → s.users ≡ users
      → list_users s ≡ (ok (listing users), changed (λ t. t) s)
  unfolding list_users
  users_listed s r known =
      query-read (λ t. listing t.users) s r
      ∙ ap (λ rows. (ok (listing rows), changed (λ t. t) s)) known

  module _ (now : ℕ) (addr content : Bytes) (s : Store) (r : IsReliable s)
      (known : s.users ≡ users) where
    pub keep_packet-none :
        owner_of addr (listing users) ≡ none
        → keep_packet u p w dht now addr content s ≡ (true, changed (λ t. t) s)
    unfolding keep_packet
    keep_packet-none e = ground (arith, users_listed s r known, e)

    keep_packet-panic :
        (x : User)
        → owner_of addr (listing users) ≡ some x
        → sender_of u p w dht now content ≡ none
        → keep_packet u p w dht now addr content s ≡ (false, changed (λ t. t) s)
    unfolding keep_packet
    keep_packet-panic x e panics =
        rw (keep_packet, users_listed s r known, e, panics)
          (ap (λ (x : _ × Store). (false, x.1)) (users_listed s r known))

    abbrev pub new_packet : User → Bytes → PendingPacket
    new_packet x sender = record {
      id = s.next_packet_id;
      user_id = x.id;
      raw_data = content;
      sender_pubkey = sender;
      received_at = unix now;
      processed = false;
    }

    keep_packet-save :
        (x : User) (sender : Bytes)
        → owner_of addr (listing users) ≡ some x
        → sender_of u p w dht now content ≡ some sender
        → keep_packet u p w dht now addr content s
          ≡ (true, (save_pending_packet now x.id content sender (changed (λ t. t) s)).1)
    unfolding keep_packet
    keep_packet-save x sender e es =
        rw (keep_packet, users_listed s r known, e, es)
          (ap (λ (y : _ × Store). (true, (save_pending_packet now x.id content sender y.1).1))
            (users_listed s r known))

    pub keep_packet-some :
        (x : User) (sender : Bytes)
        → owner_of addr (listing users) ≡ some x
        → sender_of u p w dht now content ≡ some sender
        → keep_packet u p w dht now addr content s
          ≡ (true, changed (λ t. grow t (new_packet x sender ∷ [])) (changed (λ t. t) s))
    unfolding save_pending_packet exec
    keep_packet-some x sender e es =
        keep_packet-save x sender e es
        ∙ ap (λ (x : _ × Store). (true, x.1))
            (exec-changed (λ t. grow t (new_packet x sender ∷ [])) (changed (λ t. t) s) r)

    keep_packet-After :
        (key : Bytes)
        → pub_key_from_address p addr ≡ ok key
        → dht.get_value net (packet_key u p w key) ≡ some content
        → After s (keep_packet u p w dht now addr content s).1
    keep_packet-After key keyed found = elim (Option-cases (owner_of addr (listing users))) [
      | inl e ↦ rw (keep_packet-none e) (r, IsGrown-refl s.tables)
      | inr (x, e) ↦ elim (Option-cases (sender_of u p w dht now content)) [
        | inl panics ↦ rw (keep_packet-panic x e panics) (r, IsGrown-refl s.tables)
        | inr (sender, es) ↦
            let same = owner_of-pubkey addr (listing users) x e in
            rw (keep_packet-some x sender e es) (
              r,
              record {
                packets = new_packet x sender ∷ [];
                grown = refl;
                fetched = (
                  record {
                    owner = x;
                    key = key;
                    owned = subst (λ a. owner_of a (listing users) ≡ some x) (sym same) e;
                    keyed = rw same keyed;
                    found = found;
                    addressed = refl;
                    unprocessed = refl;
                  },
                  tt,
                );
              },
            )
      ]
    ]

  pub After-refl : (s : Store) → IsReliable s → After s s
  After-refl s r = (r, IsGrown-refl s.tables)

  pub After-trans : (s1 s2 s3 : Store) → After s1 s2 → After s2 s3 → After s1 s3
  After-trans s1 s2 s3 a b = (b.0, IsGrown-trans s1.tables s2.tables s3.tables a.1 b.1)

  pub After-users : (s s' : Store) → After s s' → s'.users ≡ s.users
  After-users s s' a = ap (λ (t : Tables). t.users) a.1.grown

  pub poll_user-After :
      (now : ℕ) (addr : Bytes) (s : Store)
      → IsReliable s
      → s.users ≡ users
      → After s (poll_user u p w dht now net addr s).1
  unfolding poll_user
  poll_user-After now addr s r known = elim (Result-cases (pub_key_from_address p addr)) [
    | inl (e, keyed) ↦
        let skipped : poll_user u p w dht now net addr s ≡ (true, s) = ground (arith, keyed) in
        rw skipped (After-refl s r)
    | inr (key, keyed) ↦ elim (Option-cases (dht.get_value net (packet_key u p w key))) [
      | inl e ↦
          let skipped : poll_user u p w dht now net addr s ≡ (true, s) = ground (arith, keyed, e) in
          rw skipped (After-refl s r)
      | inr (content, found) ↦
          let kept : poll_user u p w dht now net addr s ≡ keep_packet u p w dht now addr content s =
            ground (arith, keyed, found) in
          rw kept (keep_packet-After now addr content s r known key keyed found)
    ]
  ]

  pub poll_users-After :
      (now : ℕ) (addrs : List Bytes) (s : Store)
      → IsReliable s
      → s.users ≡ users
      → After s (poll_users u p w dht now net addrs s).1
  unfolding poll_users
  poll_users-After now [] s r known = After-refl s r
  poll_users-After now (addr ∷ addrs) s r known =
      let once = (poll_user u p w dht now net addr s).1 in
      let step = poll_user-After now addr s r known in
      elim (Bool-cases (poll_user u p w dht now net addr s).0) [
        | inl runs ↦
            rw (runs, poll_users)
              (After-trans s once (poll_users u p w dht now net addrs once).1 step
                (poll_users-After now addrs once step.0 (After-users s once step ∙ known)))
        | inr ends ↦ rw (ends, poll_users) step
      ]
