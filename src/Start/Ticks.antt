-- ===== src/Start/Ticks.antt =====
-- What pollLoop of pkg/daemon/multi_tenant.go does to the store, over any list of its ticks.
use dmail.Prelude.{Bool, Bool-cases, inl, inr, ap, ℕ, ◌≡◌, refl, ◌∙◌, List, [], ◌∷◌, map, ok}
use dmail.Prelude.Bytes.{Bytes}
use dmail.Pb.{Wire}
use dmail.Crypto.{Primitives}
use dmail.Node.{Dht}
use dmail.Store.{User, Store}
use dmail.Store.Multi.{get_all_user_pub_keys}
use dmail.Store.Messages.{IsReliable, changed, query-read}
use dmail.MultiTenant.{Server}
use dmail.MultiTenant.Inbox.{poll_users, do_poll_all}
use dmail.Start.Growth.{IsGrown, After, After-refl, After-trans, After-users, poll_users-After}
use dmail.Start.Polling.{Tick, poll_tick, cleanup_tick, on_tick, on_ticks, poll_loop_all}

module _ (u : Bytes → Bytes) (p : Primitives) (w : Wire) {D : Type 0} (dht : Dht D) (net : D)
    (users : List User) where
  keys_read :
      (s : Store)
      → IsReliable s
      → get_all_user_pub_keys s ≡ (ok (map (λ (x : User). x.pubkey) s.users), changed (λ t. t) s)
  unfolding get_all_user_pub_keys
  keys_read s r = query-read (λ t. map (λ (x : User). x.pubkey) t.users) s r

  abbrev pub polled : ℕ → Server D → Bool × Store
  polled now d =
      poll_users u p w dht now d.network (map (λ r. r.pubkey) d.store.users)
        (changed (λ t. t) d.store)

  pub polled_all :
      (now : ℕ) (d : Server D)
      → IsReliable d.store
      → do_poll_all u p w dht now d ≡ ((polled now d).0, record d { store = (polled now d).1 })
  unfolding do_poll_all
  polled_all now d r =
      rw (do_poll_all, keys_read d.store r)
        (ap
          (λ (x : _ × Store).
            let y = poll_users u p w dht now d.network (map (λ r. r.pubkey) d.store.users) x.1 in
            (y.0, record d { store = y.1 }))
          (keys_read d.store r))

  -- A tick keeps the network, and grows the store.
  abbrev Ticked : Server D → Server D → Type 0
  Ticked d d' = (d'.network ≡ d.network) × After u p w dht net users d.store d'.store

  on_tick-Ticked :
      (t : Tick) (d : Server D)
      → d.network ≡ net
      → IsReliable d.store
      → d.store.users ≡ users
      → Ticked d (on_tick u p w dht t d).1
  unfolding on_tick
  on_tick-Ticked (poll_tick now) d at r known =
      rw (polled_all now d r, at)
        (
          refl,
          poll_users-After u p w dht net users now (map (λ r. r.pubkey) d.store.users)
              (changed (λ t. t) d.store) r known,
        )
  on_tick-Ticked (cleanup_tick now) d at r known = (refl, After-refl u p w dht net users d.store r)

  pub on_ticks-After :
      (ticks : List Tick) (d : Server D)
      → d.network ≡ net
      → IsReliable d.store
      → d.store.users ≡ users
      → After u p w dht net users d.store (on_ticks u p w dht ticks d).1.store
  unfolding on_ticks
  on_ticks-After [] d at r known = After-refl u p w dht net users d.store r
  on_ticks-After (t ∷ ticks) d at r known =
      let once = (on_tick u p w dht t d).1 in
      let (same, step) = on_tick-Ticked t d at r known in
      elim (Bool-cases (on_tick u p w dht t d).0) [
        | inl runs ↦
            rw (runs, on_ticks)
              (After-trans u p w dht net users d.store once.store
                (on_ticks u p w dht ticks once).1.store step
                (on_ticks-After ticks once (same ∙ at) step.0
                  (After-users u p w dht net users d.store once.store step ∙ known)))
        | inr ends ↦ rw (ends, on_ticks) step
      ]

module _ (u : Bytes → Bytes) (p : Primitives) (w : Wire) {D : Type 0} (dht : Dht D) where
  -- Where no statement fails, the server's loop, over any ticks and also where a poll panics,
  -- changes no table but that of the waiting packets: those that wait stay as they are and in their
  -- order, and behind them come packets, unprocessed, each of which is what the DHT has at the key
  -- of the user it waits for.
  pub poll_loop_all-IsGrown :
      (now : ℕ) (ticks : List Tick) (d : Server D)
      → IsReliable d.store
      → IsGrown u p w dht d.network d.store.users d.store.tables
          (poll_loop_all u p w dht now ticks d).1.store.tables
  unfolding poll_loop_all on_ticks on_tick
  poll_loop_all-IsGrown now ticks d r =
      (on_ticks-After u p w dht d.network d.store.users (poll_tick now ∷ ticks) d refl r refl).1
