-- ===== src/Start/Polling.antt =====
-- pollLoop of pkg/daemon/daemon.go and pkg/daemon/multi_tenant.go: the ticks that the loop receives
-- until its context is done, each with its time.
use mathlib.Core.Path.{subst}
use dmail.Prelude.{
  Bool, true, false, if◌then◌else◌, ℕ, ◌≡◌, refl, sym, ap, ◌∙◌, some, List, [], ◌∷◌, All, ok,
}
use dmail.Prelude.Bytes.{Bytes}
use dmail.Pb.{DmailPacket, Payload, Wire}
use dmail.Crypto.{Primitives}
use dmail.Crypto.Keys.{KeyPair}
use dmail.Packet.{open_payload}
use dmail.Sql.{find}
use dmail.Node.{Dht, poll}
use dmail.Store.{Message, Tables}
use dmail.Store.Single.{get_message, has_message}
use dmail.Store.Integrity.{message_key}
use dmail.Store.Messages.{IsReliable, get_message-find}
use dmail.Auth.Sessions.{evict_expired}
use dmail.Daemon.{Daemon, received_row, keep_message, do_poll}
use dmail.Daemon.Polling.{keep_message-known, keep_message-again, do_poll-keep}
use dmail.MultiTenant.{Server}
use dmail.MultiTenant.Inbox.{do_poll_all}

-- The ticker of the polls, and the one of the cleanup.
pub data Tick : Type 0 where
  poll_tick cleanup_tick : ℕ → Tick

module _ (u : Bytes → Bytes) (p : Primitives) (w : Wire) {D : Type 0} (dht : Dht D) where
  -- Whether the program goes on, and the server: a panic of a poll ends the program.
  unfoldable pub on_tick : Tick → Server D → Bool × Server D
  on_tick (poll_tick now) d = do_poll_all u p w dht now d
  on_tick (cleanup_tick now) d = (true, record d { sessions = evict_expired now d.sessions })

  unfoldable pub on_ticks : List Tick → Server D → Bool × Server D
  unfolding on_tick
  on_ticks [] d = (true, d)
  on_ticks (t ∷ ticks) d =
      let (runs, d') = on_tick t d in
      let rest = on_ticks ticks d' in if runs then rest else (false, d')

  -- The loop of the server.
  unfoldable pub poll_loop_all : ℕ → List Tick → Server D → Bool × Server D
  unfolding on_ticks
  poll_loop_all now ticks d =
      let (runs, d') = do_poll_all u p w dht now d in
      let rest = on_ticks ticks d' in if runs then rest else (false, d')

  module _ (keys : KeyPair) where
    unfoldable pub polls : List ℕ → Daemon D → Daemon D
    polls [] d = d
    polls (now ∷ ticks) d = polls ticks (do_poll u p w dht keys now d)

    -- The loop of the daemon of one user.
    unfoldable pub poll_loop : ℕ → List ℕ → Daemon D → Daemon D
    unfolding polls
    poll_loop now ticks d = polls ticks (do_poll u p w dht keys now d)

    module _ (pkt : DmailPacket) (payload : Payload)
        (opened : open_payload p w pkt keys.private_key ≡ ok payload) where
      abbrev row : Message
      row = received_row u p w dht keys pkt payload

      -- The DHT has the packet at this time.
      abbrev pub Offers : D → ℕ → Type 0
      Offers net now = poll u p w dht now net keys.public_key ≡ ok pkt

      polls-known :
          (ticks : List ℕ) (d : Daemon D) (m : Message)
          → IsReliable d.store
          → All (Offers d.network) ticks
          → find message_key payload.message_id d.store.messages ≡ some m
          → IsReliable (polls ticks d).store × ((polls ticks d).store.tables ≡ d.store.tables)
      unfolding polls
      polls-known [] d m r offers known = (r, refl)
      polls-known (now ∷ ticks) d m r offers known =
          let s = keep_message u p w dht keys row (has_message payload.message_id d.store) in
          let same : s.tables ≡ d.store.tables =
            keep_message-again u p w dht keys row m d.store r known in
          let (reliable, _) = keep_message-known u p w dht keys row d.store r in
          let (kept, rest) =
            polls-known ticks (record d { store = s }) m reliable offers.1
              (ap (λ (t : Tables). find message_key payload.message_id t.messages) same ∙ known) in
          subst
            (λ x.
              IsReliable (polls ticks x).store × ((polls ticks x).store.tables ≡ d.store.tables))
            (sym (do_poll-keep u p w dht keys now d pkt payload offers.0 opened))
            (kept, rest ∙ same)

      -- Where no statement fails and each poll of the loop is answered by the DHT with one packet that
      -- the daemon can decrypt: if the store has a message of the packet's message id, whatever its
      -- user has made of it (read it, moved it to the trash), then after the loop that message is
      -- found as it was, and no table has changed.
      pub poll_loop-known :
          (now : ℕ) (ticks : List ℕ) (d : Daemon D) (m : Message)
          → IsReliable d.store
          → Offers d.network now
          → All (Offers d.network) ticks
          → find message_key payload.message_id d.store.messages ≡ some m
          → ((get_message payload.message_id (poll_loop now ticks d).store).0 ≡ ok (some m))
            × ((poll_loop now ticks d).store.tables ≡ d.store.tables)
      unfolding poll_loop polls
      poll_loop-known now ticks d m r offered offers known =
          let (kept, same) = polls-known (now ∷ ticks) d m r (offered, offers) known in
          (
            get_message-find (polls (now ∷ ticks) d).store kept payload.message_id
                ∙ ap ok (
                    ap (λ (t : Tables). find message_key payload.message_id t.messages) same
                    ∙ known),
            same,
          )
