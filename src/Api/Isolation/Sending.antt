-- ===== src/Api/Isolation/Sending.antt =====
-- Sending, resolving and registering leave the other users' messages alone.
use dmail.Prelude.{
  ℕ, ◌≡◌, refl, sym, ◌∙◌, ◌≢◌, inl, inr, Option, none, some, List, [], ◌∷◌, ◌++◌, arith, ok, err,
  Result, Result-cases, Option-cases, Bool-cases, All,
}
use dmail.Prelude.Bytes.{Bytes, codes, eqb, append-injective}
use dmail.Sql.{find}
use dmail.Crypto.{Primitives}
use dmail.Crypto.Keys.{address, pub_key_from_address}
use dmail.Pb.{Wire}
use dmail.Node
use dmail.Node.{Dht}
use dmail.Store
use dmail.Store.{Message, NameEntry, User, Tables, Store, exec, query, with_thread}
use dmail.Store.Single.{get_name, save_name}
use dmail.Store.Multi.{
  scoped, get_user_by_pubkey, save_message_for_user, update_message_status_for_user,
}
use dmail.Store.Scope.{IsUuid, scoped-apart, scoped-unowned}
use dmail.Store.Messages.{with_thread-id}
use dmail.Store.Tenants.{row_of}
use dmail.Auth.Sessions.{get}
use dmail.Federation.{Http, resolve_via_federation}
use dmail.MultiTenant.{
  Task, Server, sent_message, deliver_locally, route, send_from, send_message_for_user,
  send_federated_from, send_message_federated,
}
use dmail.MultiTenant.Inbox.{resolve_remote, resolve_cached, resolve_name_for_user}
use dmail.Api.Isolation.{Sees, exec-Shows, query-Shows, update-Shows, replace-Shows, same-Shows}

find-All :
    (P : User → Type 0) (key : User → Bytes) (k : Bytes) (rows : List User) (x : User)
    → All P rows
    → find key k rows ≡ some x
    → P x
unfolding find
find-All P key k [] x h e = absurd (ground arith)
find-All P key k (r ∷ rows) x h e = elim (Bool-cases (eqb (key r) k)) [
  | inl here ↦ let same : r ≡ x = ground (arith, here) in rw (← same) h.0
  | inr there ↦ find-All P key k rows x h.1 (ground (arith, there))
]

module _ (u i : Bytes) (before : Option Message) (hu : IsUuid u) where
  save_message_for_user-Shows :
      (v : Bytes) (m : Message) (s : Store)
      → scoped v m.id ≢ scoped u i
      → Sees u i before s
      → Sees u i before (save_message_for_user v m s).1
  unfolding save_message_for_user
  save_message_for_user-Shows v m s apart h =
      exec-Shows u i before _ s
        (λ t.
          replace-Shows u i before (row_of v m) s.tables (λ e. apart (rw (with_thread-id m) at e))
            t)
        h

  pub update_message_status_for_user-Shows :
      (v id status : Bytes) (s : Store)
      → Sees u i before s
      → Sees u i before (update_message_status_for_user v id status s).1
  unfolding update_message_status_for_user
  update_message_status_for_user-Shows v id status s h =
      exec-Shows u i before _ s
        (update-Shows u i before (scoped v id) (λ m. record m { status = status }) s.tables
          (λ m. refl) (inr (λ m. refl)))
        h

  -- The user that a look-up found has a UUID.
  abbrev Found : Result Store.Error (Option User) → Type 0
  Found (ok (some x)) = IsUuid x.id
  Found (ok none) = Unit
  Found (err _) = Unit

  get_user_by_pubkey-Found :
      (addr : Bytes) (s : Store) → Sees u i before s → Found (get_user_by_pubkey addr s).0
  unfolding get_user_by_pubkey query
  get_user_by_pubkey-Found addr s h = elim (Bool-cases (s.fault s.statements)) [
    | inl fails ↦ rw fails tt
    | inr runs ↦ rw runs (elim (Option-cases (find (λ (x : User). x.pubkey) addr s.users)) [
      | inl absent ↦ rw absent tt
      | inr (x, present) ↦
          rw present
            (find-All (λ (y : User). IsUuid y.id) (λ y. y.pubkey) addr s.users x h.uuids present)
    ])
  ]

  pub get_user_by_pubkey-Shows :
      (addr : Bytes) (s : Store) → Sees u i before s → Sees u i before (get_user_by_pubkey addr s).1
  unfolding get_user_by_pubkey
  get_user_by_pubkey-Shows addr s h = query-Shows u i before _ s h

  module _ (c : Bytes → Bytes) (p : Primitives) (w : Wire) {D : Type 0} (dht : Dht D)
      (v msg_id : Bytes) (hv : IsUuid v) (other : u ≢ v) (fresh : msg_id ≢ i) where
    own-apart : (id : Bytes) → scoped v id ≢ scoped u i
    own-apart id = scoped-apart v u id i hv hu (λ e. other (sym e))

    fresh-apart : (x : Bytes) → IsUuid x → scoped x msg_id ≢ scoped u i
    fresh-apart x hx e =
        let rest : codes ":" ++ msg_id ≡ codes ":" ++ i =
          (append-injective x u (codes ":" ++ msg_id) (codes ":" ++ i) (hx.size ∙ sym hu.size)
            e).1 in
        fresh (append-injective (codes ":") (codes ":") msg_id i refl rest).1

    route-Shows :
        (task : Task) (inbox : Message) (found : Result Store.Error (Option User)) (s : Store)
        (d : Server D)
        → task.user_id ≡ v
        → inbox.id ≡ msg_id
        → Found found
        → Sees u i before s
        → Sees u i before (route c p w dht task inbox (found, s) d).1.store
    unfolding route deliver_locally
    route-Shows task inbox (ok (some x)) s d ev ei hx h =
        update_message_status_for_user-Shows task.user_id task.msg_id (codes "delivered") _
          (save_message_for_user-Shows x.id inbox s (rw ei (fresh-apart x.id hx)) h)
    route-Shows task inbox (ok none) s d ev ei hx h = h
    route-Shows task inbox (err _) s d ev ei hx h =
        update_message_status_for_user-Shows task.user_id task.msg_id (codes "delivered") _
          (save_message_for_user-Shows [] inbox s (scoped-unowned u inbox.id i hu) h)

    pub send_message_for_user-Shows :
        (now : ℕ) (addr subject body reply_to_id : Bytes) (d : Server D)
        → Sees u i before d.store
        → Sees u i before
            (send_message_for_user c p w dht now msg_id v addr subject body reply_to_id d).1.store
    unfolding send_message_for_user send_from
    send_message_for_user-Shows now addr subject body reply_to_id d h =
        elim (Option-cases (get now v d.sessions)) [
          | inl expired ↦ rw (expired, send_message_for_user) h
          | inr (session, live) ↦
              rw (live, send_message_for_user)
                (elim (Result-cases (pub_key_from_address p addr)) [
                  | inl (_, bad) ↦ rw bad h
                  | inr (key, good) ↦
                      let sent =
                        sent_message now msg_id (address p session.public_key) addr subject body
                          reply_to_id in
                      let saved : Sees u i before (save_message_for_user v sent d.store).1 =
                        save_message_for_user-Shows v sent d.store (own-apart msg_id) h in
                      rw good (
                        route-Shows _ _ _ _ d refl refl (get_user_by_pubkey-Found addr _ saved)
                          (get_user_by_pubkey-Shows addr _ saved))
                ])
        ]

    pub send_message_federated-Shows :
        (h : Http) (now : ℕ) (username host subject body reply_to_id : Bytes) (d : Server D)
        → Sees u i before d.store
        → Sees u i before
            (send_message_federated c p w dht h now msg_id v username host subject body reply_to_id
              d).1.store
    unfolding send_message_federated send_federated_from
    send_message_federated-Shows h now username host subject body reply_to_id d seen =
        elim (Option-cases (get now v d.sessions)) [
          | inl expired ↦ rw (expired, send_message_federated) seen
          | inr (session, live) ↦
              rw (live, send_message_federated)
                (elim (Result-cases (resolve_via_federation h username host)) [
                  | inl (_, bad) ↦ rw bad seen
                  | inr (addr, resolved) ↦
                      rw resolved (elim (Result-cases (pub_key_from_address p addr)) [
                        | inl (_, bad) ↦ rw bad seen
                        | inr (key, good) ↦
                            rw good
                              (save_message_for_user-Shows v _ d.store (own-apart msg_id) seen)
                      ])
                ])
        ]

    save_name-Shows :
        (n : NameEntry) (s : Store) → Sees u i before s → Sees u i before (save_name n s).1
    unfolding save_name
    save_name-Shows n s h = exec-Shows u i before _ s (same-Shows u i before s.tables _ refl refl) h

    resolve_remote-Shows :
        (name : Bytes) (net : D) (s : Store)
        → Sees u i before s
        → Sees u i before (resolve_remote c p w dht name net s).1
    unfolding resolve_remote
    resolve_remote-Shows name net s h = elim (Result-cases (Node.resolve_name c p w dht net name)) [
      | inl (_, bad) ↦ rw (bad, resolve_remote) h
      | inr (rec, good) ↦ rw (good, resolve_remote) (save_name-Shows _ s h)
    ]

    resolve_cached-Shows :
        (name : Bytes) (net : D) (cached : Result Store.Error (Option NameEntry)) (s : Store)
        → Sees u i before s
        → Sees u i before (resolve_cached c p w dht name net (cached, s)).1
    unfolding resolve_cached
    resolve_cached-Shows name net (err _) s h = h
    resolve_cached-Shows name net (ok (some entry)) s h = h
    resolve_cached-Shows name net (ok none) s h = resolve_remote-Shows name net s h

    pub resolve_name_for_user-Shows :
        (asked : Bytes) (net : D) (s : Store)
        → Sees u i before s
        → Sees u i before (resolve_name_for_user c p w dht asked net s).1
    unfolding resolve_name_for_user get_name
    resolve_name_for_user-Shows asked net s h =
        resolve_cached-Shows _ net _ _ (query-Shows u i before _ s h)
