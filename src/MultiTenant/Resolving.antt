-- ===== src/MultiTenant/Resolving.antt =====
-- A name that was resolved once is resolved from the store from then on.
use mathlib.Core.Path.{subst}
use dmail.Prelude.{
  ◌≡◌, refl, sym, ap, ◌∙◌, inl, inr, Option, none, some, arith, Option-cases, Result, ok,
  Result-cases,
}
use dmail.Prelude.Bytes.{Bytes, codes, eqb_refl, trim_suffix}
use dmail.Pb.{Wire}
use dmail.Crypto.{Primitives}
use dmail.Crypto.Keys.{address}
use dmail.Sql.{find, replace}
use dmail.Sql.Keys.{find-replace}
use dmail.Names.{to_lower}
use dmail.Node.{Dht, resolve_name}
use dmail.Store
use dmail.Store.{NameEntry, Tables, Store}
use dmail.Store.Single.{get_name, save_name}
use dmail.Store.Messages.{IsReliable, changed, exec-changed, query-read}
use dmail.MultiTenant.{Error}
use dmail.MultiTenant.Inbox.{cache_entry, resolve_remote, resolve_cached, resolve_name_for_user}

module _ (u : Bytes → Bytes) (p : Primitives) (w : Wire) {D : Type 0} (dht : Dht D)
    (name : Bytes) where
  abbrev known : Store → Option NameEntry
  known s = find (λ r. r.name) name s.names

  get_name-known : (s : Store) → IsReliable s → get_name name s ≡ (ok (known s), changed (λ t. t) s)
  unfolding get_name
  get_name-known s r = query-read _ s r

  -- A known name gives its entry whatever the network, and stays known.
  resolve_cached-known :
      (net : D) (s : Store) (entry : NameEntry)
      → IsReliable s
      → known s ≡ some entry
      → resolve_cached u p w dht name net (get_name name s) ≡ (ok entry.pubkey, changed (λ t. t) s)
  unfolding resolve_cached
  resolve_cached-known net s entry r e =
      ap (resolve_cached u p w dht name net)
        (get_name-known s r ∙ ap (λ o. (ok o, changed (λ t. t) s)) e)

  save_name-known :
      (s : Store) (entry : NameEntry)
      → IsReliable s
      → entry.name ≡ name
      → (known (save_name entry s).1 ≡ some entry) × IsReliable (save_name entry s).1
  unfolding save_name
  save_name-known s entry r e =
      let change = λ (t : Tables). record t { names = replace (λ r. r.name) entry t.names } in
      rw (exec-changed change s r) (
        ground
            (arith, e, eqb_refl name, find-replace (λ (r : NameEntry). r.name) entry name s.names),
        r,
      )

  resolve_remote-known :
      (net : D) (s s' : Store) (addr : Bytes)
      → IsReliable s
      → resolve_remote u p w dht name net s ≡ (ok addr, s')
      → ((entry : NameEntry) × (known s' ≡ some entry) × (entry.pubkey ≡ addr)) × IsReliable s'
  unfolding resolve_remote
  resolve_remote-known net s s' addr r h = elim (Result-cases (resolve_name u p w dht net name)) [
    | inl (_, lost) ↦ absurd (ground (arith, lost))
    | inr (rec, found) ↦
        let entry = cache_entry u p w dht name rec in
        let pubkey : address p rec.pubkey ≡ addr = ground (arith, found) in
        let store : (save_name entry s).1 ≡ s' = ground (arith, found) in
        let (saved, reliable) = save_name-known s entry r refl in
        (
          (entry, subst (λ x. known x ≡ some entry) store saved, pubkey),
          subst IsReliable store reliable,
        )
  ]

  remote_of :
      (net : D) (s : Store) (found : Result Store.Error (Option NameEntry) × Store)
      → found ≡ (ok none, changed (λ t. t) s)
      → resolve_remote u p w dht name net (changed (λ t. t) s)
        ≡ resolve_cached u p w dht name net found
  unfolding resolve_cached
  remote_of net s found e = sym (ap (resolve_cached u p w dht name net) e)

  resolve_cached-kept :
      (net : D) (s s' : Store) (addr : Bytes)
      → IsReliable s
      → resolve_cached u p w dht name net (get_name name s) ≡ (ok addr, s')
      → ((entry : NameEntry) × (known s' ≡ some entry) × (entry.pubkey ≡ addr)) × IsReliable s'
  resolve_cached-kept net s s' addr r h = elim (Option-cases (known s)) [
    | inr (entry, e) ↦
        let same : (ok entry.pubkey, changed (λ t. t) s) ≡ (ok addr, s') =
          sym (resolve_cached-known net s entry r e) ∙ h in
        let pubkey : entry.pubkey ≡ addr = ground (arith, same) in
        let store : changed (λ t. t) s ≡ s' = ap (λ (x : _ × Store). x.1) same in
        ((entry, subst (λ x. known x ≡ some entry) store e, pubkey), subst IsReliable store r)
    | inl absent ↦
        let looked : get_name name s ≡ (ok none, changed (λ t. t) s) =
          get_name-known s r ∙ ap (λ o. (ok o, changed (λ t. t) s)) absent in
        let remote : resolve_remote u p w dht name net (changed (λ t. t) s) ≡ (ok addr, s') =
          remote_of net s (get_name name s) looked ∙ h in
        resolve_remote-known net (changed (λ t. t) s) s' addr r remote
  ]

module _ (u : Bytes → Bytes) (p : Primitives) (w : Wire) {D : Type 0} (dht : Dht D) where
  -- Where no statement fails: once a name was resolved, every later look gives the same address,
  -- whatever the network has become.
  pub resolve_name_for_user-again :
      (asked addr : Bytes) (net later : D) (s s' : Store)
      → IsReliable s
      → resolve_name_for_user u p w dht asked net s ≡ (ok addr, s')
      → (resolve_name_for_user u p w dht asked later s').0 ≡ ok addr
  unfolding resolve_name_for_user
  resolve_name_for_user-again asked addr net later s s' r h =
      let name = to_lower u (trim_suffix asked (codes ".dmail")) in
      let ((entry, e, pubkey), reliable) = resolve_cached-kept u p w dht name net s s' addr r h in
      ap (λ (x : Result Error Bytes × Store). x.0)
        (resolve_cached-known u p w dht name later s' entry reliable e)
      ∙ ap ok pubkey
