-- ===== src/Start/Daemons.antt =====
-- New and Close of pkg/daemon/daemon.go and pkg/daemon/multi_tenant.go: how a daemon comes to be and
-- ends. What `store.Open`, `MigrateMultiTenant` and `node.New` return, and whether `Node.Close`
-- fails, are arguments; `none` is an error.
use dmail.Prelude.{
  ◌≡◌, refl, sym, ap, ◌⊎◌, inl, inr, Bool, true, false, Option, none, some, [], if◌then◌else◌,
  Result, ok, err,
}
use dmail.Crypto.{Primitives}
use dmail.Crypto.Keys.{KeyPair}
use dmail.Store.{Store}
use dmail.Auth.Sessions.{new_session_cache}
use dmail.Daemon.{Daemon}
use dmail.MultiTenant.{Server}
use dmail.Start.{Error, cannot_open, cannot_migrate, no_node, keep_identity}

-- The opened database.
pub record Database : Type 0 where
  pub store : Store
  pub is_closed : Bool

-- What a constructor returns, and the database that it opened.
pub record Opening (A : Type 0) : Type 0 where
  pub result : Result Error A
  pub database : Option Database

-- `st.Close()` and the error.
abbrev pub abandon : {A : Type 0} → Error → Store → Opening A
abandon e s = record { result = err e; database = some (record { store = s; is_closed = true }) }

-- From the saved key pair on.
unfoldable pub with_node :
    {A D : Type 0} → (D → Store → A) → Option D → Result Error KeyPair × Store → Opening A
with_node make host (err e, s) = abandon e s
with_node make none (ok _, s) = abandon no_node s
with_node make (some net) (ok _, s) = record {
  result = ok (make net s);
  database = some (record { store = s; is_closed = false });
}

module _ (p : Primitives) {D : Type 0} where
  -- `New`
  unfoldable pub new_daemon : KeyPair → Option Store → Option D → Opening (Daemon D)
  unfolding with_node keep_identity
  new_daemon keys none host = record { result = err cannot_open; database = none }
  new_daemon keys (some s) host =
      with_node (λ net s'. record { store = s'; network = net }) host (keep_identity p (ok keys, s))

  abbrev pub fresh_server : D → Store → Server D
  fresh_server net s = record {
    store = s;
    sessions = new_session_cache;
    network = net;
    pending_pow = 0;
    tasks = [];
  }

  -- `NewMultiTenant`
  unfoldable pub new_multi_tenant : KeyPair → Option Store → Bool → Option D → Opening (Server D)
  unfolding with_node keep_identity
  new_multi_tenant keys none migrated host = record { result = err cannot_open; database = none }
  new_multi_tenant keys (some s) migrated host =
      if migrated
      then with_node fresh_server host (keep_identity p (ok keys, s))
      else abandon cannot_migrate s

-- `Close` of both daemons, after the wait for their goroutines: whether it returns nil, and the
-- database.
unfoldable pub close : Bool → Database → Bool × Database
close node_fails db = if node_fails then (false, db) else (true, record db { is_closed = true })

-- A daemon has its database open, and none is left open without a daemon.
pub data IsSettled {A : Type 0} (store_of : A → Store) (o : Opening A) : Type 0 where
  started :
      (a : A)
      → o.result ≡ ok a
      → o.database ≡ some (record { store = store_of a; is_closed = false })
      → IsSettled store_of o
  failed :
      (e : Error)
      → o.result ≡ err e
      → (o.database ≡ none)
        ⊎ ((s : Store) × (o.database ≡ some (record { store = s; is_closed = true })))
      → IsSettled store_of o

with_node-IsSettled :
    {A D : Type 0} (store_of : A → Store) (make : D → Store → A) (host : Option D)
    (identity : Result Error KeyPair) (s : Store)
    → ((net : D) → store_of (make net s) ≡ s)
    → IsSettled store_of (with_node make host (identity, s))
unfolding with_node
with_node-IsSettled store_of make host (err e) s keeps = failed e refl (inr (s, refl))
with_node-IsSettled store_of make none (ok _) s keeps = failed no_node refl (inr (s, refl))
with_node-IsSettled store_of make (some net) (ok _) s keeps =
    started (make net s) refl
      (ap (λ x. some (record { store = x; is_closed = false })) (sym (keeps net)))

-- Whichever step fails, New and NewMultiTenant return a daemon that holds the open database, or an
-- error after which no database is left open.
pub new_daemons-IsSettled :
    (p : Primitives) {D : Type 0} (keys : KeyPair) (opened : Option Store) (migrated : Bool)
    (host : Option D)
    → IsSettled (λ (d : Daemon D). d.store) (new_daemon p keys opened host)
      × IsSettled (λ (d : Server D). d.store) (new_multi_tenant p keys opened migrated host)
unfolding new_daemon new_multi_tenant
new_daemons-IsSettled p keys none migrated host =
    (failed cannot_open refl (inl refl), failed cannot_open refl (inl refl))
new_daemons-IsSettled p keys (some s) false host = (
  with_node-IsSettled _ _ host (keep_identity p (ok keys, s)).0 _ (λ net. refl),
  failed cannot_migrate refl (inr (s, refl)),
)
new_daemons-IsSettled p keys (some s) true host = (
  with_node-IsSettled _ _ host (keep_identity p (ok keys, s)).0 _ (λ net. refl),
  with_node-IsSettled _ _ host (keep_identity p (ok keys, s)).0 _ (λ net. refl),
)
