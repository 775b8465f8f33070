-- ===== src/Auth/Sessions.antt =====
-- pkg/auth/session_cache.go. The map is the list of its entries, one for each user; Go visits them
-- in no fixed order. The mutex makes each operation one step.
use dmail.Prelude.{ℕ, ◌+◌, Bool, Option, none, some, List, [], ◌∷◌, ltb, if◌then◌else◌}
use dmail.Prelude.Bytes.{Bytes, eqb}

pub record CachedSession : Type 0 where
  pub private_key : Bytes
  pub public_key : Bytes
  pub expires_at : ℕ

abbrev pub SessionCache : Type 0
SessionCache = List (Bytes × CachedSession)

abbrev pub new_session_cache : SessionCache
new_session_cache = []

-- `delete(sc.sessions, id)`
unfoldable pub evict : Bytes → SessionCache → SessionCache
evict user_id [] = []
evict user_id ((id, c) ∷ cache) =
    if eqb id user_id then evict user_id cache else (id, c) ∷ evict user_id cache

unfoldable pub lookup : Bytes → SessionCache → Option CachedSession
lookup user_id [] = none
lookup user_id ((id, c) ∷ cache) = if eqb id user_id then some c else lookup user_id cache

unfoldable pub put : ℕ → Bytes → Bytes → Bytes → ℕ → SessionCache → SessionCache
unfolding evict
put now user_id priv pub_key ttl cache =
    (user_id, record { private_key = priv; public_key = pub_key; expires_at = now + ttl })
    ∷ evict user_id cache

-- `time.Now().After(s.ExpiresAt)`
unfoldable pub expired : ℕ → CachedSession → Bool
expired now c = ltb c.expires_at now

unfoldable pub get : ℕ → Bytes → SessionCache → Option CachedSession
unfolding lookup expired
get now user_id cache = elim (lookup user_id cache) [
  | none ↦ none
  | some c ↦ if expired now c then none else some c
]

unfoldable pub evict_expired : ℕ → SessionCache → SessionCache
unfolding expired
evict_expired now [] = []
evict_expired now ((id, c) ∷ cache) =
    if expired now c then evict_expired now cache else (id, c) ∷ evict_expired now cache

-- `now.Before(s.ExpiresAt)`
unfoldable pub active_user_keys : ℕ → SessionCache → List Bytes
active_user_keys now [] = []
active_user_keys now ((id, c) ∷ cache) =
    if ltb now c.expires_at
    then c.public_key ∷ active_user_keys now cache
    else active_user_keys now cache
