-- ===== src/Auth/Cache.antt =====
-- What the session cache returns over time.
use dmail.Prelude.{
  ℕ, ◌+◌, ◌≤◌, ◌≡◌, refl, inl, inr, none, some, [], ◌∷◌, arith, ltb, if◌then◌else◌, Bool-cases,
}
use dmail.Prelude.Bytes.{Bytes, eqb, eqb_iff}
use dmail.Auth.Sessions.{SessionCache, evict, lookup, put, get, evict_expired}

-- One entry for each user, as in a Go map.
abbrev pub IsMap : SessionCache → Type 0
IsMap [] = Unit
IsMap ((id, c) ∷ cache) = (lookup id cache ≡ none) × IsMap cache

lookup-evict :
    (k j : Bytes) (cache : SessionCache)
    → lookup j (evict k cache) ≡ (if eqb k j then none else lookup j cache)
unfolding lookup evict
lookup-evict k j [] = ground arith
lookup-evict k j ((id, c) ∷ cache) =
    ground (arith, lookup-evict k j cache, eqb_iff id k, eqb_iff id j, eqb_iff k j)

-- A session that was put is found until its time is over, the last moment included, and hides no
-- other user's; after Evict it is not found.
pub get-put :
    (now later : ℕ) (user j priv key : Bytes) (ttl : ℕ) (cache : SessionCache)
    → (get later j (put now user priv key ttl cache) ≡ (
        if eqb user j
        then if ltb (now + ttl) later
          then none
          else some (record { private_key = priv; public_key = key; expires_at = now + ttl })
        else get later j cache))
      × (get later j (evict user cache) ≡ (if eqb user j then none else get later j cache))
unfolding get put
get-put now later user j priv key ttl cache =
    (ground (arith, lookup-evict user j cache), ground (arith, lookup-evict user j cache))

lookup-evict_expired :
    (now : ℕ) (j : Bytes) (cache : SessionCache)
    → IsMap cache
    → lookup j (evict_expired now cache) ≡ get now j cache
unfolding lookup evict_expired get
lookup-evict_expired now j [] m = refl
lookup-evict_expired now j ((id, c) ∷ cache) m =
    ground (arith, lookup-evict_expired now j cache m.1, m.0, eqb_iff id j)

-- The periodic cleanup is invisible: from its moment on, every user's lookup is what it would have
-- been without it.
pub get-evict_expired :
    (now later : ℕ) (j : Bytes) (cache : SessionCache)
    → IsMap cache
    → now ≤ later
    → get later j (evict_expired now cache) ≡ get later j cache
unfolding get
get-evict_expired now later j cache m le = ground (arith, lookup-evict_expired now j cache m)

lookup-evict-none :
    (k j : Bytes) (cache : SessionCache) → lookup j cache ≡ none → lookup j (evict k cache) ≡ none
lookup-evict-none k j cache e = ground (arith, lookup-evict k j cache)

evict-IsMap : (k : Bytes) (cache : SessionCache) → IsMap cache → IsMap (evict k cache)
unfolding evict
evict-IsMap k [] m = tt
evict-IsMap k ((id, c) ∷ cache) m = elim (Bool-cases (eqb id k)) [
  | inl gone ↦ rw gone (evict-IsMap k cache m.1)
  | inr stays ↦ rw stays (lookup-evict-none k id cache m.0, evict-IsMap k cache m.1)
]

evict_expired-lacks :
    (now : ℕ) (j : Bytes) (cache : SessionCache)
    → lookup j cache ≡ none
    → lookup j (evict_expired now cache) ≡ none
unfolding lookup evict_expired
evict_expired-lacks now j [] e = refl
evict_expired-lacks now j ((id, c) ∷ cache) e = ground (arith, evict_expired-lacks now j cache)

evict_expired-IsMap :
    (now : ℕ) (cache : SessionCache) → IsMap cache → IsMap (evict_expired now cache)
unfolding evict_expired
evict_expired-IsMap now [] m = tt
evict_expired-IsMap now ((id, c) ∷ cache) m = elim (Bool-cases (ltb c.expires_at now)) [
  | inl over ↦ rw over (evict_expired-IsMap now cache m.1)
  | inr lives ↦ rw lives (evict_expired-lacks now id cache m.0, evict_expired-IsMap now cache m.1)
]

-- Put, Evict and EvictExpired keep one entry for each user.
pub cache-IsMap :
    (now : ℕ) (user priv key : Bytes) (ttl : ℕ) (cache : SessionCache)
    → IsMap cache
    → IsMap (put now user priv key ttl cache)
      × IsMap (evict user cache)
      × IsMap (evict_expired now cache)
unfolding put
cache-IsMap now user priv key ttl cache m = (
  (ground (arith, lookup-evict user user cache, eqb_iff user user), evict-IsMap user cache m),
  evict-IsMap user cache m,
  evict_expired-IsMap now cache m,
)
