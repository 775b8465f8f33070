-- ===== src/Api/Access.antt =====
-- Who gets past requireAuth, and what a request can reach.
use dmail.Prelude.{
  ℕ, ◌≡◌, refl, sym, ap, ◌∙◌, ◌≢◌, ◌↔◌, ◌⊎◌, inl, inr, true, none, some, List, [], ◌∷◌, ◌++◌,
  length, length-append, drop, drop-append, arith, Option-cases, Bool-cases,
}
use dmail.Prelude.Bytes.{Bytes, codes, eqb, eqb_iff, has_prefix, has_prefix_iff, has_prefix-append}
use dmail.Sql.{find}
use dmail.Store.{Message, Store}
use dmail.Store.Multi.{scoped}
use dmail.Store.Integrity.{message_key}
use dmail.Store.Messages.{IsReliable, get_message-find}
use dmail.Node.{Dht}
use dmail.Auth.{hmac, other, Ciphers, IsParser, key_for, validate_jwt}
use dmail.Api.{Reply, one_message, write_json, write_error, or_500}
use dmail.Api.Single.{message_or_404}
use dmail.Api.Accounts.{bearer, authenticate}
use dmail.Api.Mailbox.{handle_mt_get_message}
use dmail.Api.Site.{Site, Request}
use dmail.Api.Serve.{Setup, handle, require_auth}

module _ (k : Ciphers) (secret : Bytes) where
  -- A header is accepted, for a user, exactly when it is "Bearer " and a token that the JWT package
  -- accepts with this key function at this time with the user's id as its subject.
  pub authenticate_iff :
      (now : ℕ) (header user_id : Bytes)
      → (authenticate k secret now header ≡ some user_id) ↔ (
          (token : Bytes) × (header ≡ bearer ++ token)
          × (k.parse_token token (key_for k secret) now ≡ some (some user_id)))
  unfolding authenticate validate_jwt
  authenticate_iff now header user_id = (
    λ h. elim (Bool-cases (has_prefix header bearer)) [
      | inl starts ↦ (
        drop (length bearer) header,
        (has_prefix_iff header bearer).0 starts,
        elim (Option-cases (k.parse_token (drop (length bearer) header) (key_for k secret) now)) [
          | inl bad ↦ absurd (ground arith)
          | inr (none, missing) ↦ absurd (ground arith)
          | inr (some sub, good) ↦ ground arith
        ],
      )
      | inr without ↦ absurd (ground arith)
    ],
    λ (token, whole, good).
        let starts : has_prefix header bearer ≡ true = rw whole (has_prefix-append bearer token) in
        let rest : drop (length bearer) header ≡ token =
          rw whole (drop-append bearer token (length bearer) refl) in
        ground arith,
  )

  -- A token is accepted exactly when it names an HMAC method and verifies under it and the secret.
  parse_token_iff :
      IsParser k
      → (now : ℕ) (token user_id : Bytes)
      → (k.parse_token token (key_for k secret) now ≡ some (some user_id)) ↔ (
          (alg : Bytes) × (k.token_method token ≡ some (hmac alg))
          × (k.verified_claims token (hmac alg) secret now ≡ some (some user_id)))
  unfolding key_for
  parse_token_iff parser now token user_id = (
    λ h. elim (Option-cases (k.token_method token)) [
      | inl malformed ↦
          let refused = parser.malformed token (key_for k secret) now malformed in absurd cc
      | inr (other alg, named) ↦
          let refused = parser.keyless token (key_for k secret) now (other alg) named refl in
          absurd cc
      | inr (hmac alg, named) ↦ (
        alg,
        named,
        sym (parser.keyed token secret (key_for k secret) now (hmac alg) named refl) ∙ h,
      )
    ],
    λ (alg, named, good).
        parser.keyed token secret (key_for k secret) now (hmac alg) named refl ∙ good,
  )

module _ (c : Setup) {D : Type 0} (dht : Dht D) (now : ℕ) (header msg_id : Bytes) (req : Request)
    (d : Site D) (parser : IsParser c.ciphers) where
  -- The header has a token that names an HMAC method and verifies, under it and the server's secret
  -- at this time, with the user as its subject.
  abbrev pub Accepts : Bytes → Bytes → Type 0
  Accepts token user_id =
      (header ≡ bearer ++ token)
      × ((alg : Bytes) × (c.ciphers.token_method token ≡ some (hmac alg))
          × (c.ciphers.verified_claims token (hmac alg) c.jwt_secret now ≡ some (some user_id)))

  pub data Access (answer : Reply × Site D) : Type 0 where
    entered :
        (token user_id : Bytes)
        → Accepts token user_id
        → answer ≡ handle c dht now msg_id user_id req d
        → Access answer
    refused :
        ((token user_id : Bytes) → ¬ Accepts token user_id)
        → answer ≡ (write_error 401, d)
        → Access answer

  -- A protected request runs its handler with the subject of the token in the header, if that is
  -- "Bearer " and a token that names an HMAC method and verifies at this time under it and the
  -- server's secret; if there is no such token, the answer is 401 and nothing of the server changes.
  pub require_auth-Access : Access (require_auth c dht now header msg_id req d)
  unfolding require_auth
  require_auth-Access = elim (Option-cases (authenticate c.ciphers c.jwt_secret now header)) [
    | inl stopped ↦
        refused
          (λ token user_id h.
            let passes = (authenticate_iff c.ciphers c.jwt_secret now header user_id).1 (
              token,
              h.0,
              (parse_token_iff c.ciphers c.jwt_secret parser now token user_id).1 h.1,
            ) in
            cc)
          (rw (stopped, require_auth))
    | inr (user_id, passed) ↦
        let (token, whole, good) =
          (authenticate_iff c.ciphers c.jwt_secret now header user_id).0 passed in
        entered token user_id
          (whole, (parse_token_iff c.ciphers c.jwt_secret parser now token user_id).0 good)
          (rw (passed, require_auth))
  ]

-- GET of one message.

find-named :
    (k : Bytes) (rows : List Message) (m : Message) → find message_key k rows ≡ some m → m.id ≡ k
unfolding find
find-named k [] m e = absurd (ground arith)
find-named k (r ∷ rows) m e = elim (Bool-cases (eqb r.id k)) [
  | inl here ↦
      let same : r ≡ m = ground (arith, here) in
      sym (ap (λ (x : Message). x.id) same) ∙ (eqb_iff r.id k).0 here
  | inr there ↦ find-named k rows m (ground (arith, there))
]

scoped-longer : (v id : Bytes) → scoped v id ≢ id
scoped-longer v id e = omega (arith, ap length e, length-append v (codes ":" ++ id))

-- Where no statement fails, GET of a message answers 404 if the user has none under the id, and
-- else 200 with the message under the id of its row, which is not the id that was asked for.
pub handle_mt_get_message-id :
    (s : Store) (v id : Bytes)
    → IsReliable s
    → ((find message_key (scoped v id) s.messages ≡ none)
        × ((handle_mt_get_message v id s).0 ≡ write_error 404))
      ⊎ ((m : Message) × (find message_key (scoped v id) s.messages ≡ some m)
          × ((handle_mt_get_message v id s).0 ≡ write_json 200 (one_message m))
          × (m.id ≡ scoped v id)
          × (m.id ≢ id))
unfolding handle_mt_get_message or_500 message_or_404
handle_mt_get_message-id s v id r =
    let found = get_message-find s r (scoped v id) in
    elim (Option-cases (find message_key (scoped v id) s.messages)) [
      | inl absent ↦ inl (absent, ground (arith, found))
      | inr (m, present) ↦
          let named = find-named (scoped v id) s.messages m present in
          inr (m, present, ground (arith, found), named, λ e. scoped-longer v id (sym named ∙ e))
    ]
