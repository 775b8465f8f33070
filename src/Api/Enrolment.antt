-- ===== src/Api/Enrolment.antt =====
-- Signing up, and logging in with the password afterwards.
pub mod Verdict
pub mod Login
use mathlib.Core.Path.{subst}
use dmail.Prelude.{
  ℕ, ◌+◌, ◌≤◌, ◌≡◌, refl, sym, ap, ◌∙◌, ◌≢◌, inl, inr, false, ◌||◌, Option, none, some, List, [],
  ◌∷◌, ◌++◌, any, arith, ok, Option-cases, Bool-cases, length,
}
use dmail.Prelude.Bytes.{Bytes, eqb, eqb-apart}
use dmail.Clock.{second}
use dmail.Crypto.{Primitives}
use dmail.Crypto.Assumptions.{IsSignature}
use dmail.Crypto.Keys.{KeyPair, address, generate_key_pair}
use dmail.Sql.{find}
use dmail.Store.{User, Store, insert}
use dmail.Store.Multi.{dated, create_user, get_user_by_username}
use dmail.Store.Messages.{IsReliable, changed, query-read}
use dmail.Auth.{
  signing_method_hs256, key_for, Ciphers, hash_password, encrypt_private_key, generate_jwt,
}
use dmail.Auth.Sessions.{CachedSession, SessionCache, put}
use dmail.Auth.Passwords.{IsSealed}
use dmail.Api.{signed_up, write_json}
use dmail.Api.Accounts.{
  jwt_expiry, SignupRequest, Draws, Accounts, new_user, welcome, created, sign_up, handle_signup,
}

-- JWT: every subject is signed, and its token is accepted under the same secret until a second
-- before its expiry, which the token holds in whole seconds.
pub record IsToken (k : Ciphers) : Type 0 where
  pub token : (sub secret : Bytes) (issued expires : ℕ) → Bytes
  pub signs :
      (sub secret : Bytes) (issued expires : ℕ)
      → k.sign_token signing_method_hs256 sub secret issued expires
        ≡ some (token sub secret issued expires)
  pub parses :
      (sub secret : Bytes) (issued expires now : ℕ)
      → issued ≤ now
      → now + second ≤ expires
      → k.parse_token (token sub secret issued expires) (key_for k secret) now ≡ some (some sub)

length-generated :
    (p : Primitives) (entropy : Option Bytes) (kp : KeyPair)
    → IsSignature p
    → generate_key_pair p entropy ≡ ok kp
    → length kp.public_key ≡ 32
unfolding generate_key_pair
length-generated p none kp laws e = absurd (ground arith)
length-generated p (some random) kp laws e = elim (Option-cases (p.new_mnemonic random)) [
  | inl failed ↦ absurd (ground arith)
  | inr (mnemonic, made) ↦ elim (Bool-cases (p.is_mnemonic_valid mnemonic)) [
    | inl valid ↦
        let same : p.public_key kp.private_key ≡ kp.public_key = ground (arith) in
        sym (ap length same) ∙ laws.public_length kp.private_key
    | inr invalid ↦ absurd (ground arith)
  ]
]

module _ (p : Primitives) (k : Ciphers) (secret : Bytes) (req : SignupRequest) (now : ℕ)
    (id entropy salt key_salt nonce : Bytes) (kp : KeyPair) where
  abbrev pub draws : Draws
  draws = record {
    now = now;
    id = id;
    entropy = some entropy;
    salt = some salt;
    key_salt = some key_salt;
    nonce = some nonce;
  }

  abbrev pub enrolled : User
  enrolled = record {
    id = id;
    username = req.username;
    email = req.email;
    password_hash = k.id_key req.password salt;
    password_salt = salt;
    pubkey = address p kp.public_key;
    encrypted_privkey = k.seal (k.id_key req.password key_salt) nonce kp.private_key;
    encrypted_key_salt = key_salt;
    encrypted_key_nonce = nonce;
    created_at = 0;
  }

  -- A request that the checks let pass, and a key pair of the drawn entropy.
  pub record IsProper : Type 0 where
    pub named : req.username ≢ []
    pub long : 8 ≤ length req.password
    pub generated : generate_key_pair p (some entropy) ≡ ok kp

  new_user-enrolled : IsSealed k → IsProper → new_user p k secret req draws ≡ some (kp, enrolled)
  unfolding new_user hash_password encrypt_private_key
  new_user-enrolled laws h = ground (arith, h.generated, laws.accepts req.password key_salt)

  -- The name and the id are not taken.
  pub record IsFree (users : List User) : Type 0 where
    pub name_free : find (λ x. x.username) req.username users ≡ none
    pub id_free : any (λ x. eqb x.id id) users ≡ false

  no_conflict :
      (users : List User)
      → find (λ x. x.username) req.username users ≡ none
      → any (λ x. eqb x.id id) users ≡ false
      → any (λ x. eqb x.id id || eqb x.username req.username) users ≡ false
  unfolding find
  no_conflict [] n i = refl
  no_conflict (x ∷ users) n i = ground (arith, no_conflict users)

  module _ (s : Store) (sessions : SessionCache) (r : IsReliable s) where
    abbrev pub before : Accounts
    before = record { store = s; sessions = sessions }

    -- The store after the look at the name and the new row.
    abbrev pub joined : Store
    joined =
        changed (λ t. record t { users = t.users ++ dated now enrolled ∷ [] }) (changed (λ t. t) s)

    abbrev pub session : CachedSession
    session = record {
      private_key = kp.private_key;
      public_key = kp.public_key;
      expires_at = now + jwt_expiry;
    }

    name_looked_up :
        IsFree s.users → get_user_by_username req.username s ≡ (ok none, changed (λ t. t) s)
    unfolding get_user_by_username
    name_looked_up f =
        query-read (λ t. find (λ x. x.username) req.username t.users) s r
        ∙ ap (λ o. (ok o, changed (λ t. t) s)) f.name_free

    user_created : IsFree s.users → create_user now enrolled (changed (λ t. t) s) ≡ (ok tt, joined)
    unfolding create_user insert
    user_created f = rw (r (s.statements + 1), no_conflict s.users f.name_free f.id_free)

    checks_pass :
        IsProper
        → handle_signup p k secret (some req) draws before
          ≡ sign_up p k secret req draws sessions (get_user_by_username req.username s)
    unfolding handle_signup
    checks_pass h =
        let nonempty : eqb req.password [] ≡ false =
          eqb-apart req.password [] (λ e. omega (arith, ap length e, h.long)) in
        ground (arith, eqb-apart req.username [] h.named, nonempty, h.long)

    handle_signup-welcome :
        IsSealed k
        → IsProper
        → IsFree s.users
        → handle_signup p k secret (some req) draws before
          ≡ welcome p k secret now kp enrolled (record { store = joined; sessions = sessions })
    unfolding sign_up created
    handle_signup-welcome laws h f =
        checks_pass h
        ∙ ap (sign_up p k secret req draws sessions) (name_looked_up f)
        ∙ rw (new_user-enrolled laws h, sign_up)
            (ap (created p k secret now kp enrolled sessions) (user_created f))

    -- The token that is given out at a time.
    abbrev pub token_at : IsToken k → ℕ → Bytes
    token_at t at = t.token id secret at (at + jwt_expiry)

    signed_up_answer :
        (t : IsToken k)
        → IsSealed k
        → IsProper
        → IsFree s.users
        → handle_signup p k secret (some req) draws before ≡ record {
          reply =
              write_json 201 (signed_up (token_at t now) (address p kp.public_key) kp.mnemonic id);
          accounts = record {
            store = joined;
            sessions = put now id kp.private_key kp.public_key jwt_expiry sessions;
          };
          process = none;
        }
    unfolding welcome generate_jwt
    signed_up_answer t laws h f =
        handle_signup-welcome laws h f
        ∙ rw (t.signs id secret now (now + jwt_expiry), welcome, generate_jwt)
