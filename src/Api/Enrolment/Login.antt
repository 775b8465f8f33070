-- ===== src/Api/Enrolment/Login.antt =====
-- Logging in with the password of the signup, and with another.
use dmail.Prelude.{
  ℕ, ◌+◌, ◌≤◌, ◌≡◌, refl, ap, ◌∙◌, ◌≢◌, inl, inr, true, false, none, some, [], ◌++◌, arith, ok,
  Bool-cases, All, length,
}
use dmail.Prelude.Bytes.{Bytes, eqb_refl, eqb-apart}
use dmail.Clock.{second}
use dmail.Pow.Zeros.{IsByte}
use dmail.Crypto.{Primitives}
use dmail.Crypto.Assumptions.{IsEncoding, IsSignature}
use dmail.Crypto.Keys.{KeyPair, address}
use dmail.Crypto.Addresses.{pub_key_from_address-address}
use dmail.Sql.{find}
use dmail.Sql.Keys.{find-append}
use dmail.Store.{User, Store}
use dmail.Store.Multi.{dated, get_user_by_username}
use dmail.Store.Messages.{IsReliable, changed, query-read}
use dmail.Auth.{Ciphers, hash_password, verify_password, decrypt_private_key, generate_jwt}
use dmail.Auth.Sessions.{SessionCache, put, get}
use dmail.Auth.Cache.{get-put}
use dmail.Auth.Passwords.{IsSealed, verify_password-hash_password}
use dmail.Api.{logged_in, write_json, write_error}
use dmail.Api.Accounts.{
  jwt_expiry, SignupRequest, Accounts, Answer, bearer, authenticate, refuse, handle_signup,
  open_keys, start_session, log_in, handle_login,
}
use dmail.Api.Access.{authenticate_iff}
use dmail.Api.Enrolment.{
  IsToken, length-generated, draws, enrolled, IsProper, IsFree, before, joined, signed_up_answer,
}

module _ (p : Primitives) (k : Ciphers) (secret : Bytes) (req : SignupRequest) (now : ℕ)
    (id entropy salt key_salt nonce : Bytes) (kp : KeyPair) (s : Store) (sessions : SessionCache)
    (r : IsReliable s) where
  abbrev user : User
  user = dated now (enrolled p k secret req now id entropy salt key_salt nonce kp)

  abbrev store' : Store
  store' = joined p k secret req now id entropy salt key_salt nonce kp s sessions r

  abbrev after : Accounts
  after = record {
    store = store';
    sessions = put now id kp.private_key kp.public_key jwt_expiry sessions;
  }

  abbrev signup : Answer
  signup =
      handle_signup p k secret (some req)
        (draws p k secret req now id entropy salt key_salt nonce kp)
        (before p k secret req now id entropy salt key_salt nonce kp s sessions r)

  found_again :
      find (λ x. x.username) req.username s.users ≡ none
      → get_user_by_username req.username store' ≡ (ok (some user), changed (λ t. t) store')
  unfolding get_user_by_username dated
  found_again free =
      query-read (λ t. find (λ x. x.username) req.username t.users) store' r
      ∙ ap (λ o. (ok o, changed (λ t. t) store'))
          (find-append (λ (x : User). x.username) req.username s.users user
            ∙ rw (free, eqb_refl req.username))

  verified :
      (other : Bytes)
      → ((password salt : Bytes) → All IsByte (k.id_key password salt))
      → (verify_password k req.password user.password_hash user.password_salt ≡ true)
        × (k.id_key other salt ≢ k.id_key req.password salt
            → verify_password k other user.password_hash user.password_salt ≡ false)
  unfolding dated hash_password
  verified other bytes =
      let (own, exactly) =
        verify_password-hash_password k bytes req.password other salt (k.id_key req.password salt)
          refl in
      (
        own,
        λ differ. elim (Bool-cases (verify_password k other (k.id_key req.password salt) salt)) [
          | inl accepted ↦ absurd (differ (exactly.0 accepted))
          | inr refused ↦ refused
        ],
      )

  keys_opened :
      IsEncoding p
      → IsSealed k
      → length kp.public_key ≡ 32
      → open_keys p k secret req.password user ≡ some (kp.private_key, kp.public_key)
  unfolding open_keys decrypt_private_key dated
  keys_opened enc laws len = ground (
    arith,
    laws.accepts req.password key_salt,
    laws.open_seal (k.id_key req.password key_salt) nonce kp.private_key,
    pub_key_from_address-address p enc kp.public_key len,
  )

  checks_pass :
      (later : ℕ) (password : Bytes)
      → req.username ≢ []
      → password ≢ []
      → handle_login p k secret later
          (some (record { username = req.username; password = password }))
          after
        ≡ log_in p k secret later
            (record { username = req.username; password = password })
            after.sessions
            (get_user_by_username req.username store')
  unfolding handle_login
  checks_pass later password named given =
      ground (arith, eqb-apart req.username [] named, eqb-apart password [] given)

  module _ (later : ℕ) (t : IsToken k) (laws : IsSealed k) (enc : IsEncoding p)
      (sig : IsSignature p) (bytes : (password salt : Bytes) → All IsByte (k.id_key password salt))
      (proper : IsProper p k secret req now id entropy salt key_salt nonce kp)
      (free : IsFree p k secret req now id entropy salt key_salt nonce kp s.users) where
    abbrev new_token : Bytes
    new_token = t.token id secret later (later + jwt_expiry)

    abbrev login_with : Bytes → Accounts → Answer
    login_with password a =
        handle_login p k secret later
          (some (record { username = req.username; password = password })) a

    -- What a user has who logged in: the address and a token that lets them pass as themselves, and
    -- a session with the keys that signup made.
    pub record IsLoggedIn (answer : Answer) : Type 0 where
      pub replied : answer.reply ≡ write_json 200 (logged_in new_token (address p kp.public_key) id)
      pub fetches : answer.process ≡ some id
      pub in_session :
          get later id answer.accounts.sessions
          ≡ some (record {
            private_key = kp.private_key;
            public_key = kp.public_key;
            expires_at = later + jwt_expiry;
          })
      pub passes :
          (time : ℕ)
          → later ≤ time
          → time + second ≤ later + jwt_expiry
          → authenticate k secret time (bearer ++ new_token) ≡ some id

    signed_up_lem : signup.accounts ≡ after
    signed_up_lem =
        ap (λ (a : Answer). a.accounts)
          (signed_up_answer p k secret req now id entropy salt key_salt nonce kp s sessions r t laws
            proper free)

    logged_in_answer : login_with req.password after ≡ record {
      reply = write_json 200 (logged_in new_token (address p kp.public_key) id);
      accounts = record {
        store = changed (λ t. t) store';
        sessions = put later id kp.private_key kp.public_key jwt_expiry after.sessions;
      };
      process = some id;
    }
    unfolding log_in start_session generate_jwt dated
    logged_in_answer =
        let nonempty : req.password ≢ [] = λ e. omega (arith, ap length e, proper.long) in
        let len = length-generated p (some entropy) kp sig proper.generated in
        checks_pass later req.password proper.named nonempty
        ∙ ap
            (log_in p k secret later (record { username = req.username; password = req.password })
              after.sessions)
            (found_again free.name_free)
        ∙ rw ((verified req.password bytes).0, keys_opened enc laws len, log_in)
            (rw (t.signs id secret later (later + jwt_expiry), start_session, generate_jwt))

    -- Where no statement fails and the laws of the packages hold: after a signup that passes its
    -- checks, under a free name and with a fresh id, a login with the same name and password is
    -- answered 200 with the user's address and a token that requireAuth takes for the user until a
    -- second before its expiry; the session has the key pair that signup generated, and the packets
    -- that wait for the user are fetched.
    pub handle_login-handle_signup : IsLoggedIn (login_with req.password signup.accounts)
    handle_login-handle_signup = rw signed_up_lem (
        rw logged_in_answer (record {
          replied = refl;
          fetches = refl;
          in_session =
              (get-put later later id id kp.private_key kp.public_key jwt_expiry after.sessions).0
              ∙ rw (eqb_refl id) (ground arith);
          passes = λ time from until.
              (authenticate_iff k secret time (bearer ++ new_token) id).1
                (new_token, refl, t.parses id secret later (later + jwt_expiry) time from until);
        }))

    -- Under the conditions of `handle_login-handle_signup`, a login with any other password that is
    -- not empty, and from which the key derivation makes another key, is answered 401: no table and
    -- no session changes, and nothing is started.
    pub handle_login-other_password :
        (other : Bytes)
        → other ≢ []
        → k.id_key other salt ≢ k.id_key req.password salt
        → ((login_with other signup.accounts).reply ≡ write_error 401)
          × ((login_with other signup.accounts).accounts.store.tables
              ≡ signup.accounts.store.tables)
          × ((login_with other signup.accounts).accounts.sessions ≡ signup.accounts.sessions)
          × ((login_with other signup.accounts).process ≡ none)
    unfolding log_in
    handle_login-other_password other given differ =
        let answer : login_with other after
            ≡ refuse 401 (record { store = changed (λ t. t) store'; sessions = after.sessions }) =
          checks_pass later other proper.named given
          ∙ ap
              (log_in p k secret later (record { username = req.username; password = other })
                after.sessions)
              (found_again free.name_free)
          ∙ rw ((verified other bytes).1 differ, log_in) in
        rw signed_up_lem (rw answer (refl, refl, refl, refl))
