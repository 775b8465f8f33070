-- ===== src/Api/Accounts.antt =====
-- pkg/daemon/api_multi.go: requireAuth, signup and login. The clock, the id that the uuid package
-- makes and the values of the source of randomness are arguments.
use dmail.Prelude.{
  ℕ, ◌||◌, ◌*◌, not, Option, none, some, [], ltb, drop, length, if◌then◌else◌, Result, ok, err,
}
use dmail.Prelude.Bytes.{Bytes, codes, eqb, has_prefix}
use dmail.Clock.{hour}
use dmail.Crypto.{Primitives}
use dmail.Crypto.Keys.{KeyPair, address, generate_key_pair, pub_key_from_address}
use dmail.Store
use dmail.Store.{User, Store}
use dmail.Store.Multi.{create_user, get_user_by_username}
use dmail.Auth.{
  Ciphers, hash_password, verify_password, encrypt_private_key, decrypt_private_key, generate_jwt,
  validate_jwt,
}
use dmail.Auth.Sessions.{SessionCache, put}
use dmail.Api.{signed_up, logged_in, Reply, write_json, write_error}

abbrev pub jwt_expiry : ℕ
jwt_expiry = 24 * hour

pub record SignupRequest : Type 0 where
  pub username : Bytes
  pub password : Bytes
  pub email : Bytes

pub record LoginRequest : Type 0 where
  pub username : Bytes
  pub password : Bytes

-- What signup reads: the clock, the new id, and the values of `rand.Read` for the key pair, the
-- salt of the password, and the salt and the nonce of the sealed key.
pub record Draws : Type 0 where
  pub now : ℕ
  pub id : Bytes
  pub entropy : Option Bytes
  pub salt : Option Bytes
  pub key_salt : Option Bytes
  pub nonce : Option Bytes

-- The part of the daemon that accounts are kept in.
pub record Accounts : Type 0 where
  pub store : Store
  pub sessions : SessionCache

-- The reply, the accounts, and the user for whom ProcessPendingPackets is started.
pub record Answer : Type 0 where
  pub reply : Reply
  pub accounts : Accounts
  pub process : Option Bytes

abbrev pub refuse : ℕ → Accounts → Answer
refuse status a = record { reply = write_error status; accounts = a; process = none }

abbrev pub bearer : Bytes
bearer = codes "Bearer "

module _ (k : Ciphers) (secret : Bytes) where
  -- requireAuth: the user id for the next handler, or none for the reply 401.
  unfoldable pub authenticate : ℕ → Bytes → Option Bytes
  unfolding has_prefix
  authenticate now header =
      if not (has_prefix header bearer)
      then none
      else elim (validate_jwt k (drop (length bearer) header) secret now) [
        | err _ ↦ none
        | ok user_id ↦ some user_id
      ]

module _ (p : Primitives) (k : Ciphers) (secret : Bytes) where
  -- The user that signup makes, with its key pair; `none` is an error of one of the three packages.
  unfoldable pub new_user : SignupRequest → Draws → Option (KeyPair × User)
  new_user req r = elim (generate_key_pair p r.entropy) [
    | err _ ↦ none
    | ok kp ↦ elim (hash_password k req.password r.salt) [
      | err _ ↦ none
      | ok (hash, salt) ↦
          elim (encrypt_private_key k kp.private_key req.password r.key_salt r.nonce) [
            | err _ ↦ none
            | ok (sealed, key_salt, nonce) ↦ some (
              kp,
              record {
                id = r.id;
                username = req.username;
                email = req.email;
                password_hash = hash;
                password_salt = salt;
                pubkey = address p kp.public_key;
                encrypted_privkey = sealed;
                encrypted_key_salt = key_salt;
                encrypted_key_nonce = nonce;
                created_at = 0;
              },
            )
          ]
    ]
  ]

  -- handleSignup from the token on; the user has been created.
  unfoldable pub welcome : ℕ → KeyPair → User → Accounts → Answer
  welcome now kp user a = elim (generate_jwt k user.id secret now jwt_expiry) [
    | err _ ↦ refuse 500 a
    | ok token ↦ record {
      reply = write_json 201 (signed_up token user.pubkey kp.mnemonic user.id);
      accounts = record a {
        sessions = put now user.id kp.private_key kp.public_key jwt_expiry a.sessions;
      };
      process = none;
    }
  ]

  -- The result of `CreateUser`.
  unfoldable pub created :
      ℕ → KeyPair → User → SessionCache → Result Store.Error (Unit {0}) × Store → Answer
  unfolding welcome
  created now kp user sessions (err _, s) = refuse 500 (record { store = s; sessions = sessions })
  created now kp user sessions (ok _, s) =
      welcome now kp user (record { store = s; sessions = sessions })

  -- The result of the look at the user name.
  unfoldable pub sign_up :
      SignupRequest → Draws → SessionCache → Result Store.Error (Option User) × Store → Answer
  unfolding new_user created
  sign_up req r sessions (err _, s) = refuse 500 (record { store = s; sessions = sessions })
  sign_up req r sessions (ok (some _), s) = refuse 409 (record { store = s; sessions = sessions })
  sign_up req r sessions (ok none, s) = elim (new_user req r) [
    | none ↦ refuse 500 (record { store = s; sessions = sessions })
    | some (kp, user) ↦ created r.now kp user sessions (create_user r.now user s)
  ]

  unfoldable pub handle_signup : Option SignupRequest → Draws → Accounts → Answer
  unfolding sign_up eqb
  handle_signup none r a = refuse 400 a
  handle_signup (some req) r a =
      if eqb req.username [] || eqb req.password []
      then refuse 400 a
      else if ltb (length req.password) 8
      then refuse 400 a
      else sign_up req r a.sessions (get_user_by_username req.username a.store)

  -- The keys of the session: the private key under the password, and the public key.
  unfoldable pub open_keys : Bytes → User → Option (Bytes × Bytes)
  open_keys password user =
      elim (decrypt_private_key k user.encrypted_privkey user.encrypted_key_salt
        user.encrypted_key_nonce password) [
          | err _ ↦ none
          | ok priv ↦ elim (pub_key_from_address p user.pubkey) [
            | err _ ↦ none
            | ok pub_key ↦ some (priv, pub_key)
          ]
        ]

  -- handleLogin from the session on.
  unfoldable pub start_session : ℕ → User → Bytes → Bytes → Accounts → Answer
  start_session now user priv pub_key a =
      let cached = record a { sessions = put now user.id priv pub_key jwt_expiry a.sessions } in
      elim (generate_jwt k user.id secret now jwt_expiry) [
        | err _ ↦ record { reply = write_error 500; accounts = cached; process = some user.id }
        | ok token ↦ record {
          reply = write_json 200 (logged_in token user.pubkey user.id);
          accounts = cached;
          process = some user.id;
        }
      ]

  unfoldable pub log_in :
      ℕ → LoginRequest → SessionCache → Result Store.Error (Option User) × Store → Answer
  unfolding open_keys start_session
  log_in now req sessions (err _, s) = refuse 500 (record { store = s; sessions = sessions })
  log_in now req sessions (ok none, s) = refuse 401 (record { store = s; sessions = sessions })
  log_in now req sessions (ok (some user), s) =
      if not (verify_password k req.password user.password_hash user.password_salt)
      then refuse 401 (record { store = s; sessions = sessions })
      else elim (open_keys req.password user) [
        | none ↦ refuse 500 (record { store = s; sessions = sessions })
        | some (priv, pub_key) ↦
            start_session now user priv pub_key (record { store = s; sessions = sessions })
      ]

  unfoldable pub handle_login : ℕ → Option LoginRequest → Accounts → Answer
  unfolding log_in eqb
  handle_login now none a = refuse 400 a
  handle_login now (some req) a =
      if eqb req.username [] || eqb req.password []
      then refuse 400 a
      else log_in now req a.sessions (get_user_by_username req.username a.store)
