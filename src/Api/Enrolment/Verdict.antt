-- ===== src/Api/Enrolment/Verdict.antt =====
-- What the status of a signup says, whichever statement, source of randomness or package fails.
use dmail.Prelude.{
  ◌≤◌, ◌≡◌, refl, ◌≢◌, inl, inr, false, ◌||◌, Option, none, some, [], ◌∷◌, ◌++◌, any, ltb, arith,
  ok, err, Result, Result-cases, Option-cases, Bool-cases, length,
}
use dmail.Prelude.Bytes.{Bytes, eqb}
use dmail.Crypto.{Primitives}
use dmail.Crypto.Keys.{KeyPair}
use dmail.Sql.{find}
use dmail.Store
use dmail.Store.{User, Tables, Store, insert, query}
use dmail.Store.Multi.{dated, create_user, get_user_by_username}
use dmail.Auth.{Ciphers, generate_jwt}
use dmail.Auth.Sessions.{put}
use dmail.Api.Accounts.{
  jwt_expiry, SignupRequest, Draws, Accounts, Answer, new_user, welcome, created, sign_up,
  handle_signup,
}

module _ (p : Primitives) (k : Ciphers) (secret : Bytes) (r : Draws) (a : Accounts) where
  -- The tables with the new row, which takes the id and the name of no other.
  pub record IsAdded (req : SignupRequest) (kp : KeyPair) (user : User) (t : Tables) : Type 0 where
    pub long : 8 ≤ length req.password
    pub made : new_user p k secret req r ≡ some (kp, user)
    pub unique : any (λ x. eqb x.id user.id || eqb x.username user.username) a.store.users ≡ false
    pub row : t ≡ record a.store.tables { users = a.store.users ++ dated r.now user ∷ [] }

  -- 201: the user was added and has a session. 500 with the user added: no token could be signed.
  -- 409: the name is another user's, and nothing has changed, as after any other status.
  pub data Verdict (req : SignupRequest) (answer : Answer) : Type 0 where
    enrolled :
        (kp : KeyPair) (user : User)
        → answer.reply.status ≡ 201
        → IsAdded req kp user answer.accounts.store.tables
        → answer.accounts.sessions
          ≡ put r.now user.id kp.private_key kp.public_key jwt_expiry a.sessions
        → Verdict req answer
    stranded :
        (kp : KeyPair) (user : User) (e : _)
        → answer.reply.status ≡ 500
        → IsAdded req kp user answer.accounts.store.tables
        → generate_jwt k user.id secret r.now jwt_expiry ≡ err e
        → answer.accounts.sessions ≡ a.sessions
        → Verdict req answer
    taken :
        (user : User)
        → answer.reply.status ≡ 409
        → find (λ x. x.username) req.username a.store.users ≡ some user
        → answer.accounts.store.tables ≡ a.store.tables
        → answer.accounts.sessions ≡ a.sessions
        → Verdict req answer
    refused :
        answer.reply.status ≢ 201
        → answer.reply.status ≢ 409
        → answer.accounts.store.tables ≡ a.store.tables
        → answer.accounts.sessions ≡ a.sessions
        → Verdict req answer

  welcome-Verdict :
      (req : SignupRequest) (kp : KeyPair) (user : User) (s : Store)
      → IsAdded req kp user s.tables
      → Verdict req (welcome p k secret r.now kp user (record { store = s; sessions = a.sessions }))
  unfolding welcome
  welcome-Verdict req kp user s added =
      elim (Result-cases (generate_jwt k user.id secret r.now jwt_expiry)) [
        | inl (e, failed) ↦ rw (failed, welcome) (stranded kp user e refl added failed refl)
        | inr (token, signed) ↦ rw (signed, welcome) (enrolled kp user refl added refl)
      ]

  created-Verdict :
      (req : SignupRequest) (kp : KeyPair) (user : User) (s : Store)
      → s.tables ≡ a.store.tables
      → 8 ≤ length req.password
      → new_user p k secret req r ≡ some (kp, user)
      → Verdict req (created p k secret r.now kp user a.sessions (create_user r.now user s))
  unfolding created create_user insert
  created-Verdict req kp user s same long made = elim (Bool-cases (s.fault s.statements)) [
    | inl fails ↦ rw fails (refused (λ h. ground arith) (λ h. ground arith) same refl)
    | inr runs ↦
        rw runs
          (elim (Bool-cases (any (λ x. eqb x.id user.id || eqb x.username user.username) s.users)) [
            | inl conflict ↦ rw conflict (refused (λ h. ground arith) (λ h. ground arith) same refl)
            | inr unique ↦ rw unique (
                welcome-Verdict req kp user _
                  (record { long = long; made = made; unique = rw (← same) unique; row = rw same }))
          ])
  ]

  sign_up-Verdict :
      (req : SignupRequest) (found : Result Store.Error (Option User)) (s : Store)
      → s.tables ≡ a.store.tables
      → 8 ≤ length req.password
      → ((x : User)
          → found ≡ ok (some x)
          → find (λ y. y.username) req.username a.store.users ≡ some x)
      → Verdict req (sign_up p k secret req r a.sessions (found, s))
  unfolding sign_up
  sign_up-Verdict req (err _) s same long user_of =
      refused (λ h. ground arith) (λ h. ground arith) same refl
  sign_up-Verdict req (ok (some x)) s same long user_of = taken x refl (user_of x refl) same refl
  sign_up-Verdict req (ok none) s same long user_of =
      elim (Option-cases (new_user p k secret req r)) [
        | inl failed ↦
            rw (failed, sign_up) (refused (λ h. ground arith) (λ h. ground arith) same refl)
        | inr ((kp, user), made) ↦ rw (made, sign_up) (created-Verdict req kp user s same long made)
      ]

  looked_up-Verdict :
      (req : SignupRequest)
      → 8 ≤ length req.password
      → Verdict req
          (sign_up p k secret req r a.sessions (get_user_by_username req.username a.store))
  unfolding get_user_by_username query
  looked_up-Verdict req long = elim (Bool-cases (a.store.fault a.store.statements)) [
    | inl fails ↦
        rw fails (sign_up-Verdict req (err Store.failed) _ refl long (λ x h. ground arith))
    | inr runs ↦ rw runs (
        sign_up-Verdict req (ok (find (λ y. y.username) req.username a.store.users)) _ refl long
          (λ x h. ground arith))
  ]

  -- Whichever statement, package or source of randomness fails: a signup is answered 201 only for a
  -- password of at least 8 bytes and after a user of an unused name and id was added, who then has a
  -- session with the generated keys; it is answered 409 only if the name is taken; and it changes
  -- neither a table nor a session otherwise, but that a user whose token cannot be signed is added
  -- all the same and answered 500.
  pub handle_signup-Verdict :
      (req : SignupRequest) → Verdict req (handle_signup p k secret (some req) r a)
  unfolding handle_signup
  handle_signup-Verdict req = elim (Bool-cases (eqb req.username [] || eqb req.password [])) [
    | inl missing ↦ rw missing (refused (λ h. ground arith) (λ h. ground arith) refl refl)
    | inr given ↦ rw given (elim (Bool-cases (ltb (length req.password) 8)) [
      | inl short ↦ rw short (refused (λ h. ground arith) (λ h. ground arith) refl refl)
      | inr long ↦ rw long (looked_up-Verdict req (ground arith))
    ])
  ]
