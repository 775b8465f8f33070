-- ===== src/Tests/Accounts.antt =====
-- Signup, login, the API of one user and the start of the program at concrete inputs.
use dmail.Prelude.{◌≡◌, refl, none, some, [], ◌∷◌, ◌++◌, arith, ok}
use dmail.Prelude.Bytes.{codes, eqb}
use dmail.Crypto.Keys.{KeyPair, generate_key_pair}
use dmail.Sql.{find}
use dmail.Store.{StoredKey, Store}
use dmail.Daemon.Jobs.{Service}
use dmail.Api.{SendRequest, write_error}
use dmail.Api.Single.{handle_send_message}
use dmail.Api.Accounts.{SignupRequest, Draws, Accounts, Answer, handle_signup, handle_login}
use dmail.Auth.{key_for}
use dmail.Api.Enrolment.{IsToken, IsProper, IsFree}
use dmail.Api.Enrolment.Login.{IsLoggedIn, handle_login-handle_signup, handle_login-other_password}
use dmail.Api.Enrolment.Verdict.{Verdict, handle_signup-Verdict}
use dmail.Api.Queueing.{Sent, handle_send_message-Sent}
use dmail.Start.{encode_to_string, start}
use dmail.Start.Identity.{IsStorable, row_of, start-first_row}
use dmail.Tests.Toys.{
  zero_bytes, zero_bytes-IsByte, toy, toy_public, toy_wire, toy_dht, Network, toy_ciphers,
  toy-IsEncoding, toy-IsSignature, toy-IsSealed, toy_key-IsByte, apart,
}
use dmail.Tests.Crypto.{zero_address}
use dmail.Tests.Naming.{toy_lower}
use dmail.Tests.Rows.{store_of, alice}

toy-IsToken : IsToken toy_ciphers
unfolding key_for
toy-IsToken = record {
  token = λ sub secret issued expires. sub;
  signs = λ sub secret issued expires. refl;
  parses = λ sub secret issued expires now from until. refl;
}

abbrev request : SignupRequest
request = record { username = codes "carol"; password = codes "long enough"; email = [] }

abbrev drawn : Draws
drawn = record {
  now = 7;
  id = alice;
  entropy = some (codes "entropy");
  salt = some (codes "s");
  key_salt = some (codes "t");
  nonce = some (codes "n");
}

abbrev keys : KeyPair
keys = record {
  public_key = toy_public (codes "entropy");
  private_key = codes "entropy";
  mnemonic = codes "entropy";
}

request-IsProper :
    IsProper toy toy_ciphers
      (codes "secret")
      request
      7
      alice
      (codes "entropy")
      (codes "s")
      (codes "t")
      (codes "n")
      keys
unfolding generate_key_pair eqb
request-IsProper = record {
  named = apart (codes "carol") [] refl;
  long = omega arith;
  generated = refl;
}

request-IsFree :
    IsFree toy toy_ciphers
      (codes "secret")
      request
      7
      alice
      (codes "entropy")
      (codes "s")
      (codes "t")
      (codes "n")
      keys
      []
unfolding find
request-IsFree = record { name_free = refl; id_free = refl }

abbrev nobody : Accounts
nobody = record { store = store_of []; sessions = [] }

abbrev signed_up_carol : Accounts
signed_up_carol =
    (handle_signup toy toy_ciphers (codes "secret") (some request) drawn nobody).accounts

handle_login-handle_signup_example :
    IsLoggedIn toy toy_ciphers
      (codes "secret")
      request
      7
      alice
      (codes "entropy")
      (codes "s")
      (codes "t")
      (codes "n")
      keys
      (store_of [])
      []
      (λ n. refl)
      9
      toy-IsToken
      toy-IsSealed
      toy-IsEncoding
      toy-IsSignature
      (λ password salt. toy_key-IsByte (password ++ salt))
      request-IsProper
      request-IsFree
      (handle_login toy toy_ciphers
        (codes "secret")
        9
        (some (record { username = codes "carol"; password = codes "long enough" }))
        signed_up_carol)
handle_login-handle_signup_example =
    handle_login-handle_signup toy toy_ciphers (codes "secret") request 7 alice (codes "entropy")
      (codes "s") (codes "t") (codes "n") keys (store_of []) [] (λ n. refl) 9 toy-IsToken
      toy-IsSealed toy-IsEncoding toy-IsSignature
      (λ password salt. toy_key-IsByte (password ++ salt)) request-IsProper request-IsFree

abbrev wrong_login : Answer
wrong_login =
    handle_login toy toy_ciphers (codes "secret") 9
      (some (record { username = codes "carol"; password = codes "no" })) signed_up_carol

handle_login-other_password_example :
    (wrong_login.reply ≡ write_error 401)
    × (wrong_login.accounts.store.tables ≡ signed_up_carol.store.tables)
    × (wrong_login.accounts.sessions ≡ signed_up_carol.sessions)
    × (wrong_login.process ≡ none)
unfolding eqb
handle_login-other_password_example =
    handle_login-other_password toy toy_ciphers (codes "secret") request 7 alice (codes "entropy")
      (codes "s") (codes "t") (codes "n") keys (store_of []) [] (λ n. refl) 9 toy-IsToken
      toy-IsSealed toy-IsEncoding toy-IsSignature
      (λ password salt. toy_key-IsByte (password ++ salt)) request-IsProper request-IsFree
      (codes "no") (apart (codes "no") [] refl)
      (apart (toy_ciphers.id_key (codes "no") (codes "s"))
        (toy_ciphers.id_key (codes "long enough") (codes "s")) refl)

handle_signup-Verdict_example :
    Verdict toy toy_ciphers
      (codes "secret")
      drawn
      nobody
      request
      (handle_signup toy toy_ciphers (codes "secret") (some request) drawn nobody)
handle_signup-Verdict_example =
    handle_signup-Verdict toy toy_ciphers (codes "secret") drawn nobody request

abbrev service : Service Network
service = record {
  daemon = record { store = store_of []; network = [] };
  pending_pow = 0;
  jobs = [];
}

abbrev to_zero : SendRequest
to_zero = record {
  recipient = zero_address;
  subject = codes "hi";
  body = codes "hello";
  reply_to_id = [];
}

handle_send_message-Sent_example :
    Sent toy_lower toy toy_wire toy_dht keys service
      (some to_zero)
      (handle_send_message toy_lower toy toy_wire toy_dht keys (some to_zero) service)
handle_send_message-Sent_example =
    handle_send_message-Sent toy_lower toy toy_wire toy_dht keys service (some to_zero)

-- Two identities in the table of the keys.
abbrev other_row : StoredKey
other_row = record { pubkey = codes "00"; encrypted_privkey = codes "01" }

abbrev zero_keys : KeyPair
zero_keys = record { public_key = zero_bytes 32; private_key = zero_bytes 64; mnemonic = [] }

zero_keys-IsStorable : IsStorable zero_keys
unfolding eqb
zero_keys-IsStorable = record {
  public_bytes = zero_bytes-IsByte 32;
  private_bytes = zero_bytes-IsByte 64;
  has_public = apart (zero_bytes 32) [] refl;
  has_private = apart (zero_bytes 64) [] refl;
}

abbrev two_identities : Store
two_identities = record (store_of []) {
  tables = record (store_of []).tables { keypair = row_of zero_keys ∷ other_row ∷ [] };
}

start-first_row_example :
    ((start toy [] none two_identities).0 ≡ ok zero_keys)
    × ((start toy [] none two_identities).1.keypair ≡ other_row ∷ row_of zero_keys ∷ [])
unfolding eqb encode_to_string
start-first_row_example =
    start-first_row toy none zero_keys two_identities (λ n. refl) zero_keys-IsStorable
      (other_row ∷ []) refl ((apart other_row.pubkey (row_of zero_keys).pubkey refl, tt), (tt, tt))
