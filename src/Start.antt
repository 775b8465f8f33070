-- ===== src/Start.antt =====
-- cmd/dmaild/main.go and New of pkg/daemon/daemon.go: the identity that a start of the program
-- takes, and what the daemon keeps of it. Flags and environment are arguments; the data directory,
-- the services, signals and messages to the user are not modelled. A fatal error is an `Error`.
pub mod Identity
pub mod Daemons
pub mod Polling
pub mod Growth
pub mod Ticks
pub mod Fetching
use dmail.Prelude.{
  ℕ, ◌+◌, ◌-◌, ◌*◌, ◌/◌, ◌%◌, ◌&&◌, not, Option, none, some, [], ◌∷◌, ltb, leb, if◌then◌else◌,
  Result, ok, err, ◌>>=◌, wrap, or_err,
}
use dmail.Prelude.Bytes.{Bytes, eqb}
use dmail.Crypto
use dmail.Crypto.{Primitives}
use dmail.Crypto.Keys.{KeyPair, key_pair_from_mnemonic, generate_key_pair}
use dmail.Store
use dmail.Store.{Store}
use dmail.Store.Single.{get_key_pair, save_key_pair}

-- encoding/hex
unfoldable pub hex_digit : ℕ → ℕ
hex_digit n = if ltb n 10 then b'0' + n else b'a' + (n - 10)

unfoldable pub encode_to_string : Bytes → Bytes
unfolding hex_digit
encode_to_string [] = []
encode_to_string (c ∷ s) = hex_digit (c / 16) ∷ hex_digit (c % 16) ∷ encode_to_string s

unfoldable pub from_hex_digit : ℕ → Option ℕ
from_hex_digit c =
    if leb b'0' c && leb c b'9'
    then some (c - b'0')
    else if leb b'a' c && leb c b'f'
    then some (c - b'a' + 10)
    else if leb b'A' c && leb c b'F'
    then some (c - b'A' + 10)
    else none

abbrev pair_up : Option ℕ → Option ℕ → Option Bytes → Option Bytes
pair_up (some h) (some l) (some s) = some ((h * 16 + l) ∷ s)
pair_up (some h) (some l) none = none
pair_up (some h) none _ = none
pair_up none _ _ = none

-- `none` for an odd length or a character that is no digit.
unfoldable pub decode_string : Bytes → Option Bytes
unfolding from_hex_digit
decode_string [] = some []
decode_string (h ∷ []) = none
decode_string (h ∷ l ∷ s) = pair_up (from_hex_digit h) (from_hex_digit l) (decode_string s)

pub data Error : Type 0 where
  in_crypto : Crypto.Error → Error
  in_store : Store.Error → Error
  bad_stored_key cannot_open cannot_migrate no_node : Error

unfoldable pub stored_keys : Bytes → Bytes → Result Error KeyPair
unfolding decode_string
stored_keys pub_hex priv_hex = do
  pub_key ← or_err bad_stored_key (decode_string pub_hex)
  priv ← or_err bad_stored_key (decode_string priv_hex)
  ok (record { public_key = pub_key; private_key = priv; mnemonic = [] })

module _ (p : Primitives) where
  -- Where GetKeyPair has answered; `entropy` is for a new identity.
  unfoldable pub stored_or_new :
      Option Bytes → Result Store.Error (Bytes × Bytes) → Result Error KeyPair
  unfolding eqb stored_keys
  stored_or_new entropy (err e) = err (in_store e)
  stored_or_new entropy (ok (pub_hex, priv_hex)) =
      if not (eqb pub_hex []) && not (eqb priv_hex [])
      then stored_keys pub_hex priv_hex
      else wrap in_crypto (generate_key_pair p entropy)

  unfoldable pub load_identity : Bytes → Option Bytes → Store → Result Error KeyPair × Store
  unfolding stored_or_new
  load_identity mnemonic entropy s =
      if not (eqb mnemonic [])
      then (wrap in_crypto (key_pair_from_mnemonic p mnemonic), s)
      else let (found, s') = get_key_pair s in (stored_or_new entropy found, s')

  -- The result of SaveKeyPair.
  unfoldable pub kept :
      KeyPair → Result Store.Error (Unit {0}) × Store → Result Error KeyPair × Store
  kept kp (ok _, s) = (ok kp, s)
  kept kp (err e, s) = (err (in_store e), s)

  -- The first steps of New and of NewMultiTenant.
  unfoldable pub keep_identity : Result Error KeyPair × Store → Result Error KeyPair × Store
  unfolding encode_to_string kept
  keep_identity (err e, s) = (err e, s)
  keep_identity (ok kp, s) =
      kept kp (save_key_pair (encode_to_string kp.public_key) (encode_to_string kp.private_key) s)

  -- A start of the program up to the daemon's key pair.
  unfoldable pub start : Bytes → Option Bytes → Store → Result Error KeyPair × Store
  unfolding load_identity keep_identity
  start mnemonic entropy s = keep_identity (load_identity mnemonic entropy s)

-- The secret of the mode with many users: the flag, else JWT_SECRET; `none` ends the program.
unfoldable pub jwt_secret : Bytes → Bytes → Option Bytes
jwt_secret flag env =
    let secret = if eqb flag [] then env else flag in if eqb secret [] then none else some secret
