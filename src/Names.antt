-- ===== src/Names.antt =====
-- pkg/names/names.go: names, their records and their keys in the DHT. `to_lower_unicode` stands for
-- the tables of package unicode, which `strings.ToLower` consults when a text is not ASCII.
pub mod Format
pub mod Records
use dmail.Prelude.{
  ◌>>=◌, ◌>>◌, ℕ, ◌+◌, ◌-◌, ◌/◌, ◌%◌, Bool, false, ◌&&◌, ◌||◌, not, List, [], ◌∷◌, ◌++◌, ltb, leb,
  ◌==◌, if◌then◌else◌, length, all, any, Result, ok, fail_if, or_err,
}
use dmail.Prelude.Bytes.{Bytes, codes, eqb, contains, lower_ascii, big_endian}
use dmail.Clock.{unix}
use dmail.Pb.{NameRecord}
use dmail.Crypto.{Primitives}
use dmail.Crypto.Keys.{KeyPair}
use dmail.Crypto.Encrypt.{sign, verify_signature}
use dmail.Pow

abbrev pub name_difficulty : ℕ
name_difficulty = 28

abbrev pub reserved_names : List Bytes
reserved_names =
    codes "admin"
    ∷ codes "root"
    ∷ codes "system"
    ∷ codes "dmail"
    ∷ codes "postmaster"
    ∷ codes "abuse"
    ∷ codes "support"
    ∷ codes "help"
    ∷ codes "null"
    ∷ codes "nobody"
    ∷ codes "daemon"
    ∷ codes "mailer-daemon"
    ∷ []

pub data Error : Type 0 where
  bad_length not_lowercase no_match double_hyphen reserved : Error
  bad_pubkey_length weak_difficulty invalid_pow invalid_signature panicked : Error

-- `[a-z0-9]`
unfoldable pub is_alnum : ℕ → Bool
is_alnum c = (leb b'a' c && leb c b'z') || (leb b'0' c && leb c b'9')

-- `[a-z0-9-]`
unfoldable pub is_name_char : ℕ → Bool
unfolding is_alnum
is_name_char c = is_alnum c || c == b'-'

-- `[a-z0-9-]*[a-z0-9]$`
unfoldable pub matches_rest : Bytes → Bool
unfolding is_name_char
matches_rest [] = false
matches_rest (c ∷ []) = is_alnum c
matches_rest (c ∷ d ∷ s) = is_name_char c && matches_rest (d ∷ s)

-- `nameRegex.MatchString`: `^[a-z0-9][a-z0-9-]*[a-z0-9]$`
unfoldable pub matches_name_regex : Bytes → Bool
unfolding matches_rest
matches_name_regex [] = false
matches_name_regex (c ∷ s) = is_alnum c && matches_rest s

unfoldable pub is_reserved : Bytes → Bool
unfolding eqb
is_reserved name = any (eqb name) reserved_names

-- binary.BigEndian.PutUint64 and PutUint32 of the timestamp and the difficulty.
unfoldable pub signable_bytes : NameRecord → Bytes
unfolding big_endian
signable_bytes rec =
    rec.name ++ (rec.pubkey ++ (big_endian 8 rec.timestamp ++ big_endian 4 rec.pow_difficulty))

unfoldable pub signable_bytes_with_nonce : NameRecord → Bytes
unfolding signable_bytes
signable_bytes_with_nonce rec = signable_bytes rec ++ big_endian 8 rec.pow_nonce

-- `fmt.Sprintf("%x", hash)`
unfoldable pub hex_digit : ℕ → ℕ
hex_digit d = if ltb d 10 then b'0' + d else b'a' + (d - 10)

unfoldable pub hex : Bytes → Bytes
unfolding hex_digit
hex [] = []
hex (b ∷ bs) = hex_digit (b / 16) ∷ hex_digit (b % 16) ∷ hex bs

module _ (to_lower_unicode : Bytes → Bytes) where
  -- `strings.ToLower`
  unfoldable pub to_lower : Bytes → Bytes
  unfolding lower_ascii
  to_lower s = if all (λ c. ltb c 128) s then lower_ascii s else to_lower_unicode s

  unfoldable pub validate_name : Bytes → Result Error (Unit {0})
  unfolding to_lower matches_name_regex contains is_reserved eqb
  validate_name name = do
    fail_if (ltb (length name) 3 || ltb 32 (length name)) bad_length
    fail_if (not (eqb name (to_lower name))) not_lowercase
    fail_if (not (matches_name_regex name)) no_match
    fail_if (contains name (codes "--")) double_hyphen
    fail_if (is_reserved name) reserved

  module _ (p : Primitives) where
    unfoldable pub build_name_record : Bytes → KeyPair → ℕ → Result Error NameRecord
    unfolding sign
    build_name_record name kp now = do
      validate_name name
      let rec : NameRecord = record {
        name = name;
        pubkey = kp.public_key;
        timestamp = unix now;
        pow_nonce = 0;
        pow_difficulty = name_difficulty;
        signature = [];
      }
      nonce ← or_err panicked (Pow.compute p.sha256 (signable_bytes rec) name_difficulty)
      let stamped = record rec { pow_nonce = nonce }
      ok (record stamped { signature = sign p (signable_bytes_with_nonce stamped) kp.private_key })

    unfoldable pub verify_name_record : NameRecord → Result Error (Unit {0})
    unfolding verify_signature
    verify_name_record rec = do
      validate_name rec.name
      fail_if (not (length rec.pubkey == 32)) bad_pubkey_length
      fail_if (ltb rec.pow_difficulty name_difficulty) weak_difficulty
      solved ←
          or_err panicked
            (Pow.verify p.sha256 (signable_bytes rec) rec.pow_nonce rec.pow_difficulty)
      fail_if (not solved) invalid_pow
      signed ←
          or_err panicked
            (verify_signature p (signable_bytes_with_nonce rec) rec.signature rec.pubkey)
      fail_if (not signed) invalid_signature

    -- The key of a name in the DHT.
    unfoldable pub routing_key : Bytes → Bytes
    unfolding to_lower hex
    routing_key name = codes "/names/" ++ hex (p.sha256 (to_lower name))
