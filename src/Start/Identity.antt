-- ===== src/Start/Identity.antt =====
-- The identity over several starts.
use dmail.Prelude.{
  ℕ, ◌/◌, ◌%◌, ◌<◌, ◌≡◌, refl, ap, ◌∙◌, ◌≢◌, false, Option, some, List, [], ◌∷◌, ◌++◌, arith, ok,
  All,
}
use dmail.Prelude.Bytes.{Bytes, eqb, eqb_refl, eqb-apart}
use dmail.Pow.Zeros.{IsByte}
use dmail.Crypto.{Primitives}
use dmail.Crypto.Keys.{KeyPair}
use dmail.Sql.{delete, replace}
use dmail.Sql.Keys.{IsUnique}
use dmail.Store.{StoredKey, Store}
use dmail.Store.Single.{get_key_pair, save_key_pair, first_key}
use dmail.Store.Messages.{IsReliable, changed, exec-changed, query-read}
use dmail.Start.{
  encode_to_string, decode_string, hex_digit, from_hex_digit, stored_keys, stored_or_new,
  load_identity, kept, keep_identity, start,
}

from_hex_digit-hex_digit : (n : ℕ) → n < 16 → from_hex_digit (hex_digit n) ≡ some n
unfolding from_hex_digit hex_digit
from_hex_digit-hex_digit n h = ground arith

pub decode-encode : (s : Bytes) → All IsByte s → decode_string (encode_to_string s) ≡ some s
unfolding decode_string encode_to_string
decode-encode [] h = refl
decode-encode (c ∷ s) h = ground (
  arith,
  decode-encode s h.1,
  from_hex_digit-hex_digit (c / 16),
  from_hex_digit-hex_digit (c % 16),
)

encode-nonempty : (s : Bytes) → s ≢ [] → eqb (encode_to_string s) [] ≡ false
unfolding encode_to_string eqb
encode-nonempty [] h = absurd (h refl)
encode-nonempty (c ∷ s) h = refl

-- A key pair of bytes, as it stands in the table.
abbrev pub row_of : KeyPair → StoredKey
row_of kp = record {
  pubkey = encode_to_string kp.public_key;
  encrypted_privkey = encode_to_string kp.private_key;
}

pub record IsStorable (kp : KeyPair) : Type 0 where
  pub public_bytes : All IsByte kp.public_key
  pub private_bytes : All IsByte kp.private_key
  pub has_public : kp.public_key ≢ []
  pub has_private : kp.private_key ≢ []

-- A start that finds the identity `kp` in the first row.
module _ (p : Primitives) (entropy : Option Bytes) (kp : KeyPair) (s : Store) (r : IsReliable s)
    (fine : IsStorable kp) where
  -- What the store holds of an identity: its keys, but not its mnemonic.
  abbrev pub without_mnemonic : KeyPair
  without_mnemonic = record kp { mnemonic = [] }

  stored_or_new-row :
      stored_or_new p entropy (ok (encode_to_string kp.public_key, encode_to_string kp.private_key))
      ≡ ok without_mnemonic
  unfolding stored_or_new stored_keys
  stored_or_new-row = ground (
    arith,
    encode-nonempty kp.public_key fine.has_public,
    encode-nonempty kp.private_key fine.has_private,
    decode-encode kp.public_key fine.public_bytes,
    decode-encode kp.private_key fine.private_bytes,
  )

  loaded :
      (rest : List StoredKey)
      → s.keypair ≡ row_of kp ∷ rest
      → load_identity p [] entropy s ≡ (ok without_mnemonic, changed (λ t. t) s)
  unfolding load_identity get_key_pair eqb
  loaded rest e =
      ap (λ (x : _ × Store). (stored_or_new p entropy x.0, x.1))
        (query-read (λ t. first_key t.keypair) s r)
      ∙ ap (λ rows. (stored_or_new p entropy (ok (first_key rows)), changed (λ t. t) s)) e
      ∙ ap (λ k. (k, changed (λ t. t) s)) stored_or_new-row

  delete-lacking :
      (rows : List StoredKey)
      → All (λ x. x.pubkey ≢ encode_to_string kp.public_key) rows
      → delete (λ x. x.pubkey) (encode_to_string kp.public_key) rows ≡ rows
  unfolding delete
  delete-lacking [] h = refl
  delete-lacking (x ∷ rows) h =
      rw (eqb-apart x.pubkey (encode_to_string kp.public_key) h.0)
        (ap (λ l. x ∷ l) (delete-lacking rows h.1))

  moved :
      (rest : List StoredKey)
      → s.keypair ≡ row_of kp ∷ rest
      → IsUnique (λ x. x.pubkey) (row_of kp ∷ rest)
      → replace (λ x. x.pubkey) (row_of kp) s.keypair ≡ rest ++ row_of kp ∷ []
  unfolding replace delete
  moved rest e unique =
      ap (replace (λ x. x.pubkey) (row_of kp)) e
      ∙ rw (eqb_refl (encode_to_string kp.public_key))
          (ap (λ l. l ++ row_of kp ∷ []) (delete-lacking rest unique.0))

  started :
      (rest : List StoredKey)
      → s.keypair ≡ row_of kp ∷ rest
      → start p [] entropy s ≡ (
        ok without_mnemonic,
        changed
            (λ t. record t { keypair = replace (λ x. x.pubkey) (row_of kp) t.keypair })
            (changed (λ t. t) s),
      )
  unfolding start keep_identity kept save_key_pair
  started rest e =
      ap (keep_identity p) (loaded rest e)
      ∙ ap (kept p without_mnemonic) (
          exec-changed (λ t. record t { keypair = replace (λ x. x.pubkey) (row_of kp) t.keypair })
            (changed (λ t. t) s) r)

  -- Where no statement fails and the keys are not empty: a start without a mnemonic takes the
  -- identity of the first row, but for its mnemonic, and moves the row behind all others. So one
  -- identity alone is kept from start to start, and of two each start takes the other one.
  pub start-first_row :
      (rest : List StoredKey)
      → s.keypair ≡ row_of kp ∷ rest
      → IsUnique (λ x. x.pubkey) (row_of kp ∷ rest)
      → ((start p [] entropy s).0 ≡ ok without_mnemonic)
        × ((start p [] entropy s).1.keypair ≡ rest ++ row_of kp ∷ [])
  start-first_row rest e unique = rw (started rest e) (refl, moved rest e unique)
