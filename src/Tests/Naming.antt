-- ===== src/Tests/Naming.antt =====
-- Names, their records and the DHT at concrete inputs.
use mathlib.Core.Path.{subst}
use dmail.Prelude.{
  take, ◌+◌, ℕ, ◌<◌, ◌≡◌, refl, sym, ◌≢◌, ◌↔◌, ◌⊎◌, true, Option, some, [], ◌∷◌, ◌++◌, map, arith,
  All, ok,
}
use dmail.Prelude.Bytes.{Bytes, codes, eqb, eqb_refl}
use dmail.Pb.{NameRecord, or_nil}
use dmail.Pow
use dmail.Names.{
  validate_name, routing_key, verify_name_record, signable_bytes, signable_bytes_with_nonce,
}
use dmail.Names.Format.{IsName, validate_name_iff}
use dmail.Names.Records.{IsGenuine, IsSized, verify_name_record_iff}
use dmail.Node.{
  packet_key, packet_validate, names_validate, names_select, push, poll, register_name,
  resolve_name,
}
use dmail.Node.Exchange.{poll-push, resolve_name-register_name, resolve_name_of_other}
use dmail.Node.Select.{
  AtLeast, IsNone, IsFirstEarliest, stamp, names_select-earliest, names_select_zero,
}
use dmail.Crypto.{Primitives}
use dmail.Tests.Toys.{
  zero_bytes, toy, toy_public, toy_wire, toy_wire-IsWire, toy_dht, toy_stored, apart,
}
use dmail.Tests.Mail.{new_year, small_packet, small_packet-verified}

-- No text of these runs is outside ASCII.
abbrev pub toy_lower : Bytes → Bytes
toy_lower s = s

valid_name : validate_name toy_lower (codes "bob") ≡ ok tt
unfolding validate_name
valid_name = refl

bob-IsName : IsName (codes "bob")
bob-IsName = (validate_name_iff toy_lower (codes "bob")).0 valid_name

validate_name_iff_example : (validate_name toy_lower (codes "bob") ≡ ok tt) ↔ IsName (codes "bob")
validate_name_iff_example = validate_name_iff toy_lower (codes "bob")

-- Bob's record of a time, with the toy signature: the key and the signed bytes.
abbrev unsigned : ℕ → NameRecord
unsigned timestamp = record {
  name = codes "bob";
  pubkey = toy_public (codes "bob");
  timestamp = timestamp;
  pow_nonce = 0;
  pow_difficulty = 28;
  signature = [];
}

abbrev bob_at : ℕ → NameRecord
bob_at timestamp = record (unsigned timestamp) {
  signature = toy_public (codes "bob") ++ signable_bytes_with_nonce (unsigned timestamp);
}

solved_28 : Pow.verify toy.sha256 [] 0 28 ≡ some true
unfolding Pow.verify
solved_28 = refl

bob_at-IsGenuine : (timestamp : ℕ) → IsGenuine toy (bob_at timestamp)
unfolding Pow.verify signable_bytes signable_bytes_with_nonce
bob_at-IsGenuine timestamp = record {
  name = bob-IsName;
  pubkey = refl;
  difficulty = omega arith;
  stamped = refl;
  signed = eqb_refl (toy_public (codes "bob") ++ signable_bytes_with_nonce (unsigned timestamp));
}

bob_at-verified : (timestamp : ℕ) → verify_name_record toy_lower toy (bob_at timestamp) ≡ ok tt
bob_at-verified timestamp =
    (verify_name_record_iff toy_lower toy (bob_at timestamp)).1 (bob_at-IsGenuine timestamp)

verify_name_record_iff_example :
    (verify_name_record toy_lower toy (bob_at 5) ≡ ok tt) ↔ IsGenuine toy (bob_at 5)
verify_name_record_iff_example = verify_name_record_iff toy_lower toy (bob_at 5)

unsigned-IsSized : (timestamp : ℕ) → timestamp < 100 → IsSized (unsigned timestamp)
unsigned-IsSized timestamp h = record {
  pubkey = refl;
  timestamp = omega arith;
  nonce = omega arith;
  difficulty = omega arith;
}

-- The signature is no part of what is signed.
bob_at-IsSized : (timestamp : ℕ) → timestamp < 100 → IsSized (bob_at timestamp)
bob_at-IsSized timestamp h = record {
  pubkey = refl;
  timestamp = omega arith;
  nonce = omega arith;
  difficulty = omega arith;
}

same_bytes : signable_bytes_with_nonce (unsigned 5) ≡ signable_bytes_with_nonce (bob_at 5)
unfolding signable_bytes signable_bytes_with_nonce
same_bytes = refl

abbrev content_of : NameRecord → Bytes
content_of rec = or_nil (toy_wire.marshal_name rec)

abbrev bob_key : Bytes
bob_key = routing_key toy_lower toy (codes "bob")

resolve_name-register_name_example :
    (register_name toy_lower toy toy_wire toy_dht [] (bob_at 5)
      ≡ (ok tt, (bob_key, content_of (bob_at 5)) ∷ []))
    × (names_validate toy_lower toy toy_wire bob_key (content_of (bob_at 5)) ≡ ok tt)
    × (resolve_name toy_lower toy toy_wire toy_dht
          ((bob_key, content_of (bob_at 5)) ∷ [])
          (codes "bob")
        ≡ ok (bob_at 5))
resolve_name-register_name_example =
    resolve_name-register_name toy_lower toy toy_wire toy_dht toy_wire-IsWire []
      ((bob_key, content_of (bob_at 5)) ∷ []) (bob_at 5) (content_of (bob_at 5)) refl
      (bob_at-verified 5) (toy_stored [] bob_key (content_of (bob_at 5)))

-- A hash that tells short texts apart, with enough zeros for every proof of work of these runs.
abbrev hashing : Primitives
hashing = record toy { sha256 = λ b. zero_bytes 8 ++ take 24 (b ++ zero_bytes 24) }

abbrev eve_key : Bytes
eve_key = routing_key toy_lower hashing (codes "eve")

hashed_bob-IsGenuine : IsGenuine hashing (bob_at 5)
unfolding Pow.verify signable_bytes signable_bytes_with_nonce
hashed_bob-IsGenuine = record {
  name = bob-IsName;
  pubkey = refl;
  difficulty = omega arith;
  stamped = refl;
  signed = eqb_refl (toy_public (codes "bob") ++ signable_bytes_with_nonce (unsigned 5));
}

eve_key-apart : eve_key ≢ routing_key toy_lower hashing (codes "bob")
unfolding routing_key eqb
eve_key-apart = apart eve_key (routing_key toy_lower hashing (codes "bob")) refl

resolve_name_of_other_example :
    (names_validate toy_lower hashing toy_wire eve_key (content_of (bob_at 5)) ≡ ok tt)
    × (resolve_name toy_lower hashing toy_wire toy_dht
          ((eve_key, content_of (bob_at 5)) ∷ [])
          (codes "eve")
        ≡ ok (bob_at 5))
resolve_name_of_other_example =
    resolve_name_of_other toy_lower hashing toy_wire toy_dht toy_wire-IsWire []
      ((eve_key, content_of (bob_at 5)) ∷ []) (bob_at 5) (content_of (bob_at 5)) (codes "eve") refl
      ((verify_name_record_iff toy_lower hashing (bob_at 5)).1 hashed_bob-IsGenuine) eve_key-apart
      (toy_stored [] eve_key (content_of (bob_at 5)))

-- The stamp of a genuine record is its timestamp.
stamp-bob_at :
    (timestamp : ℕ) → stamp toy_lower toy toy_wire (content_of (bob_at timestamp)) ≡ some timestamp
unfolding stamp
stamp-bob_at timestamp = ground (
  arith,
  toy_wire-IsWire.name (bob_at timestamp) (content_of (bob_at timestamp)) refl,
  bob_at-verified timestamp,
)

abbrev stamps : Bytes → Option ℕ
stamps = stamp toy_lower toy toy_wire

names_select-earliest_example :
    (r : ℕ) × (names_select toy_lower toy toy_wire bob_key
        (content_of (bob_at 9) ∷ content_of (bob_at 5) ∷ [])
      ≡ ok r)
    × ((All IsNone (map stamps (content_of (bob_at 9) ∷ content_of (bob_at 5) ∷ [])) × (r ≡ 0))
        ⊎ ((t : ℕ) × IsFirstEarliest
              (map stamps (content_of (bob_at 9) ∷ content_of (bob_at 5) ∷ []))
              r
              t))
names_select-earliest_example =
    names_select-earliest toy_lower toy toy_wire bob_key (content_of (bob_at 9))
      (content_of (bob_at 5) ∷ [])
      (
        subst (AtLeast 1) (sym (stamp-bob_at 9)) (omega arith),
        (subst (AtLeast 1) (sym (stamp-bob_at 5)) (omega arith), tt),
      )

names_select_zero_example :
    (r : ℕ) × (t : ℕ) × (names_select toy_lower toy toy_wire bob_key
        (content_of (bob_at 0) ∷ content_of (bob_at 5) ∷ [])
      ≡ ok (1 + r))
    × IsFirstEarliest (map stamps (content_of (bob_at 5) ∷ [])) r t
    × (0 < t)
names_select_zero_example =
    names_select_zero toy_lower toy toy_wire bob_key (content_of (bob_at 0))
      (content_of (bob_at 5) ∷ []) (stamp-bob_at 0)
      (subst (AtLeast 1) (sym (stamp-bob_at 5)) (omega arith), tt)
      (λ h. subst IsNone (stamp-bob_at 5) h.0)

abbrev small_content : Bytes
small_content = or_nil (toy_wire.marshal_packet small_packet)

abbrev b_key : Bytes
b_key = packet_key toy_lower toy toy_wire (codes "b")

poll-push_example :
    (push toy_lower toy toy_wire toy_dht [] small_packet ≡ (ok tt, (b_key, small_content) ∷ []))
    × (packet_validate toy_lower toy toy_wire new_year b_key small_content ≡ ok tt)
    × (poll toy_lower toy toy_wire toy_dht new_year ((b_key, small_content) ∷ []) (codes "b")
        ≡ ok small_packet)
poll-push_example =
    poll-push toy_lower toy toy_wire toy_dht toy_wire-IsWire new_year []
      ((b_key, small_content) ∷ []) small_packet small_content refl small_packet-verified
      (toy_stored [] b_key small_content)
