-- ===== src/Tests/Toys.antt =====
-- Stand-ins, simple enough to compute with, for the packages that the program calls. A hash of
-- zeros solves every proof of work; a cell of the wire format holds a whole number.
use dmail.Prelude.{
  ℕ, zero, suc, ◌%◌, ◌≡◌, refl, ap, ◌≢◌, true, false, Option, none, some, List, [], ◌∷◌, ◌++◌,
  arith, if◌then◌else◌, length, take, drop, length-append, take-append, drop-append, length-take,
  All,
}
use dmail.Prelude.Bytes.{Bytes, eqb, eqb_iff, eqb_refl}
use dmail.Pb.{Wire, IsWire}
use dmail.Pow
use dmail.Pow.Zeros.{IsByte}
use dmail.Pow.Search.{IsSha256}
use dmail.Crypto.{Primitives}
use dmail.Crypto.Encrypt.{clamp}
use dmail.Crypto.Assumptions.{IsEncoding, IsSignature, IsBox}
use dmail.Packet.Delivery.{Solvable}
use dmail.Node.{Dht}
use dmail.Auth.{IsParser, signing_method_hs256, Ciphers}
use dmail.Auth.Passwords.{IsSealed}

abbrev pub zero_bytes : ℕ → Bytes
zero_bytes zero = []
zero_bytes (suc n) = 0 ∷ zero_bytes n

pub zero_bytes-IsByte : (n : ℕ) → All IsByte (zero_bytes n)
zero_bytes-IsByte zero = tt
zero_bytes-IsByte (suc n) = (omega arith, zero_bytes-IsByte n)

length-zero_bytes : (n : ℕ) → length (zero_bytes n) ≡ n
length-zero_bytes zero = refl
length-zero_bytes (suc n) = ap suc (length-zero_bytes n)

-- A key of 32 bytes for any private key.
abbrev pub toy_public : Bytes → Bytes
toy_public priv = take 32 (priv ++ zero_bytes 32)

abbrev pub toy : Primitives
toy = record {
  sha256 = λ b. zero_bytes 32;
  sha512 = λ b. zero_bytes 64;
  base58_encode = λ b. b;
  base58_decode = λ b. some b;
  new_mnemonic = λ b. some b;
  is_mnemonic_valid = λ b. true;
  new_seed = λ mnemonic passphrase. mnemonic ++ passphrase;
  new_key_from_seed = λ b. b;
  public_key = toy_public;
  seed = λ b. b;
  sign = λ priv content. toy_public priv ++ content;
  verify = λ pub_key content sig. eqb sig (pub_key ++ content);
  bytes_montgomery = λ b. some (take 32 (clamp (zero_bytes 64)));
  box_seal = λ m nonce k a. zero_bytes 16 ++ m;
  box_open = λ c nonce k a. some (drop 16 c);
}

abbrev pub toy_base : Bytes → Bytes
toy_base k = k

pub toy-IsSha256 : IsSha256 (toy.sha256)
toy-IsSha256 = record { length_32 = λ b. refl; bytes = λ b. zero_bytes-IsByte 32 }

pub toy-IsEncoding : IsEncoding toy
toy-IsEncoding = record { sha256_length = λ b. refl; decode_encode = λ b. refl }

pub toy-IsSignature : IsSignature toy
toy-IsSignature = record {
  accepts = λ priv content. eqb_refl (toy_public priv ++ content);
  public_length = λ priv.
      omega (arith, length-take 32 (priv ++ zero_bytes 32), length-append priv (zero_bytes 32));
}

pub toy-IsBox : IsBox toy toy_base
toy-IsBox = record {
  open_seal = λ m nonce a b. refl;
  seal_length = λ m nonce k a. omega (arith, length-append (zero_bytes 16) m);
  montgomery = λ priv. refl;
}

pub toy-Solvable :
    (difficulty : ℕ)
    → Pow.verify toy.sha256 [] 0 difficulty ≡ some true
    → Solvable toy.sha256 difficulty
unfolding Pow.verify
toy-Solvable difficulty h content = (0, omega arith, h)

-- The numbers, the lengths of the texts, and the texts.
abbrev pub toy_wire : Wire
toy_wire = record {
  marshal_packet = λ m. some (
      m.version
      ∷ m.timestamp
      ∷ m.pow_nonce
      ∷ m.pow_difficulty
      ∷ length m.recipient_pubkey
      ∷ length m.sender_pubkey
      ∷ length m.encrypted_payload
      ∷ (m.recipient_pubkey ++ (m.sender_pubkey ++ (m.encrypted_payload ++ m.signature))));
  unmarshal_packet = λ b. elim b [
    | version ∷ timestamp ∷ nonce ∷ difficulty ∷ r ∷ s ∷ e ∷ rest ↦ some (record {
      version = version;
      recipient_pubkey = take r rest;
      sender_pubkey = take s (drop r rest);
      timestamp = timestamp;
      pow_nonce = nonce;
      pow_difficulty = difficulty;
      encrypted_payload = take e (drop s (drop r rest));
      signature = drop e (drop s (drop r rest));
    })
    | _ ↦ none
  ];
  marshal_payload = λ m. some (
      length m.message_id
      ∷ length m.subject
      ∷ length m.body
      ∷ (m.message_id ++ (m.subject ++ (m.body ++ m.reply_to_id))));
  unmarshal_payload = λ b. elim b [
    | i ∷ s ∷ c ∷ rest ↦ some (record {
      message_id = take i rest;
      subject = take s (drop i rest);
      body = take c (drop s (drop i rest));
      reply_to_id = drop c (drop s (drop i rest));
    })
    | _ ↦ none
  ];
  marshal_name = λ m. some (
      m.timestamp
      ∷ m.pow_nonce
      ∷ m.pow_difficulty
      ∷ length m.name
      ∷ length m.pubkey
      ∷ (m.name ++ (m.pubkey ++ m.signature)));
  unmarshal_name = λ b. elim b [
    | timestamp ∷ nonce ∷ difficulty ∷ n ∷ k ∷ rest ↦ some (record {
      name = take n rest;
      pubkey = take k (drop n rest);
      timestamp = timestamp;
      pow_nonce = nonce;
      pow_difficulty = difficulty;
      signature = drop k (drop n rest);
    })
    | _ ↦ none
  ];
}

take-field : (a b : Bytes) → take (length a) (a ++ b) ≡ a
take-field a b = take-append a b (length a) refl

drop-field : (a b : Bytes) → drop (length a) (a ++ b) ≡ b
drop-field a b = drop-append a b (length a) refl

some-injective : (a b : Bytes) → some a ≡ some b → a ≡ b
some-injective a b h = cc

pub toy_wire-IsWire : IsWire toy_wire
toy_wire-IsWire = record {
  packet = λ m b h.
      let r = m.recipient_pubkey in
      let s = m.sender_pubkey in
      let e = m.encrypted_payload in
      rw (← some-injective _ b h) (
        rw (
          drop-field r (s ++ (e ++ m.signature)),
          take-field r (s ++ (e ++ m.signature)),
          drop-field s (e ++ m.signature),
          take-field s (e ++ m.signature),
          drop-field e m.signature,
          take-field e m.signature,
        ));
  payload = λ m b h.
      let i = m.message_id in
      let s = m.subject in
      let c = m.body in
      rw (← some-injective _ b h) (
        rw (
          drop-field i (s ++ (c ++ m.reply_to_id)),
          take-field i (s ++ (c ++ m.reply_to_id)),
          drop-field s (c ++ m.reply_to_id),
          take-field s (c ++ m.reply_to_id),
          drop-field c m.reply_to_id,
          take-field c m.reply_to_id,
        ));
  name = λ m b h.
      let n = m.name in
      let k = m.pubkey in
      rw (← some-injective _ b h) (
        rw (
          drop-field n (k ++ m.signature),
          take-field n (k ++ m.signature),
          drop-field k m.signature,
          take-field k m.signature,
        ));
}

-- The network as the list of what was put, the latest first.
abbrev pub Network : Type 0
Network = List (Bytes × Bytes)

abbrev pub toy_get : Network → Bytes → Option Bytes
toy_get [] key = none
toy_get ((k, v) ∷ d) key = if eqb k key then some v else toy_get d key

abbrev pub toy_dht : Dht Network
toy_dht = record { put_value = λ d key value. (true, (key, value) ∷ d); get_value = toy_get }

pub toy_stored :
    (d : Network) (key value : Bytes)
    → (toy_dht.put_value d key value ≡ (true, (key, value) ∷ d))
      × (toy_dht.get_value ((key, value) ∷ d) key ≡ some value)
toy_stored d key value = (refl, rw (eqb_refl key))

-- Different texts, by computation.
pub apart : (a b : Bytes) → eqb a b ≡ false → a ≢ b
apart a b e same = ground (arith, eqb_iff a b)

abbrev pub toy_key : Bytes → Bytes
toy_key [] = []
toy_key (c ∷ s) = c % 256 ∷ toy_key s

pub toy_key-IsByte : (s : Bytes) → All IsByte (toy_key s)
toy_key-IsByte [] = tt
toy_key-IsByte (c ∷ s) = (omega arith, toy_key-IsByte s)

abbrev toy_claims : Bytes → Option Bytes → Option (Option Bytes)
toy_claims token none = none
toy_claims token (some key) = some (some token)

abbrev pub toy_ciphers : Ciphers
toy_ciphers = record {
  id_key = λ password salt. toy_key (password ++ salt);
  accepts_key = λ key. true;
  seal = λ key nonce m. nonce ++ m;
  open_sealed = λ key nonce c. some (drop (length nonce) c);
  sign_token = λ method user_id secret issued expires. some user_id;
  parse_token = λ token key_of now. toy_claims token (key_of signing_method_hs256);
  token_method = λ token. some signing_method_hs256;
  verified_claims = λ token method key now. some (some token);
}

pub toy-IsSealed : IsSealed toy_ciphers
toy-IsSealed = record {
  open_seal = λ key nonce m. ap some (drop-field nonce m);
  accepts = λ password salt. refl;
}

pub toy-IsParser : IsParser toy_ciphers
toy-IsParser = record {
  malformed = λ token key_of now e. absurd (ground (arith, e));
  keyless = λ token key_of now method e f.
      let same : signing_method_hs256 ≡ method = ground (arith, e) in rw (same, f) refl;
  keyed = λ token key key_of now method e f.
      let same : signing_method_hs256 ≡ method = ground (arith, e) in rw (same, f) refl;
}
