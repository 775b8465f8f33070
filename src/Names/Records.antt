-- ===== src/Names/Records.antt =====
-- Name records: what `VerifyNameRecord` accepts, and what a signature covers.
use dmail.Prelude.{
  ℕ, ◌^◌, ◌≤◌, ◌<◌, ◌≡◌, refl, sym, ◌∙◌, ◌↔◌, true, some, [], ◌++◌, arith, length, length-append,
  ok,
}
use dmail.Prelude.Bytes.{
  Bytes, big_endian, append-injective, append-injective_right, length-big_endian,
  big_endian-injective,
}
use dmail.Clock.{unix}
use dmail.Pb.{NameRecord}
use dmail.Crypto.{Primitives}
use dmail.Crypto.Encrypt.{sign}
use dmail.Crypto.Assumptions.{IsSignature}
use dmail.Pow
use dmail.Pow.Search.{IsSha256, compute-least}
use dmail.Packet.Delivery.{Solvable, key_pair_of}
use dmail.Names.{
  name_difficulty, signable_bytes, signable_bytes_with_nonce, build_name_record, verify_name_record,
}
use dmail.Names.Format.{IsName, validate_name_iff}

module _ (p : Primitives) where
  -- A well-formed name, a key of 32 bytes, work of at least the name difficulty, and a signature.
  pub record IsGenuine (rec : NameRecord) : Type 0 where
    pub name : IsName rec.name
    pub pubkey : length rec.pubkey ≡ 32
    pub difficulty : name_difficulty ≤ rec.pow_difficulty
    pub stamped :
        Pow.verify p.sha256 (signable_bytes rec) rec.pow_nonce rec.pow_difficulty ≡ some true
    pub signed : p.verify rec.pubkey (signable_bytes_with_nonce rec) rec.signature ≡ true

module _ (u : Bytes → Bytes) (p : Primitives) where
  verify_name_record_sound :
      (rec : NameRecord) → verify_name_record u p rec ≡ ok tt → IsGenuine p rec
  unfolding verify_name_record
  verify_name_record_sound rec h = record {
    name = (validate_name_iff u rec.name).0 (ground arith);
    pubkey = ground arith;
    difficulty = ground arith;
    stamped = ground arith;
    signed = ground arith;
  }

  verify_name_record_complete :
      (rec : NameRecord) → IsGenuine p rec → verify_name_record u p rec ≡ ok tt
  unfolding verify_name_record
  verify_name_record_complete rec g =
      ground (
        arith,
        (validate_name_iff u rec.name).1 g.name,
        g.pubkey,
        g.difficulty,
        g.stamped,
        g.signed,
      )

  -- A record is accepted exactly when its name is well-formed, its key has 32 bytes, its difficulty
  -- is at least the name difficulty and solved by its nonce, and its key's owner signed it.
  pub verify_name_record_iff :
      (rec : NameRecord) → (verify_name_record u p rec ≡ ok tt) ↔ IsGenuine p rec
  verify_name_record_iff rec = (verify_name_record_sound rec, verify_name_record_complete rec)

  -- For a well-formed name and solvable work, `BuildNameRecord` returns a record of that name and of
  -- the owner's key, and `VerifyNameRecord` accepts it.
  pub verify-build_name_record :
      (name priv : Bytes) (now : ℕ)
      → IsSha256 p.sha256
      → IsSignature p
      → Solvable p.sha256 name_difficulty
      → IsName name
      → (rec : NameRecord) × (build_name_record u p name (key_pair_of p priv) now ≡ ok rec)
        × (rec.name ≡ name)
        × (rec.pubkey ≡ p.public_key priv)
        × (verify_name_record u p rec ≡ ok tt)
  unfolding build_name_record signable_bytes signable_bytes_with_nonce
  verify-build_name_record name priv now sha s solvable valid =
      let blank : NameRecord = record {
        name = name;
        pubkey = p.public_key priv;
        timestamp = unix now;
        pow_nonce = 0;
        pow_difficulty = name_difficulty;
        signature = [];
      } in
      let (good, good_lt, solves) = solvable (signable_bytes blank) in
      let (r, computed, work, _, _) =
        compute-least p.sha256 sha (signable_bytes blank) name_difficulty (omega arith) good good_lt
          solves in
      let stamped = record blank { pow_nonce = r } in
      let rec : NameRecord = record stamped {
        signature = sign p (signable_bytes_with_nonce stamped) priv;
      } in
      (
        rec,
        ground (arith, (validate_name_iff u name).1 valid, computed),
        refl,
        refl,
        verify_name_record_complete rec (record {
          name = valid;
          pubkey = s.public_length priv;
          difficulty = omega arith;
          stamped = work;
          signed = s.accepts priv (signable_bytes_with_nonce stamped);
        }),
      )

-- The numbers of a record fit their wire types, and its key has 32 bytes.
pub record IsSized (rec : NameRecord) : Type 0 where
  pub pubkey : length rec.pubkey ≡ 32
  pub timestamp : rec.timestamp < 256 ^ 8
  pub nonce : rec.pow_nonce < 256 ^ 8
  pub difficulty : rec.pow_difficulty < 256 ^ 4

-- Records with the same signed bytes agree on the name, the key, the time, the nonce and the
-- difficulty, though the bytes of the name carry no length.
pub signable_bytes_with_nonce-injective :
    (r s : NameRecord)
    → IsSized r
    → IsSized s
    → signable_bytes_with_nonce r ≡ signable_bytes_with_nonce s
    → (r.name ≡ s.name)
      × (r.pubkey ≡ s.pubkey)
      × (r.timestamp ≡ s.timestamp)
      × (r.pow_nonce ≡ s.pow_nonce)
      × (r.pow_difficulty ≡ s.pow_difficulty)
unfolding signable_bytes signable_bytes_with_nonce
signable_bytes_with_nonce-injective r s fr fs e =
    let tail = λ (x : NameRecord). big_endian 8 x.timestamp ++ big_endian 4 x.pow_difficulty in
    let tail_length = λ (x : NameRecord).
      let l : length (tail x) ≡ 12 = omega (
        arith,
        length-append (big_endian 8 x.timestamp) (big_endian 4 x.pow_difficulty),
        length-big_endian 8 x.timestamp,
        length-big_endian 4 x.pow_difficulty,
      ) in
      l in
    let rest_length = λ (x : NameRecord) (f : IsSized x).
      let l : length (x.pubkey ++ tail x) ≡ 44 =
        omega (arith, length-append x.pubkey (tail x), f.pubkey, tail_length x) in
      l in
    let (base, nonce) =
      append-injective_right (signable_bytes r) (signable_bytes s) (big_endian 8 r.pow_nonce)
        (big_endian 8 s.pow_nonce)
        (length-big_endian 8 r.pow_nonce ∙ sym (length-big_endian 8 s.pow_nonce)) e in
    let (name, rest) =
      append-injective_right r.name s.name (r.pubkey ++ tail r) (s.pubkey ++ tail s)
        (rest_length r fr ∙ sym (rest_length s fs)) base in
    let (key, tails) =
      append-injective r.pubkey s.pubkey (tail r) (tail s) (fr.pubkey ∙ sym fs.pubkey) rest in
    let (time, level) =
      append-injective (big_endian 8 r.timestamp) (big_endian 8 s.timestamp)
        (big_endian 4 r.pow_difficulty) (big_endian 4 s.pow_difficulty)
        (length-big_endian 8 r.timestamp ∙ sym (length-big_endian 8 s.timestamp)) tails in
    (
      name,
      key,
      big_endian-injective 8 r.timestamp s.timestamp fr.timestamp fs.timestamp time,
      big_endian-injective 8 r.pow_nonce s.pow_nonce fr.nonce fs.nonce nonce,
      big_endian-injective 4 r.pow_difficulty s.pow_difficulty fr.difficulty fs.difficulty level,
    )
