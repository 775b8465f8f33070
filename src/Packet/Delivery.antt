-- ===== src/Packet/Delivery.antt =====
-- A packet that was built is accepted and opened.
use dmail.Prelude.{
  ℕ, ◌+◌, ◌-◌, ◌*◌, ◌/◌, ◌^◌, ◌≤◌, ◌<◌, ◌≡◌, refl, true, Option, none, some, [], arith, ltb, length,
  Result, ok, err, fail_if,
}
use dmail.Prelude.Bytes.{Bytes}
use dmail.Clock.{unix, from_unix, is_after, is_older, second, unix_to_internal, hour}
use dmail.Pb.{DmailPacket, Payload, Wire, IsWire}
use dmail.Crypto.{Primitives}
use dmail.Crypto.Keys.{KeyPair}
use dmail.Crypto.Encrypt.{sign, verify_signature}
use dmail.Crypto.Assumptions.{IsBox, IsSignature}
use dmail.Crypto.RoundTrip.{decrypt-encrypt}
use dmail.Pow
use dmail.Pow.Search.{IsSha256, verify-zeros, compute-least}
use dmail.Packet.{
  Error, cannot_marshal, too_large, protocol_version, max_packet_size, max_future_skew,
  max_past_skew, signable_bytes, signable_bytes_with_nonce, build, verify, open_payload,
}

-- Every content has a nonce that solves the work at this difficulty.
abbrev pub Solvable : (Bytes → Bytes) → ℕ → Type 0
Solvable sha256 difficulty =
    (content : Bytes)
    → (good : ℕ) × (good < 2 ^ 64 - 1) × (Pow.verify sha256 content good difficulty ≡ some true)

-- A clock's second since 1970 is read back, if the clock stands in the range of the format.
pub from_unix-unix :
    (now : ℕ)
    → unix_to_internal * second ≤ now
    → now < 2 ^ 63 * second
    → (t : ℕ) × (from_unix (unix now) ≡ some t) × (t ≤ now) × (now < t + second)
unfolding from_unix unix
from_unix-unix now lo hi = ((now / second) * second, ground arith, omega arith, omega arith)

-- The verdict of `Verify` on the size alone.
abbrev pub size_verdict : Option Bytes → Result Error (Unit {0})
size_verdict none = err cannot_marshal
size_verdict (some b) = fail_if (ltb max_packet_size (length b)) too_large

abbrev pub payload_of : Bytes → Bytes → Bytes → Bytes → Payload
payload_of message_id subject body reply_to_id = record {
  message_id = message_id;
  subject = subject;
  body = body;
  reply_to_id = reply_to_id;
}

abbrev pub key_pair_of : Primitives → Bytes → KeyPair
key_pair_of p priv = record { public_key = p.public_key priv; private_key = priv; mnemonic = [] }

module _ (p : Primitives) (w : Wire) where
  -- Solved work, a fresh timestamp and the sender's signature leave only the size to be checked.
  verify-size_verdict :
      (now t : ℕ) (pkt : DmailPacket)
      → from_unix pkt.timestamp ≡ some t
      → t ≤ now + max_future_skew
      → now ≤ t + max_past_skew
      → Pow.verify p.sha256 (signable_bytes p w pkt) pkt.pow_nonce pkt.pow_difficulty ≡ some true
      → length pkt.sender_pubkey ≡ 32
      → p.verify pkt.sender_pubkey (signable_bytes_with_nonce p w pkt) pkt.signature ≡ true
      → verify p w now pkt ≡ size_verdict (w.marshal_packet pkt)
  unfolding verify is_after is_older verify_signature
  verify-size_verdict now t pkt f young old work keyed signed = ground arith

  -- A packet that declares difficulty 0 needs no work: whatever its nonce, if it marshals to at most
  -- 256 KB, is fresh and carries the sender's signature, it is accepted.
  pub verify_zero_difficulty :
      IsSha256 p.sha256
      → (now t : ℕ) (pkt : DmailPacket) → pkt.pow_difficulty ≡ 0
      → from_unix pkt.timestamp ≡ some t
      → t ≤ now + max_future_skew
      → now ≤ t + max_past_skew
      → length pkt.sender_pubkey ≡ 32
      → p.verify pkt.sender_pubkey (signable_bytes_with_nonce p w pkt) pkt.signature ≡ true
      → verify p w now pkt ≡ size_verdict (w.marshal_packet pkt)
  verify_zero_difficulty sha now t pkt none_declared f young old keyed signed =
      verify-size_verdict now t pkt f young old
        (rw none_declared (verify-zeros p.sha256 sha _ 0 (omega arith) pkt.pow_nonce)) keyed signed

module _ (p : Primitives) (w : Wire) (base : Bytes → Bytes) (sha : IsSha256 p.sha256)
    (box : IsBox p base) (s : IsSignature p) (wire : IsWire w) where
  module _ (subject body reply_to_id message_id sender recipient nonce raw : Bytes)
      (difficulty now later : ℕ) where
    -- Under the laws of SHA-256, NaCl box, signatures and the wire format, with a clock in the
    -- range of the format, a solvable difficulty of at most 256 bits, a nonce of 24 bytes and a
    -- payload that marshals, `Build` returns a packet between the two keys at the difficulty.
    -- For the next 23 hours `Verify` finds no fault in it but its size, and the recipient's private
    -- key opens it to the payload that was sent.
    pub build-delivered :
        length nonce ≡ 24
        → difficulty ≤ 256
        → Solvable p.sha256 difficulty
        → w.marshal_payload (payload_of message_id subject body reply_to_id) ≡ some raw
        → unix_to_internal * second ≤ now
        → now < 2 ^ 63 * second
        → now ≤ later
        → later ≤ now + 23 * hour
        → (pkt : DmailPacket) × (build p w subject body reply_to_id
              (key_pair_of p sender)
              (p.public_key recipient)
              difficulty
              now
              message_id
              (some nonce)
            ≡ ok pkt)
          × (pkt.recipient_pubkey ≡ p.public_key recipient)
          × (pkt.sender_pubkey ≡ p.public_key sender)
          × (pkt.pow_difficulty ≡ difficulty)
          × (verify p w later pkt ≡ size_verdict (w.marshal_packet pkt))
          × (open_payload p w pkt recipient ≡ ok (payload_of message_id subject body reply_to_id))
    unfolding build open_payload signable_bytes signable_bytes_with_nonce sign
    build-delivered len small solvable written lo hi after before =
        let (c, enc, dec) = decrypt-encrypt p base box s raw sender recipient nonce len in
        let blank : DmailPacket = record {
          version = protocol_version;
          recipient_pubkey = p.public_key recipient;
          sender_pubkey = p.public_key sender;
          timestamp = unix now;
          pow_nonce = 0;
          pow_difficulty = difficulty;
          encrypted_payload = c;
          signature = [];
        } in
        let (good, good_lt, solves) = solvable (signable_bytes p w blank) in
        let (r, computed, work, _, _) =
          compute-least p.sha256 sha (signable_bytes p w blank) difficulty small good good_lt
            solves in
        let stamped = record blank { pow_nonce = r } in
        let pkt : DmailPacket = record stamped {
          signature = sign p (signable_bytes_with_nonce p w stamped) sender;
        } in
        let (t, read, t_le, lt_t) = from_unix-unix now lo hi in
        (
          pkt,
          ground (arith, enc, computed),
          refl,
          refl,
          refl,
          verify-size_verdict p w later t pkt read (omega arith) (omega arith) work
              (s.public_length sender) (s.accepts sender (signable_bytes_with_nonce p w stamped)),
          ground (
            arith,
            dec,
            wire.payload (payload_of message_id subject body reply_to_id) raw written,
          ),
        )
