-- ===== src/Packet/Checks.antt =====
-- What `Verify` accepts.
use dmail.Prelude.{ℕ, ◌+◌, ◌≤◌, ◌≡◌, ◌↔◌, inl, inr, true, some, arith, Option-cases, length, ok}
use dmail.Prelude.Bytes.{Bytes}
use dmail.Clock.{from_unix, is_after, is_older}
use dmail.Pb.{DmailPacket, Wire}
use dmail.Crypto.{Primitives}
use dmail.Crypto.Encrypt.{verify_signature}
use dmail.Pow
use dmail.Packet.{
  max_packet_size, max_future_skew, max_past_skew, signable_bytes, signable_bytes_with_nonce,
  verify,
}

module _ (p : Primitives) (w : Wire) (now : ℕ) (pkt : DmailPacket) where
  -- The conditions: size, age, work, the size of the sender's key, and signature.
  pub record IsAcceptable : Type 0 where
    pub sized : (b : Bytes) × (w.marshal_packet pkt ≡ some b) × (length b ≤ max_packet_size)
    pub fresh :
        (t : ℕ) × (from_unix pkt.timestamp ≡ some t)
        × (t ≤ now + max_future_skew)
        × (now ≤ t + max_past_skew)
    pub stamped :
        Pow.verify p.sha256 (signable_bytes p w pkt) pkt.pow_nonce pkt.pow_difficulty ≡ some true
    pub keyed : length pkt.sender_pubkey ≡ 32
    pub signed : p.verify pkt.sender_pubkey (signable_bytes_with_nonce p w pkt) pkt.signature ≡ true

  verify_sound : verify p w now pkt ≡ ok tt → IsAcceptable
  unfolding verify is_after is_older verify_signature
  verify_sound h = elim (Option-cases (w.marshal_packet pkt)) [
    | inl lost ↦ absurd (ground (arith, lost))
    | inr (b, e) ↦ elim (Option-cases (from_unix pkt.timestamp)) [
      | inl early ↦ absurd (ground (arith, e, early))
      | inr (t, f) ↦ record {
        sized = (b, e, ground (arith, e));
        fresh = (t, f, ground (arith, e, f), ground (arith, e, f));
        stamped = ground (arith, e, f);
        keyed = ground (arith, e, f);
        signed = ground (arith, e, f);
      }
    ]
  ]

  verify_complete : IsAcceptable → verify p w now pkt ≡ ok tt
  unfolding verify is_after is_older verify_signature
  verify_complete a =
      let (b, e, sized) = a.sized in
      let (t, f, young, old) = a.fresh in ground (arith, e, f, a.stamped, a.keyed, a.signed)

  -- At any time, a packet is accepted exactly when it marshals to at most 256 KB, its timestamp is
  -- at most an hour ahead of the clock and at most 24 hours behind it, its nonce solves the proof
  -- of work at its own difficulty, the sender's key has 32 bytes, and the signature is the sender's
  -- on all other fields.
  pub verify_iff : (verify p w now pkt ≡ ok tt) ↔ IsAcceptable
  verify_iff = (verify_sound, verify_complete)
