-- ===== src/Tests/Mail.antt =====
-- Packets at concrete inputs.
use dmail.Prelude.{ℕ, ◌+◌, ◌*◌, ◌≡◌, refl, ◌↔◌, true, some, [], ◌∷◌, ◌++◌, arith, ok}
use dmail.Prelude.Bytes.{codes, eqb}
use dmail.Clock.{second, hour, unix_to_internal, from_unix}
use dmail.Pb.{DmailPacket}
use dmail.Pow
use dmail.Packet.{build, verify, open_payload, signable_bytes_with_nonce}
use dmail.Packet.Checks.{IsAcceptable, verify_iff}
use dmail.Packet.Delivery.{
  size_verdict, payload_of, key_pair_of, verify_zero_difficulty, build-delivered,
}
use dmail.Tests.Toys.{
  zero_bytes, toy, toy_base, toy-IsSha256, toy-IsSignature, toy-IsBox, toy-Solvable, toy_wire,
  toy_wire-IsWire,
}

-- The beginning of 2001.
abbrev pub new_year : ℕ
new_year = (unix_to_internal + 978307200) * second

abbrev pub small_packet : DmailPacket
small_packet = record {
  version = 1;
  recipient_pubkey = codes "b";
  sender_pubkey = zero_bytes 32;
  timestamp = 978307200;
  pow_nonce = 3;
  pow_difficulty = 0;
  encrypted_payload = codes "c";
  -- the sender's key and the cells of the packet
  signature =
      zero_bytes 32
      ++ (1 ∷ 978307200 ∷ 3 ∷ 0 ∷ 1 ∷ 32 ∷ 1 ∷ (codes "b" ++ (zero_bytes 32 ++ codes "c")));
}

verify_iff_example :
    (verify toy toy_wire new_year small_packet ≡ ok tt)
    ↔ IsAcceptable toy toy_wire new_year small_packet
verify_iff_example = verify_iff toy toy_wire new_year small_packet

pub small_packet-verified : verify toy toy_wire new_year small_packet ≡ ok tt
unfolding from_unix signable_bytes_with_nonce eqb
small_packet-verified =
    verify_zero_difficulty toy toy_wire toy-IsSha256 new_year new_year small_packet refl refl
      (omega arith) (omega arith) refl refl

pub solved_20 : Pow.verify toy.sha256 [] 0 20 ≡ some true
unfolding Pow.verify
solved_20 = refl

build-delivered_example :
    (pkt : DmailPacket) × (build toy toy_wire
        (codes "hi")
        (codes "hello")
        []
        (key_pair_of toy (codes "alice"))
        (toy.public_key (codes "bob"))
        20
        new_year
        (codes "id")
        (some (zero_bytes 24))
      ≡ ok pkt)
    × (pkt.recipient_pubkey ≡ toy.public_key (codes "bob"))
    × (pkt.sender_pubkey ≡ toy.public_key (codes "alice"))
    × (pkt.pow_difficulty ≡ 20)
    × (verify toy toy_wire (new_year + hour) pkt ≡ size_verdict (toy_wire.marshal_packet pkt))
    × (open_payload toy toy_wire pkt (codes "bob")
        ≡ ok (payload_of (codes "id") (codes "hi") (codes "hello") []))
build-delivered_example =
    build-delivered toy toy_wire toy_base toy-IsSha256 toy-IsBox toy-IsSignature toy_wire-IsWire
      (codes "hi") (codes "hello") [] (codes "id") (codes "alice") (codes "bob") (zero_bytes 24)
      (2 ∷ 2 ∷ 5 ∷ codes "idhihello") 20 new_year (new_year + hour) refl (omega arith)
      (toy-Solvable 20 solved_20) refl (omega arith) (omega arith) (omega arith) (omega arith)
