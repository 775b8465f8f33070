-- ===== src/Pb.antt =====
-- internal/pb/dmail.pb.go: the protobuf messages. Their wire format is that of the protobuf
-- package, the parameter `Wire`.
use dmail.Prelude.{ℕ, ◌≡◌, Option, none, some, []}
use dmail.Prelude.Bytes.{Bytes}

pub record DmailPacket : Type 0 where
  pub version : ℕ
  pub recipient_pubkey : Bytes
  pub sender_pubkey : Bytes
  pub timestamp : ℕ
  pub pow_nonce : ℕ
  pub pow_difficulty : ℕ
  pub encrypted_payload : Bytes
  pub signature : Bytes

pub record Payload : Type 0 where
  pub message_id : Bytes
  pub subject : Bytes
  pub body : Bytes
  pub reply_to_id : Bytes

pub record NameRecord : Type 0 where
  pub name : Bytes
  pub pubkey : Bytes
  pub timestamp : ℕ
  pub pow_nonce : ℕ
  pub pow_difficulty : ℕ
  pub signature : Bytes

-- `proto.Marshal` and `proto.Unmarshal` at each message; `none` is an error.
pub record Wire : Type 0 where
  pub marshal_packet : DmailPacket → Option Bytes
  pub unmarshal_packet : Bytes → Option DmailPacket
  pub marshal_payload : Payload → Option Bytes
  pub unmarshal_payload : Bytes → Option Payload
  pub marshal_name : NameRecord → Option Bytes
  pub unmarshal_name : Bytes → Option NameRecord

-- What is relied on: a message that was written is read back.
pub record IsWire (w : Wire) : Type 0 where
  pub packet :
      (m : DmailPacket) (b : Bytes) → w.marshal_packet m ≡ some b → w.unmarshal_packet b ≡ some m
  pub payload :
      (m : Payload) (b : Bytes) → w.marshal_payload m ≡ some b → w.unmarshal_payload b ≡ some m
  pub name : (m : NameRecord) (b : Bytes) → w.marshal_name m ≡ some b → w.unmarshal_name b ≡ some m

-- `data, _ := proto.Marshal(m)`: nil on an error.
abbrev pub or_nil : Option Bytes → Bytes
or_nil none = []
or_nil (some b) = b
