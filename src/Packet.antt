-- ===== src/Packet.antt =====
-- pkg/packet/packet.go: building, checking and opening packets. The time, the message id and the
-- nonce of the encryption are arguments.
pub mod Checks
pub mod Delivery
use dmail.Prelude.{
  ◌>>=◌, ◌>>◌, ℕ, ◌+◌, ◌*◌, not, Option, [], ltb, length, Result, ok, fail_if, wrap, or_err,
}
use dmail.Prelude.Bytes.{Bytes}
use dmail.Clock.{hour, unix, from_unix, is_after, is_older}
use dmail.Pb.{DmailPacket, Payload, Wire, or_nil}
use dmail.Crypto
use dmail.Crypto.{Primitives}
use dmail.Crypto.Keys.{KeyPair}
use dmail.Crypto.Encrypt.{encrypt, decrypt, sign, verify_signature}
use dmail.Pow

abbrev pub protocol_version : ℕ
protocol_version = 1

abbrev pub max_packet_size : ℕ
max_packet_size = 256 * 1024

abbrev pub max_future_skew : ℕ
max_future_skew = 1 * hour

abbrev pub max_past_skew : ℕ
max_past_skew = 24 * hour

-- `panicked` is a panic: an index out of range in the proof of work, or a key of the wrong length.
pub data Error : Type 0 where
  cannot_marshal too_large in_future too_old invalid_pow invalid_signature panicked : Error
  cannot_unmarshal : Error
  in_crypto : Crypto.Error → Error

module _ (p : Primitives) (w : Wire) where
  -- Fields 1-6: no nonce and no signature.
  unfoldable pub signable_bytes : DmailPacket → Bytes
  signable_bytes pkt = or_nil (
      w.marshal_packet (record {
        version = pkt.version;
        recipient_pubkey = pkt.recipient_pubkey;
        sender_pubkey = pkt.sender_pubkey;
        timestamp = pkt.timestamp;
        pow_nonce = 0;
        pow_difficulty = pkt.pow_difficulty;
        encrypted_payload = pkt.encrypted_payload;
        signature = [];
      }))

  -- Fields 1-7: no signature.
  unfoldable pub signable_bytes_with_nonce : DmailPacket → Bytes
  signable_bytes_with_nonce pkt = or_nil (
      w.marshal_packet (record {
        version = pkt.version;
        recipient_pubkey = pkt.recipient_pubkey;
        sender_pubkey = pkt.sender_pubkey;
        timestamp = pkt.timestamp;
        pow_nonce = pkt.pow_nonce;
        pow_difficulty = pkt.pow_difficulty;
        encrypted_payload = pkt.encrypted_payload;
        signature = [];
      }))

  unfoldable pub build :
      Bytes
      → Bytes
      → Bytes
      → KeyPair
      → Bytes
      → ℕ
      → ℕ
      → Bytes
      → Option Bytes
      → Result Error DmailPacket
  unfolding signable_bytes signable_bytes_with_nonce encrypt sign
  build subject body reply_to_id sender recipient_pub difficulty now message_id random = do
    payload_bytes ← or_err cannot_marshal (
        w.marshal_payload (record {
          message_id = message_id;
          subject = subject;
          body = body;
          reply_to_id = reply_to_id;
        }))
    encrypted ← wrap in_crypto (encrypt p payload_bytes recipient_pub sender.private_key random)
    let pkt : DmailPacket = record {
      version = protocol_version;
      recipient_pubkey = recipient_pub;
      sender_pubkey = sender.public_key;
      timestamp = unix now;
      pow_nonce = 0;
      pow_difficulty = difficulty;
      encrypted_payload = encrypted;
      signature = [];
    }
    nonce ← or_err panicked (Pow.compute p.sha256 (signable_bytes pkt) difficulty)
    let stamped = record pkt { pow_nonce = nonce }
    ok (record stamped {
      signature = sign p (signable_bytes_with_nonce stamped) sender.private_key;
    })

  unfoldable pub verify : ℕ → DmailPacket → Result Error (Unit {0})
  unfolding signable_bytes signable_bytes_with_nonce verify_signature
  verify now pkt = do
    content ← or_err cannot_marshal (w.marshal_packet pkt)
    fail_if (ltb max_packet_size (length content)) too_large
    let pkt_time = from_unix pkt.timestamp
    fail_if (is_after pkt_time (now + max_future_skew)) in_future
    fail_if (is_older pkt_time now max_past_skew) too_old
    solved ←
        or_err panicked (Pow.verify p.sha256 (signable_bytes pkt) pkt.pow_nonce pkt.pow_difficulty)
    fail_if (not solved) invalid_pow
    signed ←
        or_err panicked
          (verify_signature p (signable_bytes_with_nonce pkt) pkt.signature pkt.sender_pubkey)
    fail_if (not signed) invalid_signature

  -- `Decrypt` of this package.
  unfoldable pub open_payload : DmailPacket → Bytes → Result Error Payload
  unfolding decrypt
  open_payload pkt recipient_priv = do
    plaintext ← wrap in_crypto (decrypt p pkt.encrypted_payload pkt.sender_pubkey recipient_priv)
    or_err cannot_unmarshal (w.unmarshal_payload plaintext)

  unfoldable pub decrypt_raw : Bytes → Bytes → Result Error Payload
  unfolding open_payload
  decrypt_raw raw recipient_priv = do
    pkt ← or_err cannot_unmarshal (w.unmarshal_packet raw)
    open_payload pkt recipient_priv

  unfoldable pub unmarshal_and_verify : ℕ → Bytes → Result Error DmailPacket
  unfolding verify
  unmarshal_and_verify now raw = do
    pkt ← or_err cannot_unmarshal (w.unmarshal_packet raw)
    verify now pkt
    ok pkt
