-- ===== src/Node.antt =====
-- pkg/node/node.go: the DHT node's validators, and what it stores and fetches. The DHT is the
-- parameter `Dht` over a state `D`; contexts and their timeouts are part of its answers.
pub mod Exchange
pub mod Select
use dmail.Prelude.{
  ◌>>=◌, ◌>>◌, ℕ, ◌+◌, Bool, true, false, ◌||◌, Option, none, some, List, [], ◌∷◌, ◌++◌, ltb, ◌==◌,
  if◌then◌else◌, length, Result, ok, err, fail_if, wrap, or_err,
}
use dmail.Prelude.Bytes.{Bytes, codes}
use dmail.Pb.{DmailPacket, NameRecord, Wire}
use dmail.Crypto.{Primitives}
use dmail.Packet
use dmail.Packet.{max_packet_size}
use dmail.Names

-- `PutValue`, with whether it succeeded, and `GetValue`.
pub record Dht (D : Type 0) : Type 0 where
  pub put_value : D → Bytes → Bytes → Bool × D
  pub get_value : D → Bytes → Option Bytes

pub data Error : Type 0 where
  cannot_marshal too_large dht_put dht_get cannot_unmarshal no_values : Error
  bad_packet : Packet.Error → Error
  bad_name : Names.Error → Error

-- A put that failed is an error; what it did to the network stays.
abbrev pub put_verdict : {D : Type 0} → Bool × D → Result Error (Unit {0}) × D
put_verdict (true, d) = (ok tt, d)
put_verdict (false, d) = (err dht_put, d)

module _ (u : Bytes → Bytes) (p : Primitives) (w : Wire) where
  -- `RoutingKey` of this package.
  unfoldable pub packet_key : Bytes → Bytes
  packet_key pub_key = codes "/dmail/" ++ Names.hex (p.sha256 pub_key)

  -- dmailValidator
  unfoldable pub packet_validate : ℕ → Bytes → Bytes → Result Error (Unit {0})
  packet_validate now key value = do
    fail_if (ltb max_packet_size (length value)) too_large
    pkt ← or_err cannot_unmarshal (w.unmarshal_packet value)
    wrap bad_packet (Packet.verify p w now pkt)

  unfoldable pub packet_select : Bytes → List Bytes → Result Error ℕ
  packet_select key [] = err no_values
  packet_select key (v ∷ values) = ok 0

  -- namesValidator
  unfoldable pub names_validate : Bytes → Bytes → Result Error (Unit {0})
  names_validate key value = do
    rec ← or_err cannot_unmarshal (w.unmarshal_name value)
    wrap bad_name (Names.verify_name_record u p rec)

  -- `if bestTS == 0 || rec.Timestamp < bestTS`: the new best index and timestamp.
  unfoldable pub take_earlier : ℕ → NameRecord → ℕ → ℕ → ℕ × ℕ
  take_earlier i rec best_idx best_ts =
      if best_ts == 0 || ltb rec.timestamp best_ts then (i, rec.timestamp) else (best_idx, best_ts)

  -- One round of the loop of `Select`; the two tests `continue`.
  unfoldable pub select_step : ℕ → Bytes → ℕ → ℕ → ℕ × ℕ
  unfolding take_earlier
  select_step i value best_idx best_ts = elim (w.unmarshal_name value) [
    | none ↦ (best_idx, best_ts)
    | some rec ↦ elim (Names.verify_name_record u p rec) [
      | err _ ↦ (best_idx, best_ts)
      | ok _ ↦ take_earlier i rec best_idx best_ts
    ]
  ]

  unfoldable pub select_loop : List Bytes → ℕ → ℕ → ℕ → ℕ
  unfolding select_step
  select_loop [] i best_idx best_ts = best_idx
  select_loop (v ∷ values) i best_idx best_ts =
      let (idx, ts) = select_step i v best_idx best_ts in select_loop values (i + 1) idx ts

  unfoldable pub names_select : Bytes → List Bytes → Result Error ℕ
  unfolding select_loop
  names_select key [] = err no_values
  names_select key (v ∷ values) = ok (select_loop (v ∷ values) 0 0 0)

  module _ {D : Type 0} (dht : Dht D) where
    unfoldable pub push_data : D → DmailPacket → Option Bytes → Result Error (Unit {0}) × D
    push_data d pkt none = (err cannot_marshal, d)
    push_data d pkt (some content) =
        if ltb max_packet_size (length content)
        then (err too_large, d)
        else put_verdict (dht.put_value d (packet_key pkt.recipient_pubkey) content)

    unfoldable pub push : D → DmailPacket → Result Error (Unit {0}) × D
    unfolding push_data
    push d pkt = push_data d pkt (w.marshal_packet pkt)

    -- `pub_key` is that of the node's key pair.
    unfoldable pub poll : ℕ → D → Bytes → Result Error DmailPacket
    poll now d pub_key = do
      content ← or_err dht_get (dht.get_value d (packet_key pub_key))
      fail_if (ltb max_packet_size (length content)) too_large
      pkt ← or_err cannot_unmarshal (w.unmarshal_packet content)
      wrap bad_packet (Packet.verify p w now pkt)
      ok pkt

    unfoldable pub register_data : D → NameRecord → Option Bytes → Result Error (Unit {0}) × D
    register_data d rec none = (err cannot_marshal, d)
    register_data d rec (some content) =
        put_verdict (dht.put_value d (Names.routing_key u p rec.name) content)

    unfoldable pub register_name : D → NameRecord → Result Error (Unit {0}) × D
    unfolding register_data
    register_name d rec = register_data d rec (w.marshal_name rec)

    unfoldable pub resolve_name : D → Bytes → Result Error NameRecord
    resolve_name d name = do
      content ← or_err dht_get (dht.get_value d (Names.routing_key u p name))
      rec ← or_err cannot_unmarshal (w.unmarshal_name content)
      wrap bad_name (Names.verify_name_record u p rec)
      ok rec
