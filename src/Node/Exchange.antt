-- ===== src/Node/Exchange.antt =====
-- What one node stores, another fetches.
use dmail.Prelude.{ℕ, ◌≡◌, ◌≢◌, true, false, some, arith, ltb, length, ok}
use dmail.Prelude.Bytes.{Bytes}
use dmail.Pb.{DmailPacket, NameRecord, Wire, IsWire}
use dmail.Crypto.{Primitives}
use dmail.Packet
use dmail.Packet.Checks.{verify_iff}
use dmail.Names
use dmail.Node.{
  Dht, packet_key, packet_validate, names_validate, push, poll, register_name, resolve_name,
}

module _ (u : Bytes → Bytes) (p : Primitives) (w : Wire) {D : Type 0} (dht : Dht D)
    (wire : IsWire w) where
  -- A put that the DHT takes is what a get of its key returns.
  abbrev pub Stored : D → D → Bytes → Bytes → Type 0
  Stored d d' key value =
      (dht.put_value d key value ≡ (true, d')) × (dht.get_value d' key ≡ some value)

  -- A packet that `Verify` accepts and the DHT stores is pushed without an error, passes the DHT's
  -- validator under its key, and is what the node of its recipient polls.
  pub poll-push :
      (now : ℕ) (d d' : D) (pkt : DmailPacket) (content : Bytes)
      → w.marshal_packet pkt ≡ some content
      → Packet.verify p w now pkt ≡ ok tt
      → Stored d d' (packet_key u p w pkt.recipient_pubkey) content
      → (push u p w dht d pkt ≡ (ok tt, d'))
        × (packet_validate u p w now (packet_key u p w pkt.recipient_pubkey) content ≡ ok tt)
        × (poll u p w dht now d' pkt.recipient_pubkey ≡ ok pkt)
  unfolding push poll packet_validate
  poll-push now d d' pkt content e v (put, get) =
      let (b, e', fits) = ((verify_iff p w now pkt).0 v).sized in
      let read : w.unmarshal_packet content ≡ some pkt = wire.packet pkt content e in
      let small : ltb Packet.max_packet_size (length content) ≡ false = ground arith in
      (ground (arith, put), ground (arith, read), ground (arith, get, read))

  -- A genuine record that the DHT stores is registered without an error and resolved by its name.
  pub resolve_name-register_name :
      (d d' : D) (rec : NameRecord) (content : Bytes)
      → w.marshal_name rec ≡ some content
      → Names.verify_name_record u p rec ≡ ok tt
      → Stored d d' (Names.routing_key u p rec.name) content
      → (register_name u p w dht d rec ≡ (ok tt, d'))
        × (names_validate u p w (Names.routing_key u p rec.name) content ≡ ok tt)
        × (resolve_name u p w dht d' rec.name ≡ ok rec)
  unfolding register_name resolve_name names_validate
  resolve_name-register_name d d' rec content e v (put, get) =
      let read : w.unmarshal_name content ≡ some rec = wire.name rec content e in
      (ground (arith, put), ground (arith, read), ground (arith, get, read))

  -- Neither the validator nor `ResolveName` compares the record's name with the one asked for: a
  -- genuine record of one name, stored under the different key of another, passes the validator
  -- there and is what the other name resolves to.
  pub resolve_name_of_other :
      (d d' : D) (rec : NameRecord) (content asked : Bytes)
      → w.marshal_name rec ≡ some content
      → Names.verify_name_record u p rec ≡ ok tt
      → Names.routing_key u p asked ≢ Names.routing_key u p rec.name
      → Stored d d' (Names.routing_key u p asked) content
      → (names_validate u p w (Names.routing_key u p asked) content ≡ ok tt)
        × (resolve_name u p w dht d' asked ≡ ok rec)
  unfolding resolve_name names_validate
  resolve_name_of_other d d' rec content asked e v apart (put, get) =
      let read : w.unmarshal_name content ≡ some rec = wire.name rec content e in
      (ground (arith, read), ground (arith, get, read))
