-- ===== src/Protocol/Message/Raw/RoundTrip.antt =====
-- A `RawMessage` turned into a `Message` is read back whole.
use zeroio.Common.{
  ℕ, ◌≡◌, ◌<◌, refl, sym, ◌∙◌, ap, true, List, [], ok, length, arith, lt→ltb, le→ltb, map_err-eq-ok,
  Bool-cases, inl, inr, ok-injective, ◌⊎◌,
}
use zeroio.Protocol.External.{Nom, Buffers, Serde}
use zeroio.Protocol.Types.Header
use zeroio.Protocol.Types.Header.{Header, is_default}
use zeroio.Protocol.Types.BaseHeader
use zeroio.Protocol.Message.{
  Message, fresh, message_type, client_id, init_header, header, raw_payload_bytes,
}
use zeroio.Protocol.Message.Bytes.{frame_bytes, raw_header_bytes-frame, raw_payload_bytes-frame}
use zeroio.Protocol.Message.Raw.{RawMessage, header_bytes, into_message}
use zeroio.Protocol.Message.Raw.ToBytes.{sent_base, Fits, sent_base-IsFrame, into_message-frame}

-- `rmp_serde` reads back what it wrote for this value, and writes at least one byte.
pub record ReadsBack {T : Type 0} (serde : Serde T) (t : T) : Type 0 where
  pub reads_back : (bs : List ℕ) → serde.to_vec t ≡ ok bs → serde.from_slice bs ≡ ok t
  pub not_empty : (bs : List ℕ) → serde.to_vec t ≡ ok bs → 0 < length bs

is_default→new : {V : Type 0} (h : Header V) → is_default h ≡ true → h ≡ Header.new
is_default→new h e = ground arith

module _ {V : Type 0} (serde : Serde (Header V)) (m : RawMessage V) (hb : List ℕ) where
  -- The two ways in which `hb` is the serialized header.
  header_bytes-cases :
      header_bytes serde m ≡ ok hb
      → ((is_default m.header ≡ true) × (hb ≡ [])) ⊎ (serde.to_vec m.header ≡ ok hb)
  unfolding header_bytes
  header_bytes-cases e = elim (Bool-cases (is_default m.header)) [
    | inl t ↦ inl (t, sym (ok-injective (rw t at e)))
    | inr f ↦ inr (map_err-eq-ok _ (serde.to_vec m.header) hb (rw f at e))
  ]

module _ {V : Type 0} (A : Type 0) (serde : Serde (Header V)) (bufs : Buffers) (m : RawMessage V)
    (hb : List ℕ) where
  -- The message that arrives.
  abbrev pub received : Message V A
  received = fresh (sent_base m hb) (frame_bytes (sent_base m hb) hb m.payload_data)

  module _ (law : ReadsBack serde m.header) (e : header_bytes serde m ≡ ok hb)
      (fits : Fits m hb) where
    init_header-received : init_header serde bufs received ≡ ok m.header
    unfolding init_header
    init_header-received = elim (header_bytes-cases serde m hb e) [
      | inl (default, nothing) ↦
          let none_sent : (sent_base m hb).header_length ≡ 0 =
            sym (sent_base-IsFrame m hb fits).header_bytes_ok ∙ ap length nothing in
          rw (le→ltb 0 (sent_base m hb).header_length (omega arith))
            (ap ok (sym (is_default→new m.header default)))
      | inr wrote ↦
          let some_sent : length hb ≡ (sent_base m hb).header_length =
            (sent_base-IsFrame m hb fits).header_bytes_ok in
          rw (
            lt→ltb 0 (sent_base m hb).header_length (omega (arith, law.not_empty hb wrote)),
            raw_header_bytes-frame V A bufs (sent_base-IsFrame m hb fits),
            law.reads_back hb wrote,
          )
    ]

    pub header-received : (header serde bufs received).0 ≡ ok m.header
    unfolding header
    header-received = rw init_header-received

    -- A message whose sizes are within the protocol's limits, and whose header the serializer reads
    -- back, is turned into a `Message` with the same type, client and payload bytes, and reading
    -- its header gives the header that was sent.
    pub into_message_round_trip :
        {E : Type 0} (nom : Nom E)
        → (into_message nom serde m ≡ ok received)
          × (message_type received ≡ m.message_type)
          × (client_id received ≡ m.client_id)
          × ((header serde bufs received).0 ≡ ok m.header)
          × (raw_payload_bytes bufs received ≡ ok m.payload_data)
    unfolding BaseHeader.new
    into_message_round_trip nom = (
      into_message-frame m hb nom serde e fits,
      refl,
      refl,
      header-received,
      raw_payload_bytes-frame V A bufs (sent_base-IsFrame m hb fits),
    )
