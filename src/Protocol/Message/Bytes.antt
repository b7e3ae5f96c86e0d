-- ===== src/Protocol/Message/Bytes.antt =====
-- `Message::from_bytes` and the slices of the raw bytes.
use zeroio.Common.{
  ℕ, ◌+◌, ◌-◌, ◌≡◌, ◌≤◌, refl, sym, ap, ◌∙◌, subst, subst₂, some, List, [], ◌∷◌, ◌++◌, ok, ltb,
  ◌==◌, length, length-append, take, take-append, drop-append, >>=-eq-ok, All, arith, ok-injective,
  err-ne-ok, le→ltb, eq→==, Bool-cases, inl, inr, append_assoc, append-nil, or_panic, cut, ==→eq,
  ltb→le,
}
use zeroio.Common.Words.{IsByte, as_u64}
use zeroio.Protocol.External.{Nom, Buffers}
use zeroio.Protocol.Types.BaseHeader.{
  BaseHeader, IsValid, NoOverflow, encode, length-encode, total_message_size, total_of_NoOverflow,
}
use zeroio.Protocol.Parser.Base.{parse_base_header}
use zeroio.Protocol.Parser.Base.RoundTrip.{parse_base_header-encode}
use zeroio.Protocol.Parser.Base.Soundness.{parse_base_header_sound}
use zeroio.Protocol.Message.{
  Message, fresh, of_parsed, from_bytes, raw_header_bytes, raw_payload_bytes,
}

-- The bytes of a message: its base header, the serialized header and the payload, of the lengths
-- that the base header announces.
pub record IsFrame (h : BaseHeader) (hb pb : List ℕ) : Type 0 where
  pub base_ok : IsValid h
  pub no_overflow : NoOverflow h
  pub header_bytes_ok : length hb ≡ h.header_length
  pub payload_bytes_ok : length pb ≡ h.payload_length

abbrev pub frame_bytes : BaseHeader → List ℕ → List ℕ → List ℕ
frame_bytes h hb pb = encode h ++ (hb ++ pb)

module _ {h : BaseHeader} {hb pb : List ℕ} (f : IsFrame h hb pb) where
  pub length-frame_bytes : length (frame_bytes h hb pb) ≡ 34 + h.header_length + h.payload_length
  length-frame_bytes = omega (
    arith,
    length-append {0} (encode h) (hb ++ pb),
    length-append {0} hb pb,
    length-encode h f.base_ok.reserved_ok,
    f.header_bytes_ok,
    f.payload_bytes_ok,
  )

  pub total-frame_bytes : total_message_size h ≡ length (frame_bytes h hb pb)
  total-frame_bytes = total_of_NoOverflow h f.no_overflow ∙ sym length-frame_bytes

  of_parsed-frame :
      {V A : Type 0}
      → of_parsed {V = V} {A = A} (frame_bytes h hb pb) h ≡ ok (fresh h (frame_bytes h hb pb))
  unfolding of_parsed
  of_parsed-frame = rw (eq→== _ _ (sym total-frame_bytes))

  pub from_bytes-frame :
      {E V A : Type 0} (nom : Nom E)
      → from_bytes {V = V} {A = A} nom (frame_bytes h hb pb) ≡ ok (fresh h (frame_bytes h hb pb))
  unfolding from_bytes
  from_bytes-frame {V = V} {A = A} nom = rw (
    le→ltb (length (frame_bytes h hb pb)) 34 (omega (arith, length-frame_bytes)),
    parse_base_header-encode nom h (hb ++ pb) f.base_ok,
    of_parsed-frame {V = V} {A = A},
  )

-- A slice between two cuts of a list is what stands between them.
slice_middle :
    (bufs : Buffers) (a b c : List ℕ)
    → bufs.slice (length a) (length a + length b) (a ++ (b ++ c)) ≡ some b
slice_middle bufs a b c =
    bufs.slice_ok (length a) (length a + length b) (a ++ (b ++ c)) (omega arith)
      (omega (arith, length-append {0} a (b ++ c), length-append {0} b c))
    ∙ rw (drop-append a (b ++ c))
        (subst (λ n. some (take n (b ++ c)) ≡ some b) back (ap (λ t. some t) (take-append b c)))
  where
    back : length b ≡ length a + length b - length a
    back = omega arith

eq-nil_of_length : (xs : List ℕ) → length xs ≡ 0 → xs ≡ []
eq-nil_of_length [] e = refl
eq-nil_of_length (x ∷ xs) e = absurd (omega arith)

module _ (V A : Type 0) (bufs : Buffers) {h : BaseHeader} {hb pb : List ℕ}
    (f : IsFrame h hb pb) where
  pub raw_header_bytes-frame :
      raw_header_bytes bufs (fresh {V = V} {A = A} h (frame_bytes h hb pb)) ≡ ok hb
  unfolding raw_header_bytes
  raw_header_bytes-frame = elim (Bool-cases (h.header_length == 0)) [
    | inl z ↦
        rw z (ap ok (sym (eq-nil_of_length hb (f.header_bytes_ok ∙ ==→eq h.header_length 0 z))))
    | inr nz ↦ rw nz (ap or_panic cut_out)
  ]
    where
      cut_out : bufs.slice 34 (34 + h.header_length) (frame_bytes h hb pb) ≡ some hb
      cut_out =
          subst₂ (λ n k. bufs.slice n (n + k) (frame_bytes h hb pb) ≡ some hb)
            (length-encode h f.base_ok.reserved_ok) f.header_bytes_ok
            (slice_middle bufs (encode h) hb pb)

  pub raw_payload_bytes-frame :
      raw_payload_bytes bufs (fresh {V = V} {A = A} h (frame_bytes h hb pb)) ≡ ok pb
  unfolding raw_payload_bytes
  raw_payload_bytes-frame = elim (Bool-cases (h.payload_length == 0)) [
    | inl z ↦
        rw z (ap ok (sym (eq-nil_of_length pb (f.payload_bytes_ok ∙ ==→eq h.payload_length 0 z))))
    | inr nz ↦ rw nz (ap or_panic cut_out)
  ]
    where
      front : length (encode h ++ hb) ≡ 34 + h.header_length
      front = omega (
        arith,
        length-append {0} (encode h) hb,
        length-encode h f.base_ok.reserved_ok,
        f.header_bytes_ok,
      )

      last :
          34 + h.header_length + h.payload_length ≡ as_u64 (34 + h.header_length + h.payload_length)
      last = let small : NoOverflow h = f.no_overflow in omega arith

      whole : (encode h ++ hb) ++ (pb ++ []) ≡ frame_bytes h hb pb
      whole = rw append-nil (append_assoc (encode h) hb pb)

      cut_out :
          bufs.slice
            (34 + h.header_length)
            (as_u64 (34 + h.header_length + h.payload_length))
            (frame_bytes h hb pb)
          ≡ some pb
      cut_out = rw (← last) (
          rw (← whole) (
            subst₂ (λ n k. bufs.slice n (n + k) ((encode h ++ hb) ++ (pb ++ [])) ≡ some pb) front
              f.payload_bytes_ok (slice_middle bufs (encode h ++ hb) pb [])))

frame_cut :
    (h : BaseHeader) (rest : List ℕ)
    → IsValid h
    → NoOverflow h
    → length (encode h ++ rest) ≡ total_message_size h
    → (hb : List ℕ) × (pb : List ℕ) × (rest ≡ hb ++ pb) × IsFrame h hb pb
frame_cut h rest valid small size =
    let total : length rest ≡ h.header_length + h.payload_length = omega (
      arith,
      size,
      total_of_NoOverflow h small,
      length-append {0} (encode h) rest,
      length-encode h valid.reserved_ok,
    ) in
    let (hb, pb, parts, lh, lp) = cut h.header_length rest (omega arith) in
    (
      hb,
      pb,
      parts,
      record {
        base_ok = valid;
        no_overflow = small;
        header_bytes_ok = lh;
        payload_bytes_ok = omega arith;
      },
    )

module _ {E V A : Type 0} (nom : Nom E) where
  of_parsed-eq-ok :
      (bytes : List ℕ) (h : BaseHeader) (m : Message V A)
      → of_parsed bytes h ≡ ok m
      → (length bytes ≡ total_message_size h) × (m ≡ fresh h bytes)
  unfolding of_parsed
  of_parsed-eq-ok bytes h m e = elim (Bool-cases (length bytes == total_message_size h)) [
    | inl t ↦ (==→eq _ _ t, sym (ok-injective (rw t at e)))
    | inr f ↦ err-ne-ok (rw f at e)
  ]

  from_bytes-eq-ok :
      (bytes : List ℕ) (m : Message V A)
      → from_bytes nom bytes ≡ ok m
      → (34 ≤ length bytes)
        × ((h : BaseHeader) × (parse_base_header nom bytes ≡ ok h) × (of_parsed bytes h ≡ ok m))
  unfolding from_bytes
  from_bytes-eq-ok bytes m e = elim (Bool-cases (ltb (length bytes) 34)) [
    | inl t ↦ err-ne-ok (rw t at e)
    | inr f ↦ (ltb→le _ _ f, >>=-eq-ok (parse_base_header nom bytes) (of_parsed bytes) (rw f at e))
  ]

  -- A message that `from_bytes` makes, if the sizes that it announces do not overflow a u64, comes
  -- from the encoding of its valid base header, header bytes and payload bytes of the announced
  -- lengths, and nothing else; its caches are empty.
  pub from_bytes_sound :
      (bytes : List ℕ) (m : Message V A)
      → All IsByte bytes
      → from_bytes nom bytes ≡ ok m
      → NoOverflow m.base_header
      → (hb : List ℕ) × (pb : List ℕ) × (bytes ≡ frame_bytes m.base_header hb pb)
        × IsFrame m.base_header hb pb
        × (m ≡ fresh m.base_header bytes)
  from_bytes_sound bytes m all e small =
      let (long, (h, p, q)) = from_bytes-eq-ok bytes m e in
      let (size, is_fresh) = of_parsed-eq-ok bytes h m q in
      let (rest, whole, valid) = parse_base_header_sound nom bytes h all long p in
      let small' : NoOverflow h =
        subst (λ (x : Message V A). NoOverflow x.base_header) is_fresh small in
      let (hb, pb, parts, frame) = frame_cut h rest valid small' (ap length (sym whole) ∙ size) in
      subst
        (λ (x : Message V A).
          (hb : List ℕ) × (pb : List ℕ) × (bytes ≡ frame_bytes x.base_header hb pb)
          × IsFrame x.base_header hb pb
          × (x ≡ fresh x.base_header bytes))
        (sym is_fresh) (hb, pb, whole ∙ ap (λ t. encode h ++ t) parts, frame, refl)
