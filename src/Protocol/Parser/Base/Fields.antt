-- ===== src/Protocol/Parser/Base/Fields.antt =====
-- The nom parser of the base header, field by field, on inputs that are long enough and too short.
use zeroio.Common.{
  ℕ, ◌≤◌, ◌≡◌, ◌≢◌, refl, subst, List, [], ◌∷◌, ◌++◌, ok, ◌==◌, cut, true, false, length, arith,
}
use zeroio.Common.Words.{from_be}
use zeroio.Protocol.Constants.{protocol_version}
use zeroio.Protocol.External.{Fails, Nom}
use zeroio.Protocol.Parser.Base.{convert, parse_base_header_nom}

module _ {E : Type 0} (nom : Nom E) where
  open nom use {
    be_u8, be_u8_lem, be_u32_lem, be_u64_lem, take_ok, take_short, verify_ok, verify_refuses,
    verify_fails,
  }

  be_u8-cons : (b : ℕ) (rest : List ℕ) → be_u8 (b ∷ rest) ≡ ok (rest, b)
  be_u8-cons b rest =
      let e : from_be (b ∷ []) ≡ b = omega arith in
      subst (λ n. be_u8 (b ∷ rest) ≡ ok (rest, n)) e (be_u8_lem.reads (b ∷ []) rest refl)

  version_test : (v : ℕ) → v ≡ 1 → (v == protocol_version) ≡ true
  version_test v h = ground arith

  pub fields :
      (v t : ℕ) (c r hl pl rest : List ℕ)
      → v ≡ 1
      → length c ≡ 4
      → length r ≡ 16
      → length hl ≡ 4
      → length pl ≡ 8
      → parse_base_header_nom nom (v ∷ t ∷ (c ++ (r ++ (hl ++ (pl ++ rest)))))
        ≡ convert nom rest v t (from_be c) r (from_be hl) (from_be pl)
  unfolding parse_base_header_nom
  fields v t c r hl pl rest hv hc hr hh hp =
      let i4 : List ℕ = hl ++ (pl ++ rest) in
      let i3 : List ℕ = r ++ i4 in
      let i2 : List ℕ = c ++ i3 in
      rw (
        verify_ok be_u8 (λ w. w == protocol_version) (v ∷ t ∷ i2) (t ∷ i2) v (be_u8-cons v (t ∷ i2))
            (version_test v hv),
        be_u8-cons t i2,
        be_u32_lem.reads c i3 hc,
        subst (λ n. nom.take_bytes n (r ++ i4) ≡ ok (i4, r)) hr (take_ok r i4),
        be_u32_lem.reads hl (pl ++ rest) hh,
        be_u64_lem.reads pl rest hp,
      )

  -- Another version is refused, whatever follows it.
  pub wrong_version : (v : ℕ) (tail : List ℕ) → v ≢ 1 → Fails (parse_base_header_nom nom (v ∷ tail))
  unfolding parse_base_header_nom
  wrong_version v tail h =
      let refused : (v == protocol_version) ≡ false = ground arith in
      let (e, p) =
        verify_refuses be_u8 (λ w. w == protocol_version) (v ∷ tail) tail v (be_u8-cons v tail)
          refused in
      (e, rw p)

-- An input of at least 34 bytes, cut into the fields of the base header and the rest.
pub record Split (input : List ℕ) : Type 0 where
  pub version : ℕ
  pub type_u8 : ℕ
  pub client_id : List ℕ
  pub reserved : List ℕ
  pub header_length : List ℕ
  pub payload_length : List ℕ
  pub rest : List ℕ
  pub whole :
      input
      ≡ version ∷ type_u8 ∷ (client_id ++ (reserved ++ (header_length ++ (payload_length ++ rest))))
  pub client_id_bytes : length client_id ≡ 4
  pub reserved_bytes : length reserved ≡ 16
  pub header_length_bytes : length header_length ≡ 4
  pub payload_length_bytes : length payload_length ≡ 8

pub split : (input : List ℕ) → 34 ≤ length input → Split input
split [] h = absurd (omega arith)
split (v ∷ []) h = absurd (omega arith)
split (v ∷ t ∷ i2) h =
    let (c, i3, e3, lc, m3) = cut 4 i2 (omega arith) in
    let (r, i4, e4, lr, m4) = cut 16 i3 (omega arith) in
    let (hl, i5, e5, lh, m5) = cut 4 i4 (omega arith) in
    let (pl, i6, e6, lp, m6) = cut 8 i5 (omega arith) in
    record {
      version = v;
      type_u8 = t;
      client_id = c;
      reserved = r;
      header_length = hl;
      payload_length = pl;
      rest = i6;
      whole = cc (e3, e4, e5, e6);
      client_id_bytes = lc;
      reserved_bytes = lr;
      header_length_bytes = lh;
      payload_length_bytes = lp;
    }
