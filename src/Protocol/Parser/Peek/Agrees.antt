-- ===== src/Protocol/Parser/Peek/Agrees.antt =====
-- `peek_message_info` against the full parser of the base header.
use zeroio.Common.{
  ℕ, ◌≡◌, ◌≤◌, ◌≢◌, refl, sym, subst, List, [], ◌∷◌, ◌++◌, ok, err, ◌==◌, length, le→ltb, eq→==,
  Option-cases, inl, inr, false, arith,
}
use native.Mathlib.Decide.{ℕ_discrete}
use zeroio.Common.Words.{from_be}
use zeroio.Protocol.Errors.{ProtocolResult}
use zeroio.Protocol.External.{Nom}
use zeroio.Protocol.Types.MessageType.{MessageType, from_u8}
use zeroio.Protocol.Types.BaseHeader.{BaseHeader}
use zeroio.Protocol.Parser.Base.{convert, parse_base_header_nom, parse_base_header}
use zeroio.Protocol.Parser.Base.Fields.{fields, Split, split, wrong_version}
use zeroio.Protocol.Parser.Peek.{peek_bytes, peek_message_info}

-- The type and the client of a parsed base header.
abbrev pub info : BaseHeader → MessageType × ℕ
info h = (h.message_type, h.client_id)

-- Both succeed with the same answer, or both fail.
abbrev pub Agree : ProtocolResult BaseHeader → ProtocolResult (MessageType × ℕ) → Type 0
Agree (ok h) r = r ≡ ok (info h)
Agree (err e) (err f) = Unit
Agree _ _ = ⊥

module _ {E : Type 0} (nom : Nom E) where
  Agree-one :
      (v t : ℕ) (c r hl pl rest : List ℕ)
      → v ≡ 1
      → length c ≡ 4
      → parse_base_header_nom nom (v ∷ t ∷ (c ++ (r ++ (hl ++ (pl ++ rest)))))
        ≡ convert nom rest v t (from_be c) r (from_be hl) (from_be pl)
      → Agree
          (parse_base_header nom (v ∷ t ∷ (c ++ (r ++ (hl ++ (pl ++ rest))))))
          (peek_bytes (v ∷ t ∷ (c ++ (r ++ (hl ++ (pl ++ rest))))))
  unfolding parse_base_header peek_bytes convert
  Agree-one v t (a ∷ b ∷ d ∷ e ∷ []) r hl pl rest one lc p =
      rw (p, eq→== v 1 one)
        (elim (Option-cases (from_u8 t)) [
          | inl e' ↦ rw (e', convert) tt
          | inr (k, e') ↦ rw (e', convert) refl
        ])
  Agree-one v t c r hl pl rest one lc p = absurd (omega arith)

  Agree-other :
      (v t : ℕ) (c more : List ℕ)
      → v ≢ 1
      → length c ≡ 4
      → Agree (parse_base_header nom (v ∷ t ∷ (c ++ more))) (peek_bytes (v ∷ t ∷ (c ++ more)))
  unfolding parse_base_header peek_bytes
  Agree-other v t (a ∷ b ∷ d ∷ e ∷ []) more other lc =
      let (x, p) = wrong_version nom v (t ∷ a ∷ b ∷ d ∷ e ∷ more) other in
      let test : (v == 1) ≡ false = ground arith in rw (p, test) tt
  Agree-other v t c more other lc = absurd (omega arith)

  Agree-Split :
      (bytes : List ℕ) → Split bytes → Agree (parse_base_header nom bytes) (peek_bytes bytes)
  Agree-Split bytes s =
      subst (λ b. Agree (parse_base_header nom b) (peek_bytes b)) (sym s.whole)
        (elim (ℕ_discrete s.version 1) [
          | yes one ↦
              Agree-one s.version s.type_u8 s.client_id s.reserved s.header_length s.payload_length
                s.rest one s.client_id_bytes
                (fields nom s.version s.type_u8 s.client_id s.reserved s.header_length
                  s.payload_length s.rest one s.client_id_bytes s.reserved_bytes
                  s.header_length_bytes s.payload_length_bytes)
          | no other ↦ Agree-other s.version s.type_u8 s.client_id _ other s.client_id_bytes
        ])

  -- On 34 bytes or more, peeking gives the type and the client of the header that the full parser
  -- returns, and fails where the parser fails.
  pub peek_agrees :
      (bytes : List ℕ)
      → 34 ≤ length bytes
      → Agree (parse_base_header nom bytes) (peek_message_info bytes)
  unfolding peek_message_info
  peek_agrees bytes long = rw (le→ltb (length bytes) 34 long) (Agree-Split bytes (split bytes long))
