-- ===== src/Protocol/Parser/Stream/Corrupt.antt =====
-- A stream whose next 34 bytes are no base header: `try_parse` takes it for one that is incomplete.
use zeroio.Common.{
  ℕ, ◌+◌, ◌≡◌, ◌≢◌, ◌≤◌, ◌<◌, ◌⊎◌, sym, ◌∙◌, ap, subst, none, List, [], ◌∷◌, ◌++◌, Result, ok,
  map_ok, map_err, length, length-append, length-take, take, append-nil, arith, ltb, le→ltb,
  Bool-cases, inl, inr,
}
use native.Mathlib.Decide.{ℕ_discrete}
use zeroio.Common.Words.{from_be}
use zeroio.Protocol.External.{Fails, Nom, Buffers, tag}
use zeroio.Protocol.Types.MessageType.{from_u8}
use zeroio.Protocol.Parser.Base.{convert, parse_base_header_nom, parse_base_header}
use zeroio.Protocol.Parser.Base.Fields.{fields, Split, split, wrong_version}
use zeroio.Protocol.Parser.Stream.{MessageParser, push_data, try_parse}

-- 34 bytes or more that begin with another version, or with an unknown message type.
pub record IsCorrupt (bytes : List ℕ) : Type 0 where
  pub version : ℕ
  pub type_u8 : ℕ
  pub tail : List ℕ
  pub whole : bytes ≡ version ∷ type_u8 ∷ tail
  pub long : 34 ≤ length bytes
  pub wrong : (version ≢ 1) ⊎ (7 < type_u8)

from_u8-high : (t : ℕ) → 7 < t → from_u8 t ≡ none
unfolding from_u8
from_u8-high t h = ground arith

Fails-map :
    {E F A B : Type 0} (f : E → F) (g : A → B) (r : Result E A)
    → Fails r
    → Fails (map_err f (map_ok g r))
Fails-map f g r (e, p) = (f e, ap (λ x. map_err f (map_ok g x)) p)

module _ {E : Type 0} (nom : Nom E) where
  convert-Fails :
      (i : List ℕ) (v t c : ℕ) (r : List ℕ) (hl pl : ℕ)
      → 7 < t
      → Fails (convert nom i v t c r hl pl)
  unfolding convert
  convert-Fails i v t c r hl pl h = (nom.error i tag, rw (from_u8-high t h, convert))

  high_type :
      (bytes : List ℕ) (s : Split bytes) → 7 < s.type_u8 → Fails (parse_base_header_nom nom bytes)
  high_type bytes s h = elim (ℕ_discrete s.version 1) [
    | yes one ↦
        let (e, p) =
          convert-Fails s.rest s.version s.type_u8 (from_be s.client_id) s.reserved
            (from_be s.header_length) (from_be s.payload_length) h in
        (
          e,
          ap (parse_base_header_nom nom) s.whole
              ∙ fields nom s.version s.type_u8 s.client_id s.reserved s.header_length
                  s.payload_length s.rest one s.client_id_bytes s.reserved_bytes
                  s.header_length_bytes s.payload_length_bytes
              ∙ p,
        )
    | no other ↦
        subst (λ b. Fails (parse_base_header_nom nom b)) (sym s.whole)
          (wrong_version nom s.version _ other)
  ]

  parse_base_header_nom-corrupt :
      (bytes : List ℕ) → IsCorrupt bytes → Fails (parse_base_header_nom nom bytes)
  parse_base_header_nom-corrupt bytes c = elim c.wrong [
    | inl other ↦
        subst (λ b. Fails (parse_base_header_nom nom b)) (sym c.whole)
          (wrong_version nom c.version (c.type_u8 ∷ c.tail) other)
    | inr high ↦
        let s = split bytes c.long in
        let same : ◌≡◌ {A = ℕ} s.type_u8 c.type_u8 = cc (s.whole, c.whole) in
        high_type bytes s (omega arith)
  ]

  parse_base_header-corrupt :
      (bytes : List ℕ) → IsCorrupt bytes → Fails (parse_base_header nom bytes)
  unfolding parse_base_header
  parse_base_header-corrupt bytes c =
      Fails-map _ _ (parse_base_header_nom nom bytes) (parse_base_header_nom-corrupt bytes c)

-- More bytes behind such a front change nothing, and the front alone is enough.
append-IsCorrupt : (bytes more : List ℕ) → IsCorrupt bytes → IsCorrupt (bytes ++ more)
append-IsCorrupt bytes more c = record {
  version = c.version;
  type_u8 = c.type_u8;
  tail = c.tail ++ more;
  whole = ap (λ b. b ++ more) c.whole;
  long = let l : 34 ≤ length bytes = c.long in omega (arith, length-append {0} bytes more);
  wrong = c.wrong;
}

front-IsCorrupt : (bytes : List ℕ) → IsCorrupt bytes → IsCorrupt (take 34 bytes)
front-IsCorrupt bytes c = record {
  version = c.version;
  type_u8 = c.type_u8;
  tail = take 32 c.tail;
  whole = ap (take 34) c.whole;
  long = let l : 34 ≤ length bytes = c.long in omega (arith, length-take {0} 34 bytes);
  wrong = c.wrong;
}

push_data_buffer :
    (bufs : Buffers) (p : MessageParser) (more : List ℕ)
    → (extra : List ℕ) × ((push_data bufs p more).1.buffer ≡ p.buffer ++ extra)
unfolding push_data
push_data_buffer bufs p more =
    elim (Bool-cases (ltb p.max_message_size (length p.buffer + length more))) [
      | inl full ↦ ([], rw (full, append-nil))
      | inr room ↦ (more, rw room (bufs.extend_lem p.buffer more))
    ]

module _ {E : Type 0} (V A : Type 0) (nom : Nom E) (bufs : Buffers) where
  try_parse-corrupt :
      (p : MessageParser) → IsCorrupt p.buffer → try_parse {V = V} {A = A} nom bufs p ≡ (ok none, p)
  unfolding try_parse
  try_parse-corrupt p c =
      let (e, q) = parse_base_header-corrupt nom (take 34 p.buffer) (front-IsCorrupt p.buffer c) in
      rw (le→ltb (length p.buffer) 34 c.long, q)

  -- A parser whose buffer holds 34 bytes or more that begin with another version or an unknown
  -- message type never reports it: whatever is pushed next, `try_parse` returns `None` and leaves
  -- the parser as it is, and the buffer still begins so.
  pub IsCorrupt-never_ends :
      (p : MessageParser) (more : List ℕ)
      → IsCorrupt p.buffer
      → (try_parse {V = V} {A = A} nom bufs (push_data bufs p more).1
          ≡ (ok none, (push_data bufs p more).1))
        × IsCorrupt (push_data bufs p more).1.buffer
  IsCorrupt-never_ends p more c = (try_parse-corrupt (push_data bufs p more).1 still, still)
    where
      still : IsCorrupt (push_data bufs p more).1.buffer
      still =
          let (extra, e) = push_data_buffer bufs p more in
          subst IsCorrupt (sym e) (append-IsCorrupt p.buffer extra c)
