-- ===== src/Protocol/Message/Typed/Cache.antt =====
-- The caches of a message: what a second access returns.
use zeroio.Common.{◌≡◌, refl, ◌∙◌, ap, none, some, ok, panic, arith}
use zeroio.Protocol.External.{Buffers, Serde, Castable}
use zeroio.Protocol.Types.Header.{Header}
use zeroio.Protocol.Message.{Message, Cached, header, payload, raw_payload_bytes}
use zeroio.Protocol.Message.Typed.{payload_as, decode_typed}

module _ {V A : Type 0} (bufs : Buffers) (m : Message V A) where
  -- Reading the header or the payload again gives what the first reading gave, errors included,
  -- and leaves the message as the first reading left it.
  pub second_access :
      (serde_header : Serde (Header V)) (serde : Serde V) (nil : V)
      → (header serde_header bufs (header serde_header bufs m).1 ≡ header serde_header bufs m)
        × (payload serde nil bufs (payload serde nil bufs m).1 ≡ payload serde nil bufs m)
  unfolding header payload
  second_access serde_header serde nil = (ground arith, ground arith)

  -- The message after a first reading as `T`.
  abbrev typed : {T : Type 0} → Castable A T → T → Message V A
  typed cast t = record m { typed_payload_cache = some (cast.upcast t) }

  pub first_reading :
      {T : Type 0} (cast : Castable A T) (serde : Serde T) (t : T)
      → m.typed_payload_cache ≡ none
      → decode_typed cast serde bufs m ≡ ok t
      → payload_as cast serde bufs m ≡ (ok t, typed cast t)
  unfolding payload_as
  first_reading cast serde t empty d = ground (arith, cast.downcast-upcast t)

  decode_typed-typed :
      {T U : Type 0} (cast_t : Castable A T) (cast_u : Castable A U) (serde : Serde U) (t : T)
      → decode_typed cast_u serde bufs (typed cast_t t) ≡ decode_typed cast_u serde bufs m
  unfolding raw_payload_bytes
  decode_typed-typed cast_t cast_u serde t = refl

  module _ {T U : Type 0} (cast_t : Castable A T) (cast_u : Castable A U) (serde_t : Serde T)
      (serde_u : Serde U) where
    second_reading :
        (t : T) (u : U)
        → decode_typed cast_u serde_u bufs (typed cast_t t) ≡ ok u
        → cast_u.downcast_ref (cast_t.upcast t) ≡ none
        → payload_as cast_u serde_u bufs (typed cast_t t) ≡ (panic, typed cast_t t)
    unfolding payload_as
    second_reading t u d other = ground arith

    -- A payload is read as one type, with an empty cache, and then as another type that it decodes
    -- as too, into which the cached value cannot be cast: the first call returns its value, and the
    -- second one panics.
    pub other_type_panics :
        (t : T) (u : U)
        → m.typed_payload_cache ≡ none
        → decode_typed cast_t serde_t bufs m ≡ ok t
        → decode_typed cast_u serde_u bufs m ≡ ok u
        → cast_u.downcast_ref (cast_t.upcast t) ≡ none
        → ((payload_as cast_t serde_t bufs m).0 ≡ ok t)
          × ((payload_as cast_u serde_u bufs (payload_as cast_t serde_t bufs m).1).0 ≡ panic)
    other_type_panics t u empty dt du other = rw (first_reading cast_t serde_t t empty dt) (
      refl,
      ap (λ (r : Cached V A U). r.0)
          (second_reading t u (decode_typed-typed cast_t cast_u serde_u t ∙ du) other),
    )
