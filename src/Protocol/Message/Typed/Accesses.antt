-- ===== src/Protocol/Message/Typed/Accesses.antt =====
-- The accessors of a message of crates/protocol/src/message.rs in any order: `header`, `payload`,
-- `payload_as` and `clear_cache`.
use zeroio.Common.{
  ℕ, ◌≡◌, refl, ◌∙◌, sym, ap, Option, none, some, List, [], ◌∷◌, map, subst, arith, ok, err, panic,
}
use zeroio.Protocol.Errors.{ProtocolResult}
use zeroio.Protocol.External.{Buffers, Serde, Castable}
use zeroio.Protocol.Types.Header.{Header}
use zeroio.Protocol.Types.BaseHeader.{BaseHeader}
use zeroio.Protocol.Message.{
  Message, header, payload, init_header, init_payload, raw_header_bytes, raw_payload_bytes, fresh,
  clear_cache,
}
use zeroio.Protocol.Message.Typed.{payload_as, decode_typed}

pub data Access : Type 0 where
  reads_header reads_payload reads_typed clears : Access

-- What the caller of an accessor gets.
pub data Seen (V T : Type 0) : Type 0 where
  saw_header : ProtocolResult (Header V) → Seen V T
  saw_payload : ProtocolResult V → Seen V T
  saw_typed : ProtocolResult T → Seen V T
  saw_nothing : Seen V T

-- A cached value is the one that decoding gives.
abbrev Agrees : {B : Type 0} → Option B → ProtocolResult B → Type 0
Agrees none r = Unit {0}
Agrees (some b) r = r ≡ ok b

abbrev AgreesTyped : {A T : Type 0} → Castable A T → Option A → ProtocolResult T → Type 0
AgreesTyped cast none r = Unit {0}
AgreesTyped {T} cast (some a) r = (t : T) × (a ≡ cast.upcast t) × (r ≡ ok t)

module _ {V A T : Type 0} (cast : Castable A T) (serde_header : Serde (Header V)) (serde : Serde V)
    (nil : V) (serde_t : Serde T) (bufs : Buffers) where
  abbrev pub access : Access → Message V A → Seen V T × Message V A
  access reads_header m = let (r, m') = header serde_header bufs m in (saw_header r, m')
  access reads_payload m = let (r, m') = payload serde nil bufs m in (saw_payload r, m')
  access reads_typed m = let (r, m') = payload_as cast serde_t bufs m in (saw_typed r, m')
  access clears m = (saw_nothing, clear_cache m)

  -- One call after the other, on one message.
  abbrev pub accesses : List Access → Message V A → List (Seen V T)
  accesses [] m = []
  accesses (a ∷ rest) m = (access a m).0 ∷ accesses rest (access a m).1

  module _ (base : BaseHeader) (bytes : List ℕ) where
    abbrev with_caches : Option (Header V) → Option V → Option A → Message V A
    with_caches h p t = record {
      base_header = base;
      raw_data = bytes;
      header_cache = h;
      payload_cache = p;
      typed_payload_cache = t;
    }

    abbrev first : Message V A
    first = fresh base bytes

    record IsCoherent (m : Message V A) : Type 0 where
      h : Option (Header V)
      p : Option V
      t : Option A
      same : m ≡ with_caches h p t
      h_ok : Agrees h (init_header serde_header bufs first)
      p_ok : Agrees p (init_payload serde nil bufs first)
      t_ok : AgreesTyped cast t (decode_typed cast serde_t bufs first)

    -- The bytes of a message do not depend on its caches.
    init_header-caches :
        (h : Option (Header V)) (p : Option V) (t : Option A)
        → init_header serde_header bufs (with_caches h p t) ≡ init_header serde_header bufs first
    unfolding init_header raw_header_bytes
    init_header-caches h p t = refl

    init_payload-caches :
        (h : Option (Header V)) (p : Option V) (t : Option A)
        → init_payload serde nil bufs (with_caches h p t) ≡ init_payload serde nil bufs first
    unfolding init_payload raw_payload_bytes
    init_payload-caches h p t = refl

    decode_typed-caches :
        (h : Option (Header V)) (p : Option V) (t : Option A)
        → decode_typed cast serde_t bufs (with_caches h p t) ≡ decode_typed cast serde_t bufs first
    unfolding raw_payload_bytes
    decode_typed-caches h p t = refl

    -- What an accessor gives where nothing is cached.
    abbrev decoded : Access → Seen V T
    decoded reads_header = saw_header (init_header serde_header bufs first)
    decoded reads_payload = saw_payload (init_payload serde nil bufs first)
    decoded reads_typed = saw_typed (decode_typed cast serde_t bufs first)
    decoded clears = saw_nothing

    record IsAnswered (a : Access) (m : Message V A) : Type 0 where
      seen_ok : (access a m).0 ≡ decoded a
      coherent_ok : IsCoherent (access a m).1

    answered :
        (a : Access) (m m' : Message V A) (s : Seen V T)
        → access a m ≡ (s, m')
        → s ≡ decoded a
        → IsCoherent m'
        → IsAnswered a m
    answered a m m' s e same c = record {
      seen_ok = ap (λ x. x.0) e ∙ same;
      coherent_ok = subst IsCoherent (sym (ap (λ x. x.1) e)) c;
    }

    coherent :
        (h : Option (Header V)) (p : Option V) (t : Option A)
        → Agrees h (init_header serde_header bufs first)
        → Agrees p (init_payload serde nil bufs first)
        → AgreesTyped cast t (decode_typed cast serde_t bufs first)
        → IsCoherent (with_caches h p t)
    coherent h p t h_ok p_ok t_ok = record {
      h = h;
      p = p;
      t = t;
      same = refl;
      h_ok = h_ok;
      p_ok = p_ok;
      t_ok = t_ok;
    }

    module _ (h : Option (Header V)) (p : Option V) (t : Option A)
        (h_ok : Agrees h (init_header serde_header bufs first))
        (p_ok : Agrees p (init_payload serde nil bufs first))
        (t_ok : AgreesTyped cast t (decode_typed cast serde_t bufs first)) where
      first_header :
          (r : ProtocolResult (Header V))
          → init_header serde_header bufs first ≡ r
          → IsAnswered reads_header (with_caches none p t)
      unfolding header
      first_header (ok v) e =
          answered reads_header _ (with_caches (some v) p t) (saw_header (ok v))
            (ground (arith, init_header-caches none p t)) (ap saw_header (sym e))
            (coherent (some v) p t e p_ok t_ok)
      first_header (err x) e =
          answered reads_header _ (with_caches none p t) (saw_header (err x))
            (ground (arith, init_header-caches none p t)) (ap saw_header (sym e))
            (coherent none p t tt p_ok t_ok)
      first_header panic e =
          answered reads_header _ (with_caches none p t) (saw_header panic)
            (ground (arith, init_header-caches none p t)) (ap saw_header (sym e))
            (coherent none p t tt p_ok t_ok)

      first_payload :
          (r : ProtocolResult V)
          → init_payload serde nil bufs first ≡ r
          → IsAnswered reads_payload (with_caches h none t)
      unfolding payload
      first_payload (ok v) e =
          answered reads_payload _ (with_caches h (some v) t) (saw_payload (ok v))
            (ground (arith, init_payload-caches h none t)) (ap saw_payload (sym e))
            (coherent h (some v) t h_ok e t_ok)
      first_payload (err x) e =
          answered reads_payload _ (with_caches h none t) (saw_payload (err x))
            (ground (arith, init_payload-caches h none t)) (ap saw_payload (sym e))
            (coherent h none t h_ok tt t_ok)
      first_payload panic e =
          answered reads_payload _ (with_caches h none t) (saw_payload panic)
            (ground (arith, init_payload-caches h none t)) (ap saw_payload (sym e))
            (coherent h none t h_ok tt t_ok)

      first_typed :
          (r : ProtocolResult T)
          → decode_typed cast serde_t bufs first ≡ r
          → IsAnswered reads_typed (with_caches h p none)
      unfolding payload_as
      first_typed (ok v) e =
          answered reads_typed _ (with_caches h p (some (cast.upcast v))) (saw_typed (ok v))
            (ground (arith, decode_typed-caches h p none, cast.downcast-upcast v))
            (ap saw_typed (sym e)) (coherent h p (some (cast.upcast v)) h_ok p_ok (v, refl, e))
      first_typed (err x) e =
          answered reads_typed _ (with_caches h p none) (saw_typed (err x))
            (ground (arith, decode_typed-caches h p none)) (ap saw_typed (sym e))
            (coherent h p none h_ok p_ok tt)
      first_typed panic e =
          answered reads_typed _ (with_caches h p none) (saw_typed panic)
            (ground (arith, decode_typed-caches h p none)) (ap saw_typed (sym e))
            (coherent h p none h_ok p_ok tt)

    access-IsAnswered :
        (a : Access) (h : Option (Header V)) (p : Option V) (t : Option A)
        → Agrees h (init_header serde_header bufs first)
        → Agrees p (init_payload serde nil bufs first)
        → AgreesTyped cast t (decode_typed cast serde_t bufs first)
        → IsAnswered a (with_caches h p t)
    unfolding header payload payload_as
    access-IsAnswered reads_header none p t h_ok p_ok t_ok =
        first_header none p t h_ok p_ok t_ok _ refl
    access-IsAnswered reads_header (some v) p t h_ok p_ok t_ok =
        answered reads_header _ _ (saw_header (ok v)) refl (ap saw_header (sym h_ok))
          (coherent (some v) p t h_ok p_ok t_ok)
    access-IsAnswered reads_payload h none t h_ok p_ok t_ok =
        first_payload h none t h_ok p_ok t_ok _ refl
    access-IsAnswered reads_payload h (some v) t h_ok p_ok t_ok =
        answered reads_payload _ _ (saw_payload (ok v)) refl (ap saw_payload (sym p_ok))
          (coherent h (some v) t h_ok p_ok t_ok)
    access-IsAnswered reads_typed h p none h_ok p_ok t_ok =
        first_typed h p none h_ok p_ok t_ok _ refl
    access-IsAnswered reads_typed h p (some a) h_ok p_ok (v, same, e) =
        answered reads_typed _ (with_caches h p (some a)) (saw_typed (ok v))
          (ground (arith, same, cast.downcast-upcast v)) (ap saw_typed (sym e))
          (coherent h p (some a) h_ok p_ok (v, same, e))
    access-IsAnswered clears h p t h_ok p_ok t_ok =
        answered clears _ first saw_nothing refl refl (coherent none none none tt tt tt)

    coherent_access : (a : Access) (m : Message V A) → IsCoherent m → IsAnswered a m
    coherent_access a m c =
        subst (IsAnswered a) (sym c.same) (access-IsAnswered a c.h c.p c.t c.h_ok c.p_ok c.t_ok)

    accesses-decoded :
        (calls : List Access) (m : Message V A)
        → IsCoherent m
        → accesses calls m ≡ map decoded calls
    accesses-decoded [] m c = refl
    accesses-decoded (a ∷ rest) m c =
        let step = coherent_access a m c in
        let later = accesses-decoded rest (access a m).1 step.coherent_ok in
        cc (step.seen_ok, later)

    access_afresh : (a : Access) → decoded a ≡ (access a first).0
    access_afresh a = sym (coherent_access a first (coherent none none none tt tt tt)).seen_ok

    map-same :
        {B C : Type 0} (f g : B → C) (xs : List B) → ((b : B) → f b ≡ g b) → map f xs ≡ map g xs
    map-same f g [] e = refl
    map-same f g (x ∷ xs) e = ap (λ y. y ∷ map f xs) (e x) ∙ ap (λ ys. g x ∷ ys) (map-same f g xs e)

    -- The caches of a message cannot be seen: let `header`, `payload`, `payload_as` with one type, and
    -- `clear_cache` be called on a message with empty caches, any number of times and in any order. Each
    -- call gives, errors and panics included, what it gives on the message with empty caches.
    pub accesses_as_fresh :
        (calls : List Access)
        → accesses calls (fresh base bytes) ≡ map (λ a. (access a (fresh base bytes)).0) calls
    accesses_as_fresh calls =
        accesses-decoded calls first (coherent none none none tt tt tt)
        ∙ map-same decoded (λ a. (access a first).0) calls access_afresh
