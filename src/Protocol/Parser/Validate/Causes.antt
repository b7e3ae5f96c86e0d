-- ===== src/Protocol/Parser/Validate/Causes.antt =====
-- What an error of the validation says of the header.
use zeroio.Common.{
  ◌≡◌, ◌⊎◌, inl, inr, true, false, List, [], ◌∷◌, ok, err, panic, ◌>>=◌, Bool-cases, subst, ◌∙◌,
  arith, refl, is_some,
}
use zeroio.Protocol.Errors.{
  ProtocolError, ProtocolResult, missing_required_field, forbidden_field, invalid_routing,
}
use zeroio.Protocol.Types.MessageType.{MessageType, as_str, join}
use zeroio.Protocol.Types.Header.{Header, HeaderField, name, is_present_in}
use zeroio.Protocol.Parser.Validate.{
  required, forbidden, check_required, check_forbidden, check_routing, validate_message_structure,
}

abbrev pub Among : HeaderField → List HeaderField → Type 0
Among f [] = ⊥
Among f (g ∷ gs) = (f ≡ g) ⊎ Among f gs

module _ {V : Type 0} where
  -- The field that an error names is a required one that is absent, or a forbidden one that is
  -- present; a routing error comes where there is a routing field.
  abbrev pub Explains : MessageType → Header V → ProtocolError → Type 0
  Explains t h (missing_required_field field kind) =
      (f : HeaderField) × Among f (required t)
      × (name f ≡ field)
      × (is_present_in f h ≡ false)
      × (as_str t ≡ kind)
  Explains t h (forbidden_field field kind) =
      (f : HeaderField) × Among f (forbidden t)
      × (name f ≡ field)
      × (is_present_in f h ≡ true)
      × (as_str t ≡ kind)
  Explains t h (invalid_routing text) = is_some h.routing ≡ true
  Explains t h _ = ⊥

  -- The first field of the list that is absent.
  absent_cause :
      (t : MessageType) (h : Header V) (fs : List HeaderField) (e : ProtocolError)
      → check_required t h fs ≡ err e
      → (f : HeaderField) × Among f fs
        × (is_present_in f h ≡ false)
        × (missing_required_field (name f) (as_str t) ≡ e)
  unfolding check_required
  absent_cause t h [] e p = cc
  absent_cause t h (f ∷ fs) e p = elim (Bool-cases (is_present_in f h)) [
    | inl there ↦ let (g, a, b, c) = absent_cause t h fs e (rw there at p) in (g, inr a, b, c)
    | inr gone ↦ (f, inl refl, gone, cc (rw gone at p))
  ]

  present_cause :
      (t : MessageType) (h : Header V) (fs : List HeaderField) (e : ProtocolError)
      → check_forbidden t h fs ≡ err e
      → (f : HeaderField) × Among f fs
        × (is_present_in f h ≡ true)
        × (forbidden_field (name f) (as_str t) ≡ e)
  unfolding check_forbidden
  present_cause t h [] e p = cc
  present_cause t h (f ∷ fs) e p = elim (Bool-cases (is_present_in f h)) [
    | inl there ↦ (f, inl refl, there, cc (rw there at p))
    | inr gone ↦ let (g, a, b, c) = present_cause t h fs e (rw gone at p) in (g, inr a, b, c)
  ]

  routing_cause :
      (t : MessageType) (h : Header V) (e : ProtocolError)
      → check_routing t h.routing ≡ err e
      → Explains t h e
  routing_cause join h e p = ground arith
  routing_cause t h e p = ground arith

  required_cause :
      (t : MessageType) (h : Header V) (e : ProtocolError)
      → check_required t h (required t) ≡ err e
      → Explains t h e
  required_cause t h e p =
      let (f, a, b, c) = absent_cause t h (required t) e p in
      subst (Explains t h) c (f, a, refl, b, refl)

  forbidden_cause :
      (t : MessageType) (h : Header V) (e : ProtocolError)
      → check_forbidden t h (forbidden t) ≡ err e
      → Explains t h e
  forbidden_cause t h e p =
      let (f, a, b, c) = present_cause t h (forbidden t) e p in
      subst (Explains t h) c (f, a, refl, b, refl)

  -- An error of the validation names a required field of the kind of message that the header
  -- lacks, or a forbidden one that it has, or is about a routing field that it has.
  pub validate-Explains :
      (t : MessageType) (h : Header V) (e : ProtocolError)
      → validate_message_structure t h ≡ err e
      → Explains t h e
  unfolding validate_message_structure
  validate-Explains t h e p = by_required (check_required t h (required t)) refl p
    where
      by_forbidden :
          (r : ProtocolResult (Unit {0}))
          → check_forbidden t h (forbidden t) ≡ r
          → (r >>= λ _. check_routing t h.routing) ≡ err e
          → Explains t h e
      by_forbidden (ok u) q p = routing_cause t h e p
      by_forbidden (err x) q p = forbidden_cause t h e (q ∙ p)
      by_forbidden panic q p = cc

      by_required :
          (r : ProtocolResult (Unit {0}))
          → check_required t h (required t) ≡ r
          → (r >>= λ _. check_forbidden t h (forbidden t) >>= λ _. check_routing t h.routing)
            ≡ err e
          → Explains t h e
      by_required (ok u) q p = by_forbidden (check_forbidden t h (forbidden t)) refl p
      by_required (err x) q p = required_cause t h e (q ∙ p)
      by_required panic q p = cc
