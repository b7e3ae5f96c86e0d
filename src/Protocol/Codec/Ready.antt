-- ===== src/Protocol/Codec/Ready.antt =====
-- Which of some messages are there, as their bytes come in, for `MessageCodec` of
-- crates/protocol/src/codec.rs.
use zeroio.Common.{
  ℕ, ◌≡◌, ◌≤◌, ◌<◌, refl, ◌∙◌, ap, false, List, [], ◌∷◌, ◌++◌, length, if◌then◌else◌, length-append,
  arith, All, le→leb, gt→leb, leb→le, leb→lt, Bool-cases, inl, inr,
}
use zeroio.Protocol.Message.{Message, fresh}
use zeroio.Protocol.Message.Bytes.{length-frame_bytes}
use zeroio.Protocol.Parser.Stream.{MessageParser}
use zeroio.Protocol.Parser.Stream.Batch.{Sent, sent_bytes, stream_bytes, delivered, IsSendable}
use zeroio.Protocol.Parser.Stream.Inbox.{is_there}

-- The messages of which all bytes have come in, and the others.
abbrev pub ready : {V A : Type 0} → List Sent → List ℕ → List (Message V A)
ready [] coming = []
ready (s ∷ others) coming =
    if is_there others coming then fresh s.base (sent_bytes s) ∷ ready others coming else []

abbrev pub unready : List Sent → List ℕ → List Sent
unready [] coming = []
unready (s ∷ others) coming = if is_there others coming then unready others coming else s ∷ others

module _ {V A : Type 0} where
  pub ready-all : (waiting : List Sent) → ready {V = V} {A = A} waiting [] ≡ delivered waiting
  ready-all [] = refl
  ready-all (s ∷ others) =
      rw (le→leb 0 (length (stream_bytes others [])) (omega arith))
        (ap (λ ms. fresh s.base (sent_bytes s) ∷ ms) (ready-all others))

  -- What is ready now and what gets ready later are together what is ready later.
  pub ready-later :
      (waiting : List Sent) (now later : List ℕ)
      → length later ≤ length now
      → ready {V = V} {A = A} waiting now ++ ready (unready waiting now) later ≡ ready waiting later
  ready-later [] now later h = refl
  ready-later (s ∷ others) now later h = elim (Bool-cases (is_there others now)) [
    | inl there ↦
        rw
          (
            there,
            le→leb (length later) (length (stream_bytes others []))
                (omega (arith, h, leb→le _ _ there)),
          )
          (ap (λ ms. fresh s.base (sent_bytes s) ∷ ms) (ready-later others now later h))
    | inr not_yet ↦ rw not_yet refl
  ]

pub unready-all : (waiting : List Sent) → unready waiting [] ≡ []
unready-all [] = refl
unready-all (s ∷ others) =
    rw (le→leb 0 (length (stream_bytes others [])) (omega arith)) (unready-all others)

pub All-unready :
    (P : Sent → Type 0) (waiting : List Sent) (coming : List ℕ)
    → All P waiting
    → All P (unready waiting coming)
All-unready P [] coming all = all
All-unready P (s ∷ others) coming (p, all) = elim (Bool-cases (is_there others coming)) [
  | inl there ↦ rw there (All-unready P others coming all)
  | inr not_yet ↦ rw not_yet (p, all)
]

-- The bytes that are held of messages none of which is there are fewer than those of one message.
pub held_lt :
    (largest : ℕ) (waiting : List Sent) (coming held : List ℕ)
    → All (λ s. length (sent_bytes s) ≤ largest) waiting
    → held ++ coming ≡ stream_bytes (unready waiting coming) []
    → length held ≤ largest
held_lt largest [] coming held all e = omega (arith, ap length e, length-append {0} held coming)
held_lt largest (s ∷ others) coming held (short, all) e =
    elim (Bool-cases (is_there others coming)) [
      | inl there ↦ held_lt largest others coming held all (e ∙ rw there refl)
      | inr not_yet ↦ first_part (e ∙ rw not_yet refl) (leb→lt _ _ not_yet)
    ]
  where
    first_part :
        held ++ coming ≡ sent_bytes s ++ stream_bytes others []
        → length (stream_bytes others []) < length coming
        → length held ≤ largest
    first_part q more = omega (
      arith,
      ap length q,
      length-append {0} held coming,
      length-append {0} (sent_bytes s) (stream_bytes others []),
    )

pub unready-later :
    (waiting : List Sent) (now later : List ℕ)
    → length later ≤ length now
    → unready (unready waiting now) later ≡ unready waiting later
unready-later [] now later h = refl
unready-later (s ∷ others) now later h = elim (Bool-cases (is_there others now)) [
  | inl there ↦
      rw
        (
          there,
          le→leb (length later) (length (stream_bytes others []))
              (omega (arith, h, leb→le _ _ there)),
        )
        (unready-later others now later h)
  | inr not_yet ↦ rw not_yet refl
]

-- Before any byte has come in no message is there.
pub nothing_ready :
    {V A : Type 0} (p : MessageParser) (waiting : List Sent)
    → All (IsSendable p) waiting
    → (ready {V = V} {A = A} waiting (stream_bytes waiting []) ≡ [])
      × (unready waiting (stream_bytes waiting []) ≡ waiting)
nothing_ready p [] all = (refl, refl)
nothing_ready p (s ∷ others) all = rw none_yet (refl, refl)
  where
    none_yet : is_there others (sent_bytes s ++ stream_bytes others []) ≡ false
    none_yet = gt→leb _ _ (
        omega (
          arith,
          length-append {0} (sent_bytes s) (stream_bytes others []),
          length-frame_bytes all.0.frame,
        ))
