-- ===== src/Peer/Shared/Pair.antt =====
-- Two peers over one connection, each with a stream that its halves share (`types` of
-- crates/peer/src/lib.rs): what one side sends is, in order, what comes in at the other side.
use zeroio.Common.{ℕ, ◌≡◌, false, none, some, List, [], ◌∷◌, ◌++◌, All, refl, ap, ◌∙◌}
use zeroio.Protocol.Message.Raw.{RawMessage}
use zeroio.Protocol.Codec.Utils.{Framed}
use zeroio.Peer.Shared.{
  Half, Shared, Event, arrives, locks, receives, sends, drops, cancels, breaks, Incoming, Step,
  lock,
}
use zeroio.Peer.Shared.Blocked.{IsSilent, IsPatient, IsDrop, step-IsDrop}

-- The two sides, and the bytes on their way to each, one list for each message.
pub record Pair (S : Type 0) : Type 0 where
  pub left : Shared S
  pub right : Shared S
  pub to_left : List (List ℕ)
  pub to_right : List (List ℕ)

pub data Side : Type 0 where
  left right : Side

-- A half of each side holds its lock.
abbrev pub both_wait : {S : Type 0} → Half → Half → Pair S → Pair S
both_wait h k p = record {
  left = record (p.left) { writer = some h };
  right = record (p.right) { writer = some k };
  to_left = p.to_left ++ [];
  to_right = p.to_right ++ [];
}

-- What goes on the wire with an event of a side.
abbrev pub sent_by : {V A : Type 0} → (RawMessage V → List ℕ) → Event V A → List (List ℕ)
sent_by wire (sends h m r) = wire m ∷ []
sent_by wire (arrives bytes) = []
sent_by wire (locks h) = []
sent_by wire (receives h r) = []
sent_by wire (drops h) = []
sent_by wire (cancels h) = []
sent_by wire breaks = []

-- An event at one of the sides.
pub record At (V A : Type 0) : Type 0 where
  pub side : Side
  pub event : Event V A

module _ {V A S : Type 0} (framed : Framed V A S) (incoming : Incoming S)
    (wire : RawMessage V → List ℕ) where
  -- A side does something by itself, or bytes that are on their way to it arrive.
  pub data PairStep (p : Pair S) : At V A → Pair S → Type 0 where
    left_acts :
        (event : Event V A) (next : Shared S)
        → IsSilent event
        → Step framed incoming p.left event next
        → PairStep p
            (record { side = Side.left; event = event })
            (record p { left = next; to_right = p.to_right ++ sent_by wire event })
    right_acts :
        (event : Event V A) (next : Shared S)
        → IsSilent event
        → Step framed incoming p.right event next
        → PairStep p
            (record { side = Side.right; event = event })
            (record p { right = next; to_left = p.to_left ++ sent_by wire event })
    left_gets :
        (bytes : List ℕ) (rest : List (List ℕ)) (next : Shared S)
        → p.to_left ≡ bytes ∷ rest
        → Step framed incoming p.left (arrives bytes) next
        → PairStep p
            (record { side = Side.left; event = arrives bytes })
            (record p { left = next; to_left = rest })
    right_gets :
        (bytes : List ℕ) (rest : List (List ℕ)) (next : Shared S)
        → p.to_right ≡ bytes ∷ rest
        → Step framed incoming p.right (arrives bytes) next
        → PairStep p
            (record { side = Side.right; event = arrives bytes })
            (record p { right = next; to_right = rest })

  pub data PairRun : Pair S → List (At V A) → Pair S → Type 0 where
    stop : {p : Pair S} → PairRun p [] p
    go_on :
        {p next end : Pair S} {event : At V A} {events : List (At V A)}
        → PairStep p event next
        → PairRun next events end
        → PairRun p (event ∷ events) end

  -- One half of the side waits for a message, of which nothing is there or on its way.
  pub record Starves (sh : Shared S) (on_the_way : List (List ℕ)) (h : Half) : Type 0 where
    pub waits : sh.writer ≡ some h
    pub no_item : incoming.has_item sh.framed ≡ false
    pub nothing_sent : on_the_way ≡ []

  drop_sends_nothing : {event : Event V A} → IsDrop event → sent_by wire event ≡ []
  drop_sends_nothing IsDrop.is_drop = refl

  -- A side that starves can only drop a half, which sends nothing.
  Starves-acts :
      (sh : Shared S) (way other_way : List (List ℕ)) (event : Event V A) (next : Shared S)
      (h : Half)
      → Starves sh way h
      → IsSilent event
      → IsPatient event
      → Step framed incoming sh event next
      → other_way ≡ []
      → IsDrop event × Starves next way h × (other_way ++ sent_by wire event ≡ [])
  Starves-acts sh way other_way event next h s quiet calm step none_other =
      let (dropped, held, empty) =
        step-IsDrop framed incoming sh event next h step s.waits s.no_item quiet calm in
      (
        dropped,
        record { waits = held; no_item = empty; nothing_sent = s.nothing_sent },
        ap (λ w. w ++ sent_by wire event) none_other ∙ drop_sends_nothing dropped,
      )

  resent :
      {sh : Shared S} {way : List (List ℕ)} (way' : List (List ℕ)) {h : Half}
      → Starves sh way h
      → way' ≡ []
      → Starves sh way' h
  resent way' s e = record { waits = s.waits; no_item = s.no_item; nothing_sent = e }

  nothing_gets : {way rest : List (List ℕ)} {bytes : List ℕ} → way ≡ [] → way ≡ bytes ∷ rest → ⊥
  nothing_gets e q = cc

  PairStep-IsDrop :
      (p : Pair S) (event : At V A) (next : Pair S) (h k : Half)
      → PairStep p event next
      → IsPatient event.event
      → Starves p.left p.to_left h
      → Starves p.right p.to_right k
      → IsDrop event.event × Starves next.left next.to_left h × Starves next.right next.to_right k
  PairStep-IsDrop p event next h k (left_acts e n quiet step) calm l r =
      let (dropped, l', way) =
        Starves-acts p.left p.to_left p.to_right e n h l quiet calm step r.nothing_sent in
      (dropped, l', resent (p.to_right ++ sent_by wire e) r way)
  PairStep-IsDrop p event next h k (right_acts e n quiet step) calm l r =
      let (dropped, r', way) =
        Starves-acts p.right p.to_right p.to_left e n k r quiet calm step l.nothing_sent in
      (dropped, resent (p.to_left ++ sent_by wire e) l way, r')
  PairStep-IsDrop p event next h k (left_gets bytes rest n front step) calm l r =
      absurd (nothing_gets l.nothing_sent front)
  PairStep-IsDrop p event next h k (right_gets bytes rest n front step) calm l r =
      absurd (nothing_gets r.nothing_sent front)

  PairRun-IsDrop :
      (events : List (At V A)) (p end : Pair S) (h k : Half)
      → PairRun p events end
      → All (λ event. IsPatient event.event) events
      → Starves p.left p.to_left h
      → Starves p.right p.to_right k
      → All (λ event. IsDrop event.event) events
  PairRun-IsDrop [] p end h k run calm l r = tt
  PairRun-IsDrop (event ∷ events) p end h k (go_on {next = next} step run) (calm, patient) l r =
      let (dropped, l', r') = PairStep-IsDrop p event next h k step calm l r in
      (dropped, PairRun-IsDrop events next end h k run patient l' r')

  locks-IsSilent : (h : Half) → IsSilent {V = V} {A = A} (locks h)
  locks-IsSilent h = record { no_bytes = λ bytes e. cc }

  -- Let nothing be held, there to be received, or on its way at two peers over one connection. A half
  -- of each can call `receive_message`. As long as no such call is cancelled and the connection neither
  -- ends nor fails, neither peer sends or receives anything from then on: all that happens is that
  -- halves are dropped.
  pub both_wait_for_ever :
      (p : Pair S) (h k : Half) (events : List (At V A)) (end : Pair S)
      → p.left.writer ≡ none
      → p.right.writer ≡ none
      → incoming.has_item p.left.framed ≡ false
      → incoming.has_item p.right.framed ≡ false
      → p.to_left ≡ []
      → p.to_right ≡ []
      → PairRun (both_wait h k p) events end
      → All (λ event. IsPatient event.event) events
      → PairRun p
          (record { side = Side.left; event = locks h }
            ∷ record { side = Side.right; event = locks k }
            ∷ [])
          (both_wait h k p)
        × All (λ event. IsDrop event.event) events
  both_wait_for_ever p h k events end l_free r_free l_none r_none l_way r_way run patient = (
    go_on
        (left_acts (locks h) (record (p.left) { writer = some h }) (locks-IsSilent h)
          (lock h l_free))
        (go_on
          (right_acts (locks k) (record (p.right) { writer = some k }) (locks-IsSilent k)
            (lock k r_free))
          stop),
    PairRun-IsDrop events (both_wait h k p) end h k run patient
        (record { waits = refl; no_item = l_none; nothing_sent = ap (λ w. w ++ []) l_way })
        (record { waits = refl; no_item = r_none; nothing_sent = ap (λ w. w ++ []) r_way }),
  )
