-- ===== src/Peer/Shared/Blocked.antt =====
-- A half that waits for a message.
use mathlib.Core.Bool.{false≢true}
use zeroio.Common.{ℕ, ◌≡◌, false, Option, none, some, List, [], ◌∷◌, All, refl, ◌∙◌, sym}
use zeroio.Protocol.Codec.Utils.{Framed}
use zeroio.Peer.Shared.{
  Half, Shared, Event, arrives, drops, Incoming, Step, arrive, lock, receive, send, drop, cancels,
  breaks, cancel, break, Run, go_on,
}

-- Nothing comes in with this event.
pub record IsSilent {V A : Type 0} (event : Event V A) : Type 0 where
  pub no_bytes : (bytes : List ℕ) → event ≡ arrives bytes → ⊥

-- No call is cancelled by this event, and the connection goes on.
pub record IsPatient {V A : Type 0} (event : Event V A) : Type 0 where
  pub no_cancel : (h : Half) → event ≡ cancels h → ⊥
  pub no_break : event ≡ breaks → ⊥

pub data IsDrop {V A : Type 0} : Event V A → Type 0 where
  is_drop : {h : Half} → IsDrop (drops h)

none≢some_half : {h : Half} → ◌≡◌ {A = Option Half} none (some h) → ⊥
none≢some_half e = cc

module _ {V A S : Type 0} (framed : Framed V A S) (incoming : Incoming S) where
  free_held : {o : Option Half} {h : Half} → o ≡ some h → o ≡ none → ⊥
  free_held held free = none≢some_half (sym free ∙ held)

  pub step-IsDrop :
      (sh : Shared S) (event : Event V A) (next : Shared S) (h : Half)
      → Step framed incoming sh event next
      → sh.writer ≡ some h
      → incoming.has_item sh.framed ≡ false
      → IsSilent event
      → IsPatient event
      → IsDrop event × (next.writer ≡ some h) × (incoming.has_item next.framed ≡ false)
  step-IsDrop sh event next h (arrive bytes) held empty quiet patient =
      absurd (quiet.no_bytes bytes refl)
  step-IsDrop sh event next h (lock k free) held empty quiet patient = absurd (free_held held free)
  step-IsDrop sh event next h (receive k own has) held empty quiet patient =
      absurd (false≢true (sym empty ∙ has))
  step-IsDrop sh event next h (send k message free) held empty quiet patient =
      absurd (free_held held free)
  step-IsDrop sh event next h (drop k other) held empty quiet patient = (is_drop, held, empty)
  step-IsDrop sh event next h (cancel k own) held empty quiet patient =
      absurd (patient.no_cancel k refl)
  step-IsDrop sh event next h break held empty quiet patient = absurd (patient.no_break refl)

  -- While a half waits in `receive_message` and is not cancelled, nothing comes in and the connection
  -- goes on, no half sends or receives anything: all that can happen is that a half is dropped.
  pub receive_blocks :
      (events : List (Event V A)) (h : Half) (sh end : Shared S)
      → Run framed incoming sh events end
      → sh.writer ≡ some h
      → incoming.has_item sh.framed ≡ false
      → All IsSilent events
      → All IsPatient events
      → All IsDrop events
  receive_blocks [] h sh end run held empty silent patient = tt
  receive_blocks (event ∷ events) h sh end (go_on {next = next} step run) held empty (quiet, silent)
        (calm, patient) =
      let (dropped, held', empty') = step-IsDrop sh event next h step held empty quiet calm in
      (dropped, receive_blocks events h next end run held' empty' silent patient)
