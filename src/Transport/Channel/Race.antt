-- ===== src/Transport/Channel/Race.antt =====
-- Two clients that connect to one channel at the same time. `connect` looks for a waiting endpoint
-- under the lock of the queue, gives the lock back, and takes it again to leave one of its own: each
-- of the two is a step, and a schedule says who goes next.
use text.Mathlib.TextPositions.{eq_refl}
use zeroio.Common.{ℕ, suc, ◌≡◌, refl, ◌∙◌, ap, String, Option, none, some, List, [], ◌∷◌}
use zeroio.Transport.Channel.{Registry, look, enqueue}
use zeroio.Transport.Channel.Pairing.{look_empty}

-- Where a client stands in `connect`.
pub data Progress (D : Type 0) : Type 0 where
  looking missed : Progress D
  connected : D → Progress D

pub data Client : Type 0 where
  first second : Client

pub record World (D : Type 0) : Type 0 where
  pub registry : Registry D
  pub one : Progress D
  pub two : Progress D

module _ {D : Type 0} (duplex : ℕ → D × D) (name : String) where
  abbrev after_look : Option D → Progress D
  after_look none = missed
  after_look (some d) = connected d

  unfoldable pub advance : Progress D → Registry D → Progress D × Registry D
  unfolding look enqueue
  advance looking r = let (found, r') = look duplex name r in (after_look found, r')
  advance missed r = let (d, r') = enqueue duplex name r in (connected d, r')
  advance (connected d) r = (connected d, r)

  abbrev pub step : Client → World D → World D
  step first w = let (p, r) = advance w.one w.registry in record w { registry = r; one = p }
  step second w = let (p, r) = advance w.two w.registry in record w { registry = r; two = p }

  unfoldable pub run : List Client → World D → World D
  run [] w = w
  run (c ∷ schedule) w = run schedule (step c w)

  abbrev pub start : Registry D → World D
  start r = record { registry = r; one = looking; two = looking }

  advance_missed : (r : Registry D) → r.queues name ≡ [] → advance looking r ≡ (missed, r)
  unfolding advance
  advance_missed r e =
      ap (λ (x : Option D × Registry D). (after_look x.0, x.1)) (look_empty duplex name r e)

  abbrev both : Registry D → World D
  both r = record { registry = r; one = missed; two = missed }

  both_missed : (r : Registry D) → r.queues name ≡ [] → step second (step first (start r)) ≡ both r
  both_missed r e =
      ap
        (λ (x : Progress D × Registry D).
          step second (record { registry = x.1; one = x.0; two = looking }))
        (advance_missed r e)
      ∙ ap (λ (x : Progress D × Registry D). record { registry = x.1; one = missed; two = x.0 })
          (advance_missed r e)

  -- The schedule of the race: both look, and then both leave an endpoint.
  abbrev pub raced : Registry D → World D
  raced r = run (first ∷ second ∷ first ∷ second ∷ []) (start r)

  raced_lem : (r : Registry D) → r.queues name ≡ [] → raced r ≡ step second (step first (both r))
  unfolding run
  raced_lem r e = ap (λ w. step second (step first w)) (both_missed r e)

  -- If both clients look at an empty queue before either of them leaves an endpoint, they get ends of
  -- two different duplexes, and the other ends of both wait in the queue: neither is paired.
  pub race_strands :
      (r : Registry D)
      → r.queues name ≡ []
      → ((raced r).one ≡ connected (duplex r.made).1)
        × ((raced r).two ≡ connected (duplex (suc r.made)).1)
        × ((raced r).registry.queues name ≡ (duplex r.made).0 ∷ (duplex (suc r.made)).0 ∷ [])
  unfolding advance
  race_strands r e = rw (raced_lem r e) (refl, refl, rw (eq_refl name, e))
