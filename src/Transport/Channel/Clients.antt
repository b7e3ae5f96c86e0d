-- ===== src/Transport/Channel/Clients.antt =====
-- Any number of clients that connect to one channel, one after the other (`connect` of
-- crates/transport/src/channel.rs).
use text.Mathlib.Text.{◌==◌}
use text.Mathlib.TextPositions.{eq_refl}
use zeroio.Common.{ℕ, zero, suc, ◌≡◌, refl, ◌∙◌, ap, false, String, List, [], ◌∷◌, Result, ok, map}
use zeroio.Transport.Errors.{TransportResult}
use zeroio.Transport.Io.{Url}
use zeroio.Transport.Channel.{Registry, ChannelStream, new, put, enqueue, connect}
use zeroio.Transport.Channel.Pairing.{Names, first_waits, second_takes}

module _ {D : Type 0} (duplex : ℕ → D × D) where
  -- The ends that clients get from the duplexes in turn: the two ends of one, and then of the next.
  abbrev pub ends_from : ℕ → ℕ → List D
  ends_from number zero = []
  ends_from number (suc zero) = (duplex number).1 ∷ []
  ends_from number (suc (suc clients)) =
      (duplex number).1 ∷ (duplex number).0 ∷ ends_from (suc number) clients

  -- The end of the last one that waits where the clients are odd.
  abbrev pub odd_end : ℕ → ℕ → List D
  odd_end number zero = []
  odd_end number (suc zero) = (duplex number).0 ∷ []
  odd_end number (suc (suc clients)) = odd_end (suc number) clients

module _ {D : Type 0} (duplex : ℕ → D × D) (parse : String → Result String Url) (url : String) where
  -- The results of the clients, one after the other.
  abbrev pub connect_all : ℕ → Registry D → List (TransportResult (ChannelStream D)) × Registry D
  connect_all zero r = ([], r)
  connect_all (suc clients) r =
      let (result, r') = connect duplex parse url r in
      let (results, r'') = connect_all clients r' in (result ∷ results, r'')

  connect_all_more :
      (clients : ℕ) (r r' : Registry D) (result : TransportResult (ChannelStream D))
      → connect duplex parse url r ≡ (result, r')
      → connect_all (suc clients) r
        ≡ (result ∷ (connect_all clients r').0, (connect_all clients r').1)
  connect_all_more clients r r' result e =
      ap
        (λ (x : TransportResult (ChannelStream D) × Registry D).
          (x.0 ∷ (connect_all clients x.1).0, (connect_all clients x.1).1))
        e

  -- The registry after one client, and after two.
  one_waits : String → Registry D → Registry D
  one_waits name r = (enqueue duplex name r).1

  none_waits : String → Registry D → Registry D
  none_waits name r = record (one_waits name r) { queues = put name [] (one_waits name r).queues }

  one_waits-queue :
      (name : String) (r : Registry D)
      → r.queues name ≡ []
      → (one_waits name r).queues name ≡ (duplex r.made).0 ∷ []
  unfolding one_waits enqueue
  one_waits-queue name r e = rw (eq_refl name, e) refl

  others_stay :
      (name other : String) (r : Registry D)
      → (other == name) ≡ false
      → ((one_waits name r).queues other ≡ r.queues other)
        × ((none_waits name r).queues other ≡ r.queues other)
  unfolding none_waits one_waits enqueue
  others_stay name other r differs = rw differs (refl, refl)

  none_waits-queue : (name : String) (r : Registry D) → (none_waits name r).queues name ≡ []
  unfolding none_waits
  none_waits-queue name r = rw (eq_refl name) refl

  first_client :
      (name : String) (r : Registry D)
      → Names duplex parse url name
      → r.queues name ≡ []
      → connect duplex parse url r ≡ (ok (new (duplex r.made).1 name), one_waits name r)
  unfolding one_waits
  first_client name r n e = first_waits duplex parse url name r n e

  two_clients :
      (clients : ℕ) (name : String) (r : Registry D)
      → Names duplex parse url name
      → r.queues name ≡ []
      → connect_all (suc (suc clients)) r ≡ (
        ok (new (duplex r.made).1 name)
            ∷ ok (new (duplex r.made).0 name)
            ∷ (connect_all clients (none_waits name r)).0,
        (connect_all clients (none_waits name r)).1,
      )
  unfolding none_waits
  two_clients clients name r n e =
      connect_all_more (suc clients) r (one_waits name r) _ (first_client name r n e)
      ∙ ap
          (λ (x : List (TransportResult (ChannelStream D)) × Registry D).
            (ok (new (duplex r.made).1 name) ∷ x.0, x.1))
          (connect_all_more clients (one_waits name r) (none_waits name r) _ (
            second_takes duplex parse url name (one_waits name r) (duplex r.made).0 [] n
              (one_waits-queue name r e)))

  -- Let nobody wait at a channel. Of any number of clients that connect to it one after the other,
  -- each succeeds, the first two get the two ends of a new duplex, the next two those of another one,
  -- and so on; if their number is odd the other end of the last one waits, and else nobody does, and
  -- the queues of other channels are as before.
  pub clients_paired :
      (clients : ℕ) (name other : String) (r : Registry D)
      → Names duplex parse url name
      → r.queues name ≡ []
      → (other == name) ≡ false
      → ((connect_all clients r).0 ≡ map (λ d. ok (new d name)) (ends_from duplex r.made clients))
        × ((connect_all clients r).1.queues name ≡ odd_end duplex r.made clients)
        × ((connect_all clients r).1.queues other ≡ r.queues other)
  unfolding none_waits one_waits enqueue
  clients_paired zero name other r n e differs = (refl, e, refl)
  clients_paired (suc zero) name other r n e differs =
      let first = first_client name r n e in
      (
        ap (λ (x : TransportResult (ChannelStream D) × Registry D). x.0 ∷ []) first,
        ap (λ (x : TransportResult (ChannelStream D) × Registry D). x.1.queues name) first
            ∙ one_waits-queue name r e,
        ap (λ (x : TransportResult (ChannelStream D) × Registry D). x.1.queues other) first
            ∙ (others_stay name other r differs).0,
      )
  clients_paired (suc (suc clients)) name other r n e differs =
      let (results, queue, rest) =
        clients_paired clients name other (none_waits name r) n (none_waits-queue name r) differs in
      let pair = two_clients clients name r n e in
      (
        ap (λ (x : List (TransportResult (ChannelStream D)) × Registry D). x.0) pair
            ∙ ap (λ l. ok (new (duplex r.made).1 name) ∷ ok (new (duplex r.made).0 name) ∷ l)
                results,
        ap (λ (x : List (TransportResult (ChannelStream D)) × Registry D). x.1.queues name) pair
            ∙ queue,
        ap (λ (x : List (TransportResult (ChannelStream D)) × Registry D). x.1.queues other) pair
            ∙ rest
            ∙ (others_stay name other r differs).1,
      )
