-- ===== src/Transport/Manager/Frequency.antt =====
-- The connection frequency that the manager reports.
use zeroio.Common.{
  ℕ, suc, ◌+◌, ◌≡◌, refl, ◌∙◌, ap, String, Option, none, some, List, [], ◌∷◌, ok, err, panic, arith,
  Option-cases, inl, inr,
}
use zeroio.Common.Words.{as_u64, IsU64}
use zeroio.Transport.Errors.{TransportResult}
use zeroio.Transport.Manager.{
  CacheEntry, Lru, Transport, changed, find_transport_for_url, track_connection_attempt,
  track_successful_connection, get_connection_frequency, counted, through, finish, connect,
}

-- The count of an url, where an unknown one counts as none.
abbrev pub known : Option CacheEntry → ℕ
known none = 0
known (some entry) = entry.connection_count

-- One attempt to connect: the transports of that moment and the times of its two entries.
pub record Attempt (D : Type 0) : Type 0 where
  pub transports : List (Transport D)
  pub began : ℕ
  pub done : ℕ

abbrev pub is_ok : {D : Type 0} → TransportResult D → ℕ
is_ok (ok stream) = 1
is_ok (err e) = 0
is_ok panic = 0

abbrev pub succeeds : {D : Type 0} → String → Option (Transport D) → ℕ
succeeds url none = 0
succeeds url (some t) = is_ok (t.connect url)

-- The number of attempts that a transport is found for and that connect.
abbrev pub successes : {D : Type 0} → String → List (Attempt D) → ℕ
successes url [] = 0
successes url (a ∷ rest) =
    succeeds url (find_transport_for_url a.transports url) + successes url rest

module _ {C : Type 0} (lru : Lru C) (url : String) where
  abbrev pub connect_all : {D : Type 0} → List (Attempt D) → C → C
  connect_all [] stats = stats
  connect_all (a ∷ rest) stats =
      connect_all rest (connect lru a.transports a.began a.done url stats).1

  -- The entry of the url is there, with this count.
  abbrev Counts : ℕ → C → Type 0
  Counts n stats =
      (entry : CacheEntry) × (lru.peek url stats ≡ some entry) × (entry.connection_count ≡ n)

  attempt-Counts :
      (now : ℕ) (stats : C)
      → Counts (known (lru.peek url stats)) (track_connection_attempt lru now url stats)
  unfolding track_connection_attempt
  attempt-Counts now stats = elim (Option-cases (lru.peek url stats)) [
    | inl e ↦ rw (e, track_connection_attempt) (_, lru.peek-put url _ stats, refl)
    | inr (entry, e) ↦
        rw (e, track_connection_attempt) (_, lru.peek-get_mut url _ stats ∙ ap (changed _) e, refl)
  ]

  success-Counts :
      (now n : ℕ) (stats : C)
      → Counts n stats
      → Counts (as_u64 (suc n)) (track_successful_connection lru now url stats)
  unfolding track_successful_connection
  success-Counts now n stats (entry, e, c) =
      (counted lru now entry, lru.peek-get_mut url _ stats ∙ rw e, ap (λ k. as_u64 (suc k)) c)

  module _ {D : Type 0} where
    finish-Counts :
        (now n : ℕ) (r : TransportResult D) (stats : C)
        → IsU64 n
        → Counts n stats
        → Counts (as_u64 (n + is_ok r)) (finish lru now url r stats).1
    finish-Counts now n (ok stream) stats small c =
        let (entry, e, q) = success-Counts now n stats c in (entry, e, omega (arith, q))
    finish-Counts now n (err x) stats small (entry, e, q) = (entry, e, omega (arith, q))
    finish-Counts now n panic stats small (entry, e, q) = (entry, e, omega (arith, q))

    through-Counts :
        (now n : ℕ) (t : Option (Transport D)) (stats : C)
        → IsU64 n
        → Counts n stats
        → Counts (as_u64 (n + succeeds url t)) (through lru now url t stats).1
    through-Counts now n none stats small (entry, e, q) = (entry, e, omega (arith, q))
    through-Counts now n (some t) stats small c = finish-Counts now n (t.connect url) stats small c

    connect-Counts :
        (a : Attempt D) (stats : C)
        → IsU64 (known (lru.peek url stats))
        → Counts
            (as_u64
              (known (lru.peek url stats) + succeeds url (find_transport_for_url a.transports url)))
            (connect lru a.transports a.began a.done url stats).1
    unfolding connect
    connect-Counts a stats small =
        through-Counts a.done (known (lru.peek url stats)) (find_transport_for_url a.transports url)
          (track_connection_attempt lru a.began url stats) small (attempt-Counts a.began stats)

    connect_all-Counts :
        (a : Attempt D) (rest : List (Attempt D)) (stats : C)
        → IsU64 (known (lru.peek url stats))
        → Counts
            (as_u64 (known (lru.peek url stats) + successes url (a ∷ rest)))
            (connect_all (a ∷ rest) stats)
    connect_all-Counts a [] stats small =
        let (entry, e, q) = connect-Counts a stats small in (entry, e, omega (arith, q))
    connect_all-Counts a (b ∷ rest) stats small =
        let (entry, e, q) = connect-Counts a stats small in
        let at : known (lru.peek url (connect lru a.transports a.began a.done url stats).1)
            ≡ entry.connection_count =
          ap known e in
        let (entry', e', q') =
          connect_all-Counts b rest (connect lru a.transports a.began a.done url stats).1
            (omega (arith, at, q)) in
        (entry', e', omega (arith, at, q, q'))

    -- After one or more attempts to connect to an url that the cache does not hold, and none to another
    -- url between them, the frequency that is reported for it is the number of the attempts that
    -- connected, as a u64; it is there even when none of them did.
    pub frequency_counts :
        (a : Attempt D) (rest : List (Attempt D)) (stats : C)
        → lru.peek url stats ≡ none
        → get_connection_frequency lru url (connect_all (a ∷ rest) stats)
          ≡ some (as_u64 (successes url (a ∷ rest)))
    unfolding get_connection_frequency
    frequency_counts a rest stats e =
        let fresh : known (lru.peek url stats) ≡ 0 = ap known e in
        let (entry, e', q) = connect_all-Counts a rest stats (omega (arith, fresh)) in
        rw e' (ap (λ n. some n) (omega (arith, fresh, q)))
