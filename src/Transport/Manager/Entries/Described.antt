-- ===== src/Transport/Manager/Entries/Described.antt =====
-- The connection statistics of crates/transport/src/manager.rs as a list of urls with their entries, the
-- most recent one first.
use text.Mathlib.TextPositions.{eq_refl}
use zeroio.Common.{
  ℕ, zero, suc, ◌≡◌, ◌≤◌, ◌<◌, refl, sym, ◌∙◌, ap, subst, String, Option, none, some, List, [], ◌∷◌,
  length, take, ok, err, panic, if◌then◌else◌, Option-cases, inl, inr, arith,
}
use zeroio.Common.Words.{as_u64}
use zeroio.Transport.Errors.{TransportResult}
use zeroio.Transport.Manager.{
  CacheEntry, Lru, Transport, find_transport_for_url, track_connection_attempt,
  track_successful_connection, counted, through, finish, connect,
}
use zeroio.Transport.Manager.Expiry.{without, no_entry, LruEntries, active}
use zeroio.Transport.Manager.Cleanup
use zeroio.Transport.Manager.Cleanup.{cleanup_exact}
use zeroio.Transport.Manager.Frequency.{known, is_ok, succeeds}
use zeroio.Transport.Manager.Entries.{
  LruOrder, IsKept, lookup, in_front, length-found, without-Fresh, take-Fresh,
}
use zeroio.Transport.Manager.Entries.Kept.{
  Call, connects, cleans, clears, called, all_called, Holds, called-Holds,
}

-- The entry of a url becomes the first one, and the oldest one goes where there are too many.
abbrev pub recorded :
    ℕ → String → CacheEntry → List (String × CacheEntry) → List (String × CacheEntry)
recorded capacity url entry l = take capacity ((url, entry) ∷ without url l)

-- The entry after an attempt that connected, or did not, over a count.
abbrev pub attempted : ℕ → ℕ → ℕ → ℕ → CacheEntry
attempted zero began done count = record { last_used = began; connection_count = count }
attempted (suc connected) began done count = record {
  last_used = done;
  connection_count = as_u64 (suc count);
}

-- What a call does to the list.
abbrev pub described :
    {D : Type 0} → ℕ → ℕ → Call D → List (String × CacheEntry) → List (String × CacheEntry)
described capacity ttl (connects transports began done url) l =
    recorded capacity url
      (attempted (succeeds url (find_transport_for_url transports url)) began done
        (known (lookup url l)))
      l
described capacity ttl (cleans now) l = active ttl now l
described capacity ttl clears l = []

abbrev pub all_described :
    {D : Type 0} → ℕ → ℕ → List (Call D) → List (String × CacheEntry) → List (String × CacheEntry)
all_described capacity ttl [] l = l
all_described capacity ttl (c ∷ rest) l =
    all_described capacity ttl rest (described capacity ttl c l)

take-whole : (n : ℕ) (l : List (String × CacheEntry)) → length l ≤ n → take n l ≡ l
take-whole zero [] h = refl
take-whole zero (e ∷ l) h = absurd (omega (arith, h))
take-whole (suc n) [] h = refl
take-whole (suc n) (e ∷ l) h = ap (λ r. e ∷ r) (take-whole n l (omega (arith, h)))

-- To change the entry that was just recorded is to record the changed one.
in_front-recorded :
    (c : ℕ) (url : String) (f : CacheEntry → CacheEntry) (entry : CacheEntry)
    (l : List (String × CacheEntry))
    → in_front url f (lookup url (recorded (suc c) url entry l)) (recorded (suc c) url entry l)
      ≡ recorded (suc c) url (f entry) l
in_front-recorded c url f entry l =
    let rest : List (String × CacheEntry) = take c (without url l) in
    ap (λ b. in_front url f (if b then some entry else lookup url rest) ((url, entry) ∷ rest))
      (eq_refl url)
    ∙ ap (λ b. (url, f entry) ∷ (if b then without url rest else (url, entry) ∷ without url rest))
        (eq_refl url)
    ∙ ap (λ r. (url, f entry) ∷ r)
        (Cleanup.without-Fresh url rest (take-Fresh c url (without url l) (without-Fresh url l)))

module _ {C : Type 0} (lru : Lru C) (entries : LruEntries C) (order : LruOrder lru entries) where
  attempt-recorded :
      (capacity now : ℕ) (url : String) (stats : C)
      → Holds entries capacity stats
      → entries.iter (track_connection_attempt lru now url stats)
        ≡ recorded capacity url
            (attempted 0 now 0 (known (lookup url (entries.iter stats))))
            (entries.iter stats)
  unfolding track_connection_attempt
  attempt-recorded capacity now url stats h = elim (Option-cases (lru.peek url stats)) [
    | inl unknown ↦
        let absent : lookup url (entries.iter stats) ≡ none =
          sym (order.peek-lookup url stats) ∙ unknown in
        rw (unknown, absent, track_connection_attempt)
          (order.iter-put url (record { last_used = now; connection_count = 0 }) stats
            ∙ ap
                (λ n. take n (
                  (url, record { last_used = now; connection_count = 0 })
                  ∷ without url (entries.iter stats)))
                h.same_cap)
    | inr (entry, there) ↦
        let found : lookup url (entries.iter stats) ≡ some entry =
          sym (order.peek-lookup url stats) ∙ there in
        rw (there, track_connection_attempt)
          (order.iter-get_mut url _ stats
            ∙ rw found (
                sym (
                  take-whole capacity _ (
                    omega
                      (arith, h.kept.bounded, length-found url entry (entries.iter stats) found)))))
  ]

module _ {C D : Type 0} (lru : Lru C) (entries : LruEntries C) (ttl : ℕ)
    (order : LruOrder lru entries) where
  finish-recorded :
      (c began done count : ℕ) (url : String) (r : TransportResult D) (stats : C)
      (l : List (String × CacheEntry))
      → entries.iter stats ≡ recorded (suc c) url (attempted 0 began done count) l
      → entries.iter (finish lru done url r stats).1
        ≡ recorded (suc c) url (attempted (is_ok r) began done count) l
  unfolding track_successful_connection
  finish-recorded c began done count url (ok stream) stats l e =
      order.iter-get_mut url (counted lru done) stats
      ∙ ap (λ m. in_front url (counted lru done) (lookup url m) m) e
      ∙ in_front-recorded c url (counted lru done) _ l
  finish-recorded c began done count url (err x) stats l e = e
  finish-recorded c began done count url panic stats l e = e

  through-recorded :
      (c began done count : ℕ) (url : String) (t : Option (Transport D)) (stats : C)
      (l : List (String × CacheEntry))
      → entries.iter stats ≡ recorded (suc c) url (attempted 0 began done count) l
      → entries.iter (through lru done url t stats).1
        ≡ recorded (suc c) url (attempted (succeeds url t) began done count) l
  through-recorded c began done count url none stats l e = e
  through-recorded c began done count url (some t) stats l e =
      finish-recorded c began done count url (t.connect url) stats l e

  called-described :
      (c : ℕ) (call : Call D) (stats : C)
      → Holds entries (suc c) stats
      → entries.iter (called lru entries ttl call stats)
        ≡ described (suc c) ttl call (entries.iter stats)
  unfolding connect
  called-described c (connects transports began done url) stats h =
      through-recorded c began done (known (lookup url (entries.iter stats))) url
        (find_transport_for_url transports url) _ (entries.iter stats)
        (attempt-recorded lru entries order (suc c) began url stats h)
  called-described c (cleans now) stats h = (cleanup_exact entries ttl now stats h.kept.distinct).0
  called-described c clears stats h = order.iter-clear stats

  all_called-described :
      (c : ℕ) (calls : List (Call D)) (stats : C)
      → Holds entries (suc c) stats
      → entries.iter (all_called lru entries ttl calls stats)
        ≡ all_described (suc c) ttl calls (entries.iter stats)
  all_called-described c [] stats h = refl
  all_called-described c (call ∷ rest) stats h =
      all_called-described c rest (called lru entries ttl call stats)
        (called-Holds lru entries ttl order (suc c) call stats h)
      ∙ ap (all_described (suc c) ttl rest) (called-described c call stats h)

  -- Any calls of a manager whose cache was empty and has room for an entry, connections, clean-ups and
  -- clearings in any order, leave the entries that are described: a connection makes the entry of its
  -- url the first one, with one connection more and the time at which it was done if it connected, and
  -- else with the count that was known, or none, and the time at which it began; the oldest entry goes
  -- where there are more than the capacity. A clean-up leaves the active entries, and a clearing nothing.
  pub manager_refines_list :
      (calls : List (Call D)) (stats : C)
      → entries.iter stats ≡ []
      → 0 < entries.cap stats
      → entries.iter (all_called lru entries ttl calls stats)
        ≡ all_described (entries.cap stats) ttl calls []
  manager_refines_list calls stats empty room = by_capacity (entries.cap stats) refl room
    where
      by_capacity :
          (n : ℕ)
          → entries.cap stats ≡ n
          → 0 < n
          → entries.iter (all_called lru entries ttl calls stats) ≡ all_described n ttl calls []
      by_capacity zero e room = absurd (omega (arith, room))
      by_capacity (suc c) e room =
          all_called-described c calls stats (record {
            kept =
                subst (IsKept (suc c)) (sym empty)
                  (record { distinct = no_entry; bounded = omega arith });
            same_cap = e;
          })
          ∙ ap (all_described (suc c) ttl calls) empty
