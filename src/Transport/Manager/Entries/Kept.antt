-- ===== src/Transport/Manager/Entries/Kept.antt =====
-- The connection statistics of crates/transport/src/manager.rs, over any calls of the manager.
use zeroio.Common.{
  ℕ, ◌≡◌, refl, sym, ◌∙◌, ap, subst, String, Option, none, some, List, [], ◌∷◌, take, ok, err,
  panic, Option-cases, inl, inr, arith,
}
use zeroio.Transport.Errors.{TransportResult}
use zeroio.Transport.Manager.{
  CacheEntry, Lru, Transport, find_transport_for_url, track_connection_attempt,
  track_successful_connection, through, finish, connect, clear_cache,
}
use zeroio.Transport.Manager.Expiry.{
  without, no_entry, LruEntries, expired_keys, pop_all, cleanup_expired_entries,
}
use zeroio.Transport.Manager.Entries.{
  LruOrder, IsKept, in_front-IsKept, put-IsKept, without-Distinct, length-without,
}

-- A call of the manager: `connect` with the transports of that moment and its two times, the
-- clean-up, and `clear_cache`.
pub data Call (D : Type 0) : Type 0 where
  connects : List (Transport D) → ℕ → ℕ → String → Call D
  cleans : ℕ → Call D
  clears : Call D

module _ {C : Type 0} (entries : LruEntries C) where
  pub record Holds (capacity : ℕ) (stats : C) : Type 0 where
    pub kept : IsKept capacity (entries.iter stats)
    pub same_cap : entries.cap stats ≡ capacity

module _ {C : Type 0} (lru : Lru C) (entries : LruEntries C) (order : LruOrder lru entries) where
  get_mut-Holds :
      (capacity : ℕ) (key : String) (f : CacheEntry → CacheEntry) (stats : C)
      → Holds entries capacity stats
      → Holds entries capacity (lru.get_mut key f stats)
  get_mut-Holds capacity key f stats h = record {
    kept =
        subst (IsKept capacity) (sym (order.iter-get_mut key f stats))
          (in_front-IsKept capacity key f _ (entries.iter stats) refl h.kept);
    same_cap = order.cap-get_mut key f stats ∙ h.same_cap;
  }

  put-Holds :
      (capacity : ℕ) (key : String) (entry : CacheEntry) (stats : C)
      → Holds entries capacity stats
      → Holds entries capacity (lru.put key entry stats)
  put-Holds capacity key entry stats h = record {
    kept =
        subst (IsKept capacity)
          (ap (λ n. take n ((key, entry) ∷ without key (entries.iter stats))) (sym h.same_cap)
            ∙ sym (order.iter-put key entry stats))
          (put-IsKept capacity key entry (entries.iter stats) h.kept);
    same_cap = order.cap-put key entry stats ∙ h.same_cap;
  }

  clear-Holds :
      (capacity : ℕ) (stats : C)
      → Holds entries capacity stats
      → Holds entries capacity (lru.clear stats)
  clear-Holds capacity stats h = record {
    kept =
        subst (IsKept capacity) (sym (order.iter-clear stats))
          (record { distinct = no_entry; bounded = omega arith });
    same_cap = order.cap-clear stats ∙ h.same_cap;
  }

  pop_all-Holds :
      (capacity : ℕ) (keys : List String) (stats : C)
      → Holds entries capacity stats
      → Holds entries capacity (pop_all entries keys stats)
  pop_all-Holds capacity [] stats h = h
  pop_all-Holds capacity (key ∷ keys) stats h =
      pop_all-Holds capacity keys (entries.pop key stats) (record {
        kept = subst (IsKept capacity) (sym (entries.iter-pop key stats)) (record {
          distinct = without-Distinct key _ h.kept.distinct;
          bounded = omega (arith, h.kept.bounded, length-without key (entries.iter stats));
        });
        same_cap = order.cap-pop key stats ∙ h.same_cap;
      })

  pub attempt-Holds :
      (capacity now : ℕ) (url : String) (stats : C)
      → Holds entries capacity stats
      → Holds entries capacity (track_connection_attempt lru now url stats)
  unfolding track_connection_attempt
  attempt-Holds capacity now url stats h = elim (Option-cases (lru.peek url stats)) [
    | inl unknown ↦ rw (unknown, track_connection_attempt) (put-Holds capacity url _ stats h)
    | inr (entry, known) ↦
        rw (known, track_connection_attempt) (get_mut-Holds capacity url _ stats h)
  ]

module _ {C D : Type 0} (lru : Lru C) (entries : LruEntries C) (ttl : ℕ) where
  abbrev pub called : Call D → C → C
  called (connects transports began done url) stats =
      (connect lru transports began done url stats).1
  called (cleans now) stats = cleanup_expired_entries entries ttl now stats
  called clears stats = clear_cache lru stats

  abbrev pub all_called : List (Call D) → C → C
  all_called [] stats = stats
  all_called (c ∷ rest) stats = all_called rest (called c stats)

  module _ (order : LruOrder lru entries) where
    finish-Holds :
        (capacity now : ℕ) (url : String) (r : TransportResult D) (stats : C)
        → Holds entries capacity stats
        → Holds entries capacity (finish lru now url r stats).1
    unfolding track_successful_connection
    finish-Holds capacity now url (ok stream) stats h =
        get_mut-Holds lru entries order capacity url _ stats h
    finish-Holds capacity now url (err e) stats h = h
    finish-Holds capacity now url panic stats h = h

    through-Holds :
        (capacity now : ℕ) (url : String) (t : Option (Transport D)) (stats : C)
        → Holds entries capacity stats
        → Holds entries capacity (through lru now url t stats).1
    through-Holds capacity now url none stats h = h
    through-Holds capacity now url (some t) stats h =
        finish-Holds capacity now url (t.connect url) stats h

    pub called-Holds :
        (capacity : ℕ) (c : Call D) (stats : C)
        → Holds entries capacity stats
        → Holds entries capacity (called c stats)
    unfolding connect cleanup_expired_entries
    called-Holds capacity (connects transports began done url) stats h =
        through-Holds capacity done url (find_transport_for_url transports url) _
          (attempt-Holds lru entries order capacity began url stats h)
    called-Holds capacity (cleans now) stats h =
        pop_all-Holds lru entries order capacity (expired_keys ttl now (entries.iter stats)) stats h
    called-Holds capacity clears stats h = clear-Holds lru entries order capacity stats h
