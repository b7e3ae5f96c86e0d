-- ===== src/Transport/Manager/Entries.antt =====
-- The entries of the connection statistics of crates/transport/src/manager.rs, call by call of the
-- cache. The cache is one of the crate `lru`, iterated from the most recent entry to the oldest.
pub mod Kept
pub mod Described
use text.Mathlib.Text.{◌==◌}
use text.Mathlib.TextEquality.{eq_iff}
use mathlib.Core.Bool.{false≢true}
use zeroio.Common.{
  ℕ, suc, zero, ◌≡◌, ◌≤◌, ◌≢◌, refl, sym, ◌∙◌, ap, subst, String, Bool, true, false, Option, none,
  some, List, [], ◌∷◌, length, take, ok, err, panic, if◌then◌else◌, Bool-cases, Option-cases, inl,
  inr, arith,
}
use zeroio.Transport.Errors.{TransportResult}
use zeroio.Transport.Manager.{
  CacheEntry, Lru, Transport, changed, find_transport_for_url, track_connection_attempt,
  track_successful_connection, through, finish, connect, clear_cache,
}
use zeroio.Transport.Manager.Expiry.{
  without, Fresh, nowhere, not_here, Distinct, no_entry, one_more, LruEntries, is_active, active,
  expired_keys, cache_stats, pop_all, cleanup_expired_entries,
}

abbrev pub lookup : String → List (String × CacheEntry) → Option CacheEntry
lookup key [] = none
lookup key ((k, entry) ∷ rest) =
    let found = lookup key rest in if k == key then some entry else found

abbrev pub in_front :
    String
    → (CacheEntry → CacheEntry)
    → Option CacheEntry
    → List (String × CacheEntry)
    → List (String × CacheEntry)
in_front key f none entries = entries
in_front key f (some entry) entries = (key, f entry) ∷ without key entries

-- `put` and `get_mut` make an entry the most recent one, and `put` drops the oldest where there are
-- more of them than the capacity, which does not change.
pub record LruOrder {C : Type 0} (lru : Lru C) (entries : LruEntries C) : Type 0 where
  pub peek-lookup :
      (key : String) (cache : C) → lru.peek key cache ≡ lookup key (entries.iter cache)
  pub iter-put :
      (key : String) (entry : CacheEntry) (cache : C)
      → entries.iter (lru.put key entry cache)
        ≡ take (entries.cap cache) ((key, entry) ∷ without key (entries.iter cache))
  pub iter-get_mut :
      (key : String) (f : CacheEntry → CacheEntry) (cache : C)
      → entries.iter (lru.get_mut key f cache)
        ≡ in_front key f (lookup key (entries.iter cache)) (entries.iter cache)
  pub iter-clear : (cache : C) → entries.iter (lru.clear cache) ≡ []
  pub cap-put :
      (key : String) (entry : CacheEntry) (cache : C)
      → entries.cap (lru.put key entry cache) ≡ entries.cap cache
  pub cap-get_mut :
      (key : String) (f : CacheEntry → CacheEntry) (cache : C)
      → entries.cap (lru.get_mut key f cache) ≡ entries.cap cache
  pub cap-clear : (cache : C) → entries.cap (lru.clear cache) ≡ entries.cap cache
  pub cap-pop : (key : String) (cache : C) → entries.cap (entries.pop key cache) ≡ entries.cap cache

without-Fresh : (key : String) (l : List (String × CacheEntry)) → Fresh key (without key l)
without-Fresh key [] = nowhere
without-Fresh key ((k, entry) ∷ rest) = elim (Bool-cases (k == key)) [
  | inl same ↦ rw same (without-Fresh key rest)
  | inr other ↦
      rw other
        (not_here (λ e. false≢true (sym other ∙ (eq_iff k key).1 e)) (without-Fresh key rest))
]

Fresh-without :
    (x key : String) (l : List (String × CacheEntry)) → Fresh x l → Fresh x (without key l)
Fresh-without x key [] f = nowhere
Fresh-without x key ((k, entry) ∷ rest) (not_here ne f) = elim (Bool-cases (k == key)) [
  | inl same ↦ rw same (Fresh-without x key rest f)
  | inr other ↦ rw other (not_here ne (Fresh-without x key rest f))
]

pub without-Distinct :
    (key : String) (l : List (String × CacheEntry)) → Distinct l → Distinct (without key l)
without-Distinct key [] d = no_entry
without-Distinct key ((k, entry) ∷ rest) (one_more f d) = elim (Bool-cases (k == key)) [
  | inl same ↦ rw same (without-Distinct key rest d)
  | inr other ↦ rw other (one_more (Fresh-without k key rest f) (without-Distinct key rest d))
]

take-Fresh : (n : ℕ) (x : String) (l : List (String × CacheEntry)) → Fresh x l → Fresh x (take n l)
take-Fresh zero x l f = nowhere
take-Fresh (suc n) x [] f = nowhere
take-Fresh (suc n) x (e ∷ rest) (not_here ne f) = not_here ne (take-Fresh n x rest f)

take-Distinct : (n : ℕ) (l : List (String × CacheEntry)) → Distinct l → Distinct (take n l)
take-Distinct zero l d = no_entry
take-Distinct (suc n) [] d = no_entry
take-Distinct (suc n) (e ∷ rest) (one_more f d) =
    one_more (take-Fresh n _ rest f) (take-Distinct n rest d)

take-bound : (n : ℕ) (l : List (String × CacheEntry)) → length (take n l) ≤ n
take-bound zero l = omega arith
take-bound (suc n) [] = omega arith
take-bound (suc n) (e ∷ rest) = omega (arith, take-bound n rest)

pub length-without :
    (key : String) (l : List (String × CacheEntry)) → length (without key l) ≤ length l
length-without key [] = omega arith
length-without key ((k, entry) ∷ rest) = elim (Bool-cases (k == key)) [
  | inl same ↦ rw same (omega (arith, length-without key rest))
  | inr other ↦ rw other (omega (arith, length-without key rest))
]

-- An entry that is found is one that `without` leaves out.
length-found :
    (key : String) (entry : CacheEntry) (l : List (String × CacheEntry))
    → lookup key l ≡ some entry
    → suc (length (without key l)) ≤ length l
length-found key entry [] e = cc
length-found key entry ((k, first) ∷ rest) e = elim (Bool-cases (k == key)) [
  | inl same ↦ rw same (omega (arith, length-without key rest))
  | inr other ↦ rw other (omega (arith, length-found key entry rest (rw other at e)))
]

-- No entry stands there twice, and there are no more of them than the capacity.
pub record IsKept (capacity : ℕ) (l : List (String × CacheEntry)) : Type 0 where
  pub distinct : Distinct l
  pub bounded : length l ≤ capacity

pub in_front-IsKept :
    (capacity : ℕ) (key : String) (f : CacheEntry → CacheEntry) (o : Option CacheEntry)
    (l : List (String × CacheEntry))
    → lookup key l ≡ o
    → IsKept capacity l
    → IsKept capacity (in_front key f o l)
in_front-IsKept capacity key f none l e kept = kept
in_front-IsKept capacity key f (some entry) l e kept = record {
  distinct = one_more (without-Fresh key l) (without-Distinct key l kept.distinct);
  bounded = omega (arith, kept.bounded, length-found key entry l e);
}

pub put-IsKept :
    (capacity : ℕ) (key : String) (entry : CacheEntry) (l : List (String × CacheEntry))
    → IsKept capacity l
    → IsKept capacity (take capacity ((key, entry) ∷ without key l))
put-IsKept capacity key entry l kept = record {
  distinct =
      take-Distinct capacity _
        (one_more (without-Fresh key l) (without-Distinct key l kept.distinct));
  bounded = take-bound capacity _;
}
