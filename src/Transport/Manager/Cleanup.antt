-- ===== src/Transport/Manager/Cleanup.antt =====
-- What `cleanup_expired_entries` leaves in the cache.
use text.Mathlib.Text.{◌==◌}
use text.Mathlib.TextEquality.{eq_iff}
use zeroio.Common.{
  ℕ, ◌≡◌, ◌≢◌, tests, refl, sym, ◌∙◌, ap, String, Bool, true, false, List, [], ◌∷◌, length,
  if◌then◌else◌, Bool-cases, inl, inr, All,
}
use zeroio.Transport.Manager.{CacheEntry}
use zeroio.Transport.Manager.Expiry.{
  without, Fresh, not_here, Distinct, one_more, LruEntries, is_active, is_expired, active,
  expired_keys, cache_stats, pop_all, cleanup_expired_entries,
}

abbrev without_all : List String → List (String × CacheEntry) → List (String × CacheEntry)
without_all [] entries = entries
without_all (key ∷ keys) entries = without_all keys (without key entries)

different-== : (a b : String) → a ≢ b → (a == b) ≡ false
different-== a b ne = elim (Bool-cases (a == b)) [
  | inl t ↦ absurd (ne ((eq_iff a b).0 t))
  | inr f ↦ f
]

expired-not_active :
    (ttl now : ℕ) (entry : CacheEntry)
    → is_expired ttl now entry ≡ true
    → is_active ttl now entry ≡ false
expired-not_active ttl now entry e = grind tests

fresh-active :
    (ttl now : ℕ) (entry : CacheEntry)
    → is_expired ttl now entry ≡ false
    → is_active ttl now entry ≡ true
fresh-active ttl now entry e = grind tests

pub without-Fresh :
    (key : String) (entries : List (String × CacheEntry))
    → Fresh key entries
    → without key entries ≡ entries
without-Fresh key [] f = refl
without-Fresh key ((k, entry) ∷ rest) (not_here ne f) =
    ap (λ b. if b then without key rest else (k, entry) ∷ without key rest) (different-== k key ne)
    ∙ ap (λ l. (k, entry) ∷ l) (without-Fresh key rest f)

abbrev OtherThan : String → String → Type 0
OtherThan key k = key ≢ k

without_all-kept :
    (keys : List String) (key : String) (entry : CacheEntry) (rest : List (String × CacheEntry))
    → All (OtherThan key) keys
    → without_all keys ((key, entry) ∷ rest) ≡ (key, entry) ∷ without_all keys rest
without_all-kept [] key entry rest others = refl
without_all-kept (k ∷ keys) key entry rest (ne, others) =
    ap (λ b. without_all keys (if b then without k rest else (key, entry) ∷ without k rest))
      (different-== key k ne)
    ∙ without_all-kept keys key entry (without k rest) others

expired_keys-OtherThan :
    (ttl now : ℕ) (key : String) (entries : List (String × CacheEntry))
    → Fresh key entries
    → All (OtherThan key) (expired_keys ttl now entries)
expired_keys-OtherThan ttl now key [] f = tt
expired_keys-OtherThan ttl now key ((k, entry) ∷ rest) (not_here ne f) =
    by_test (is_expired ttl now entry) (expired_keys-OtherThan ttl now key rest f)
  where
    by_test :
        (b : Bool)
        → All (OtherThan key) (expired_keys ttl now rest)
        → All
            (OtherThan key)
            (if b then k ∷ expired_keys ttl now rest else expired_keys ttl now rest)
    by_test true others = (λ e. ne (sym e), others)
    by_test false others = others

without_all-active :
    (ttl now : ℕ) (entries : List (String × CacheEntry))
    → Distinct entries
    → without_all (expired_keys ttl now entries) entries ≡ active ttl now entries
without_all-active ttl now [] d = refl
without_all-active ttl now ((key, entry) ∷ rest) (one_more f d) =
    by_test (is_expired ttl now entry) refl (without_all-active ttl now rest d)
  where
    by_test :
        (b : Bool)
        → is_expired ttl now entry ≡ b
        → without_all (expired_keys ttl now rest) rest ≡ active ttl now rest
        → without_all
            (if b then key ∷ expired_keys ttl now rest else expired_keys ttl now rest)
            ((key, entry) ∷ rest)
          ≡ (if is_active ttl now entry
              then (key, entry) ∷ active ttl now rest
              else active ttl now rest)
    by_test true e ih =
        ap
          (λ b.
            without_all (expired_keys ttl now rest)
              (if b then without key rest else (key, entry) ∷ without key rest))
          ((eq_iff key key).1 refl)
        ∙ ap (without_all (expired_keys ttl now rest)) (without-Fresh key rest f)
        ∙ ih
        ∙ ap (λ b. if b then (key, entry) ∷ active ttl now rest else active ttl now rest)
            (sym (expired-not_active ttl now entry e))
    by_test false e ih =
        without_all-kept (expired_keys ttl now rest) key entry rest
          (expired_keys-OtherThan ttl now key rest f)
        ∙ ap (λ l. (key, entry) ∷ l) ih
        ∙ ap (λ b. if b then (key, entry) ∷ active ttl now rest else active ttl now rest)
            (sym (fresh-active ttl now entry e))

active-active :
    (ttl now : ℕ) (entries : List (String × CacheEntry))
    → active ttl now (active ttl now entries) ≡ active ttl now entries
active-active ttl now [] = refl
active-active ttl now ((key, entry) ∷ rest) =
    by_test (is_active ttl now entry) refl (active-active ttl now rest)
  where
    by_test :
        (b : Bool)
        → is_active ttl now entry ≡ b
        → active ttl now (active ttl now rest) ≡ active ttl now rest
        → active ttl now (if b then (key, entry) ∷ active ttl now rest else active ttl now rest)
          ≡ (if b then (key, entry) ∷ active ttl now rest else active ttl now rest)
    by_test true e ih =
        ap
          (λ b.
            if b
            then (key, entry) ∷ active ttl now (active ttl now rest)
            else active ttl now (active ttl now rest))
          e
        ∙ ap (λ l. (key, entry) ∷ l) ih
    by_test false e ih = ih

module _ {C : Type 0} (lru : LruEntries C) where
  iter-pop_all :
      (keys : List String) (stats : C)
      → lru.iter (pop_all lru keys stats) ≡ without_all keys (lru.iter stats)
  iter-pop_all [] stats = refl
  iter-pop_all (key ∷ keys) stats =
      iter-pop_all keys (lru.pop key stats) ∙ ap (without_all keys) (lru.iter-pop key stats)

  -- Where no key stands in the cache twice, the clean-up leaves exactly the entries that are active, in
  -- their order; after it, all the entries that the statistics count are active ones.
  pub cleanup_exact :
      (ttl now : ℕ) (stats : C)
      → Distinct (lru.iter stats)
      → (lru.iter (cleanup_expired_entries lru ttl now stats) ≡ active ttl now (lru.iter stats))
        × ((cache_stats lru ttl now (cleanup_expired_entries lru ttl now stats)).active_entries
            ≡ (cache_stats lru ttl now (cleanup_expired_entries lru ttl now stats)).size)
  unfolding cleanup_expired_entries cache_stats
  cleanup_exact ttl now stats distinct =
      let left : lru.iter (pop_all lru (expired_keys ttl now (lru.iter stats)) stats)
          ≡ active ttl now (lru.iter stats) =
        iter-pop_all (expired_keys ttl now (lru.iter stats)) stats
        ∙ without_all-active ttl now (lru.iter stats) distinct in
      (
        left,
        ap (λ l. length (active ttl now l)) left
            ∙ ap length (active-active ttl now (lru.iter stats))
            ∙ ap length (sym left)
            ∙ sym (lru.len-iter _),
      )
