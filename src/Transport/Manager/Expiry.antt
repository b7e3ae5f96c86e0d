-- ===== src/Transport/Manager/Expiry.antt =====
-- The expiry of entries in crates/transport/src/manager.rs. The cache is one of the crate `lru`, with
-- its entries in the order in which it is iterated.
use text.Mathlib.Text.{◌==◌}
use zeroio.Common.{ℕ, ◌-◌, ◌≡◌, ◌≢◌, String, Bool, List, [], ◌∷◌, length, ltb, leb, if◌then◌else◌}
use zeroio.Transport.Manager.{CacheEntry}

abbrev pub without : String → List (String × CacheEntry) → List (String × CacheEntry)
without key [] = []
without key ((k, entry) ∷ rest) =
    let others = without key rest in if k == key then others else (k, entry) ∷ others

pub data Fresh (key : String) : List (String × CacheEntry) → Type 0 where
  nowhere : Fresh key []
  not_here :
      {k : String} {entry : CacheEntry} {rest : List (String × CacheEntry)}
      → k ≢ key
      → Fresh key rest
      → Fresh key ((k, entry) ∷ rest)

pub data Distinct : List (String × CacheEntry) → Type 0 where
  no_entry : Distinct []
  one_more :
      {key : String} {entry : CacheEntry} {rest : List (String × CacheEntry)}
      → Fresh key rest
      → Distinct rest
      → Distinct ((key, entry) ∷ rest)

pub record LruEntries (C : Type 0) : Type 0 where
  pub iter : C → List (String × CacheEntry)
  pub len : C → ℕ
  pub cap : C → ℕ
  pub pop : String → C → C
  pub iter-pop : (key : String) (cache : C) → iter (pop key cache) ≡ without key (iter cache)
  pub len-iter : (cache : C) → len cache ≡ length (iter cache)

pub record CacheStats : Type 0 where
  pub size : ℕ
  pub capacity : ℕ
  pub active_entries : ℕ

-- `now.duration_since(..)` is 0 where `now` is before.
abbrev pub is_active : ℕ → ℕ → CacheEntry → Bool
is_active ttl now entry = ltb (now - entry.last_used) ttl

abbrev pub active : ℕ → ℕ → List (String × CacheEntry) → List (String × CacheEntry)
active ttl now [] = []
active ttl now ((key, entry) ∷ rest) =
    let others = active ttl now rest in
    if is_active ttl now entry then (key, entry) ∷ others else others

abbrev pub is_expired : ℕ → ℕ → CacheEntry → Bool
is_expired ttl now entry = leb ttl (now - entry.last_used)

abbrev pub expired_keys : ℕ → ℕ → List (String × CacheEntry) → List String
expired_keys ttl now [] = []
expired_keys ttl now ((key, entry) ∷ rest) =
    let others = expired_keys ttl now rest in
    if is_expired ttl now entry then key ∷ others else others

module _ {C : Type 0} (lru : LruEntries C) where
  unfoldable pub cache_stats : ℕ → ℕ → C → CacheStats
  cache_stats ttl now stats = record {
    size = lru.len stats;
    capacity = lru.cap stats;
    active_entries = length (active ttl now (lru.iter stats));
  }

  abbrev pub pop_all : List String → C → C
  pop_all [] stats = stats
  pop_all (key ∷ keys) stats = pop_all keys (lru.pop key stats)

  unfoldable pub cleanup_expired_entries : ℕ → ℕ → C → C
  cleanup_expired_entries ttl now stats = pop_all (expired_keys ttl now (lru.iter stats)) stats
