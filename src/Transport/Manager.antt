-- ===== src/Transport/Manager.antt =====
-- `TransportManager` of crates/transport/src/manager.rs: the choice of a transport, and the
-- statistics of connections in a cache of the `lru` crate, which is a parameter. Instants are
-- numbers. The mutex is never poisoned, as a panic ends the process in a release build.
pub mod Frequency
pub mod Expiry
pub mod Registry
pub mod Found
pub mod Cleanup
pub mod Entries
pub mod Ratios
pub mod Choice
use zeroio.Common.{
  ℕ, suc, String, Bool, true, false, ◌≡◌, ◌<◌, Option, none, some, List, [], ◌∷◌, Result, ok, err,
  panic, ltb, if◌then◌else◌,
}
use zeroio.Common.Words.{as_u64}
use zeroio.Protocol.Errors.{lit}
use zeroio.Transport.Errors.{TransportError, TransportResult, unsupported_transport}

pub record CacheEntry : Type 0 where
  pub last_used : ℕ
  pub connection_count : ℕ

abbrev pub changed : (CacheEntry → CacheEntry) → Option CacheEntry → Option CacheEntry
changed f none = none
changed f (some entry) = some (f entry)

-- A cache of the crate `lru`, of a type `C`. `get_mut` with what is done to the entry that it finds;
-- an entry that was just put is there, and so is one that was just changed.
pub record Lru (C : Type 0) : Type 0 where
  pub get_mut : String → (CacheEntry → CacheEntry) → C → C
  pub put : String → CacheEntry → C → C
  pub peek : String → C → Option CacheEntry
  pub clear : C → C
  pub peek-get_mut :
      (key : String) (f : CacheEntry → CacheEntry) (cache : C)
      → peek key (get_mut key f cache) ≡ changed f (peek key cache)
  pub peek-put :
      (key : String) (entry : CacheEntry) (cache : C) → peek key (put key entry cache) ≡ some entry
  pub peek-clear : (key : String) (cache : C) → peek key (clear cache) ≡ none

-- A registered transport, with the result of a connection to each url.
pub record Transport (D : Type 0) : Type 0 where
  pub transport_type : String
  pub supports_url : String → Bool
  pub connect : String → TransportResult D

-- The transports in the order in which the map is iterated.
abbrev pub find_transport_for_url :
    {D : Type 0} → List (Transport D) → String → Option (Transport D)
find_transport_for_url [] url = none
find_transport_for_url (t ∷ ts) url =
    let rest = find_transport_for_url ts url in if t.supports_url url then some t else rest

module _ {C : Type 0} (lru : Lru C) where
  -- `now` is `Instant::now()`.
  unfoldable pub track_connection_attempt : ℕ → String → C → C
  track_connection_attempt now url stats = elim (lru.peek url stats) [
    | some found ↦ lru.get_mut url (λ entry. record entry { last_used = now }) stats
    | none ↦ lru.put url (record { last_used = now; connection_count = 0 }) stats
  ]

  abbrev pub counted : ℕ → CacheEntry → CacheEntry
  counted now entry = record {
    last_used = now;
    connection_count = as_u64 (suc entry.connection_count);
  }

  unfoldable pub track_successful_connection : ℕ → String → C → C
  track_successful_connection now url stats = lru.get_mut url (counted now) stats

  abbrev count_of : Option CacheEntry → Option ℕ
  count_of none = none
  count_of (some entry) = some entry.connection_count

  unfoldable pub get_connection_frequency : String → C → Option ℕ
  get_connection_frequency url stats = count_of (lru.peek url stats)

  abbrev more_than_five : Option ℕ → Bool
  more_than_five none = false
  more_than_five (some count) = ltb 5 count

  abbrev pub is_frequently_accessed : String → C → Bool
  unfolding get_connection_frequency
  is_frequently_accessed url stats = more_than_five (get_connection_frequency url stats)

  abbrev pub clear_cache : C → C
  clear_cache stats = lru.clear stats

  abbrev finish : {D : Type 0} → ℕ → String → TransportResult D → C → TransportResult D × C
  finish now url (ok stream) stats = (ok stream, track_successful_connection now url stats)
  finish now url (err e) stats = (err e, stats)
  finish now url panic stats = (panic, stats)

  abbrev through : {D : Type 0} → ℕ → String → Option (Transport D) → C → TransportResult D × C
  through now url none stats =
      (err (unsupported_transport (lit "No transport for URL: " ∷ lit url ∷ [])), stats)
  through now url (some t) stats = finish now url (t.connect url) stats

  -- `connect`, begun at one time and done at another.
  unfoldable pub connect :
      {D : Type 0} → List (Transport D) → ℕ → ℕ → String → C → TransportResult D × C
  unfolding track_connection_attempt track_successful_connection
  connect transports began done url stats =
      through done url (find_transport_for_url transports url)
        (track_connection_attempt began url stats)
