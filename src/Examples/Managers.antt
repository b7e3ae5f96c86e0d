-- ===== src/Examples/Managers.antt =====
-- The connection statistics over a small cache, the most recent entry first.
use text.Mathlib.TextPositions.{eq_refl}
use zeroio.Common.{
  ℕ, ◌≡◌, refl, String, true, Option, none, some, List, [], ◌∷◌, ok, err, take, arith, length,
}
use zeroio.Transport.Errors.{connection_closed}
use zeroio.Transport.Manager.{CacheEntry, Lru, Transport, changed, get_connection_frequency}
use zeroio.Transport.Manager.Expiry.{LruEntries, without}
use zeroio.Transport.Manager.Entries.{LruOrder, lookup, in_front}
use zeroio.Transport.Manager.Entries.Kept.{Call, connects, cleans, all_called}
use zeroio.Transport.Manager.Entries.Described.{all_described, manager_refines_list}
use zeroio.Transport.Manager.Frequency.{Attempt, connect_all, frequency_counts}

abbrev pub Entries : Type 0
Entries = List (String × CacheEntry)

-- Two entries are kept.
abbrev put_entry : String → CacheEntry → Entries → Entries
put_entry key entry cache = (key, entry) ∷ take 1 (without key cache)

lookup-in_front :
    (key : String) (f : CacheEntry → CacheEntry) (cache : Entries) (found : Option CacheEntry)
    → lookup key cache ≡ found
    → lookup key (in_front key f found cache) ≡ changed f found
lookup-in_front key f cache none e = e
lookup-in_front key f cache (some entry) e = rw (eq_refl key)

pub lookup-changed :
    (key : String) (f : CacheEntry → CacheEntry) (cache : Entries)
    → lookup key (in_front key f (lookup key cache) cache) ≡ changed f (lookup key cache)
lookup-changed key f cache = lookup-in_front key f cache (lookup key cache) refl

abbrev pub small_lru : Lru Entries
small_lru = record {
  get_mut = λ key f cache. in_front key f (lookup key cache) cache;
  put = put_entry;
  peek = lookup;
  clear = λ cache. [];
  peek-get_mut = lookup-changed;
  peek-put = λ key entry cache. rw (eq_refl key);
  peek-clear = λ key cache. refl;
}

-- A transport for every url that connects, and one that does not.
abbrev up : Transport ℕ
up = record { transport_type = "tcp"; supports_url = λ url. true; connect = λ url. ok 1 }

abbrev down : Transport ℕ
down = record {
  transport_type = "tcp";
  supports_url = λ url. true;
  connect = λ url. err connection_closed;
}

abbrev attempt : List (Transport ℕ) → ℕ → Attempt ℕ
attempt transports at = record { transports = transports; began = at; done = at }

frequency_counts_example :
    get_connection_frequency small_lru "tcp://a" (
      connect_all small_lru "tcp://a"
        (attempt (up ∷ []) 1 ∷ attempt (down ∷ []) 2 ∷ attempt [] 3 ∷ attempt (up ∷ []) 4 ∷ [])
        [])
    ≡ some 2
frequency_counts_example =
    frequency_counts small_lru "tcp://a" (attempt (up ∷ []) 1)
      (attempt (down ∷ []) 2 ∷ attempt [] 3 ∷ attempt (up ∷ []) 4 ∷ []) [] refl

abbrev two_entries : LruEntries Entries
two_entries = record {
  iter = λ cache. cache;
  len = λ cache. length cache;
  cap = λ cache. 2;
  pop = without;
  iter-pop = λ key cache. refl;
  len-iter = λ cache. refl;
}

small_order : LruOrder small_lru two_entries
small_order = record {
  peek-lookup = λ key cache. refl;
  iter-put = λ key entry cache. refl;
  iter-get_mut = λ key f cache. refl;
  iter-clear = λ cache. refl;
  cap-put = λ key entry cache. refl;
  cap-get_mut = λ key f cache. refl;
  cap-clear = λ cache. refl;
  cap-pop = λ key cache. refl;
}

abbrev some_calls : List (Call ℕ)
some_calls =
    connects (up ∷ []) 1 2 "tcp://a"
    ∷ connects (down ∷ []) 3 4 "tcp://b"
    ∷ connects [] 5 6 "tcp://c"
    ∷ cleans 7
    ∷ connects (up ∷ []) 8 9 "tcp://a"
    ∷ []

manager_refines_list_example :
    all_called small_lru two_entries 5 some_calls [] ≡ all_described 2 5 some_calls []
manager_refines_list_example =
    manager_refines_list small_lru two_entries 5 small_order some_calls [] refl (omega arith)
