-- ===== src/Examples/Registries.antt =====
-- The cache and the table of the manager at concrete inputs: lists of what they hold.
use text.Mathlib.Text.{◌==◌}
use text.Mathlib.TextEquality.{eq_iff}
use mathlib.Core.Bool.{false≢true}
use mathlib.Core.Option.{some-injective}
use zeroio.Common.{
  ℕ, ◌≡◌, refl, ap, String, Bool, true, false, Option, none, some, List, [], ◌∷◌, ◌++◌, ok, err,
  length, All, inl, inr, if◌then◌else◌,
}
use zeroio.Transport.Errors.{connection_closed}
use zeroio.Transport.Manager.{CacheEntry, Transport, find_transport_for_url}
use zeroio.Transport.Manager.Expiry.{
  LruEntries, Distinct, one_more, no_entry, not_here, nowhere, without, active, cache_stats,
  cleanup_expired_entries,
}
use zeroio.Transport.Manager.Cleanup.{cleanup_exact}
use zeroio.Transport.Manager.Registry.{
  Table, BuiltIn, default_transports, register_default_transports,
}
use zeroio.Transport.Manager.Choice.{IsAmong, order_is_irrelevant}

abbrev Entries : Type 0
Entries = List (String × CacheEntry)

abbrev caches : LruEntries Entries
caches = record {
  iter = λ c. c;
  len = λ c. length c;
  cap = λ c. 100;
  pop = without;
  iter-pop = λ key c. refl;
  len-iter = λ c. refl;
}

abbrev used : ℕ → CacheEntry
used time = record { last_used = time; connection_count = 1 }

abbrev cached : Entries
cached = ("tcp://a", used 10) ∷ ("tcp://b", used 90) ∷ []

cached-Distinct : Distinct cached
cached-Distinct =
    one_more (not_here (λ e. false≢true ((eq_iff "tcp://b" "tcp://a").1 e)) nowhere)
      (one_more nowhere no_entry)

cleanup_exact_example :
    (cleanup_expired_entries caches 50 100 cached ≡ active 50 100 cached)
    × ((cache_stats caches 50 100 (cleanup_expired_entries caches 50 100 cached)).active_entries
        ≡ (cache_stats caches 50 100 (cleanup_expired_entries caches 50 100 cached)).size)
cleanup_exact_example = cleanup_exact caches 50 100 cached cached-Distinct

abbrev pub Registered : Type 0
Registered = List (String × Transport ℕ)

abbrev lookup : String → Registered → Option (Transport ℕ)
lookup key [] = none
lookup key ((k, t) ∷ rest) = let found = lookup key rest in if key == k then some t else found

abbrev all_of : Registered → List (Transport ℕ)
all_of [] = []
all_of ((k, t) ∷ rest) = t ∷ all_of rest

abbrev pub Inside : Transport ℕ → List (Transport ℕ) → Type 0
Inside t ts =
    (before : List (Transport ℕ)) × (after : List (Transport ℕ)) × (ts ≡ before ++ (t ∷ after))

pub lookup-Inside :
    (key : String) (t : Transport ℕ) (m : Registered) → lookup key m ≡ some t → Inside t (all_of m)
lookup-Inside key t [] e = cc
lookup-Inside key t ((k, t') ∷ rest) e = by_test (key == k) e (lookup-Inside key t rest)
  where
    by_test :
        (b : Bool)
        → (if b then some t' else lookup key rest) ≡ some t
        → (lookup key rest ≡ some t → Inside t (all_of rest))
        → Inside t (t' ∷ all_of rest)
    by_test true q later = ([], all_of rest, ap (λ x. x ∷ all_of rest) (some-injective t' t q))
    by_test false q later =
        let (before, after, same) = later q in (t' ∷ before, after, ap (λ l. t' ∷ l) same)

abbrev pub table : Table Registered ℕ
table = record {
  insert = λ key t m. (key, t) ∷ m;
  get = lookup;
  values = all_of;
  get-insert = λ key t m. ap (λ b. if b then some t else lookup key m) ((eq_iff key key).1 refl);
  get-insert_other = λ key other t m e. ap (λ b. if b then some t else lookup other m) e;
  values-get = lookup-Inside;
}

abbrev pub made : BuiltIn ℕ
made = record {
  tcp = λ url. ok 1;
  ipc = λ url. ok 2;
  stdio = λ url. ok 3;
  websocket = λ url. ok 4;
  channel = λ url. err connection_closed;
}

-- The map of the example is iterated in the reverse order.
only_built_in :
    All
      (λ t. IsAmong t (default_transports made))
      (table.values (register_default_transports table made []))
only_built_in = (
  inr (inr (inr (inr (inl refl)))),
  (inr (inr (inr (inl refl))), (inr (inr (inl refl)), (inr (inl refl), (inl refl, tt)))),
)

order_is_irrelevant_example :
    find_transport_for_url
      (table.values (register_default_transports table made []))
      "wss://example.org:443"
    ≡ find_transport_for_url (default_transports made) "wss://example.org:443"
order_is_irrelevant_example =
    order_is_irrelevant table made [] "wss://example.org:443" only_built_in
