-- ===== src/Transport/Manager/Registry.antt =====
-- The registered transports of crates/transport/src/manager.rs. The concurrent map that keeps them is
-- a parameter, of a type `M`, with its values in the order in which it is iterated; so are the
-- connections that the transports make, of a type `D`.
use text.Mathlib.Text.{◌==◌}
use zeroio.Common.{
  ℕ, ltb, if◌then◌else◌, String, ◌≡◌, false, Option, some, List, [], ◌∷◌, ◌++◌, err,
}
use zeroio.Protocol.Errors.{lit}
use zeroio.Transport.Errors.{TransportResult, unsupported_transport}
use zeroio.Transport.Traits.{from_secs}
use zeroio.Transport.Manager.{Transport}
use zeroio.Transport.Tcp.Connect as Tcp
use zeroio.Transport.Ipc as Ipc
use zeroio.Transport.Stdio as Stdio
use zeroio.Transport.WebSocket.Connect as WebSocket
use zeroio.Transport.Channel as Channel

pub record Table (M D : Type 0) : Type 0 where
  pub insert : String → Transport D → M → M
  pub get : String → M → Option (Transport D)
  pub values : M → List (Transport D)
  pub get-insert : (key : String) (t : Transport D) (m : M) → get key (insert key t m) ≡ some t
  pub get-insert_other :
      (key other : String) (t : Transport D) (m : M)
      → (other == key) ≡ false
      → get other (insert key t m) ≡ get other m
  pub values-get :
      (key : String) (t : Transport D) (m : M)
      → get key m ≡ some t
      → (before : List (Transport D)) × (after : List (Transport D)) × (values m
          ≡ before ++ (t ∷ after))

-- The connections of the built-in transports.
pub record BuiltIn (D : Type 0) : Type 0 where
  pub tcp : String → TransportResult D
  pub ipc : String → TransportResult D
  pub stdio : String → TransportResult D
  pub websocket : String → TransportResult D
  pub channel : String → TransportResult D

-- The listener of a transport whose type is erased.
abbrev pub erased_listen : {A : Type 0} → String → TransportResult A
erased_listen url = err (
    unsupported_transport
      (lit "Type-erased transport listeners are not supported via TransportManager." ∷ []))

-- The transports in the order in which they are registered.
abbrev pub default_transports : {D : Type 0} → BuiltIn D → List (Transport D)
default_transports made =
    record { transport_type = "tcp"; supports_url = Tcp.supports_url; connect = made.tcp }
    ∷ record { transport_type = "ipc"; supports_url = Ipc.supports_url; connect = made.ipc }
    ∷ record { transport_type = "stdio"; supports_url = Stdio.supports_url; connect = made.stdio }
    ∷ record {
      transport_type = "websocket";
      supports_url = WebSocket.supports_url;
      connect = made.websocket;
    }
    ∷ record {
      transport_type = "chan";
      supports_url = Channel.supports_url;
      connect = made.channel;
    }
    ∷ []

abbrev pub register_transport : {M D : Type 0} → Table M D → Transport D → M → M
register_transport table t m = table.insert t.transport_type t m

abbrev pub register_all : {M D : Type 0} → Table M D → List (Transport D) → M → M
register_all table [] m = m
register_all table (t ∷ ts) m = register_all table ts (register_transport table t m)

abbrev pub register_default_transports : {M D : Type 0} → Table M D → BuiltIn D → M → M
register_default_transports table made m = register_all table (default_transports made) m

-- A manager, of which the mutex and the counted pointer are left out.
pub record TransportManager (M C : Type 0) : Type 0 where
  pub transports : M
  pub connection_stats : C
  pub cache_ttl : ℕ

-- `no_entries` is `LruCache::new`.
abbrev pub with_cache_config :
    {M C D : Type 0} → Table M D → BuiltIn D → M → (ℕ → C) → ℕ → ℕ → TransportManager M C
with_cache_config table made no_transports no_entries cache_size ttl = record {
  transports = register_default_transports table made no_transports;
  connection_stats = no_entries (if ltb cache_size 1 then 1 else cache_size);
  cache_ttl = ttl;
}

abbrev pub new_manager :
    {M C D : Type 0} → Table M D → BuiltIn D → M → (ℕ → C) → TransportManager M C
new_manager table made no_transports no_entries =
    with_cache_config table made no_transports no_entries 100 (from_secs 300)
