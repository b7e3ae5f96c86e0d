-- ===== src/Transport/Channel.antt =====
-- crates/transport/src/channel.rs: the registry of waiting endpoints, and `connect`. `D` is tokio's
-- `DuplexStream`, and `duplex n` the two ends that the call of `duplex` number `n` gives; a missing
-- queue of the registry and an empty one are the same, as the code tells them apart nowhere. The
-- time that a stream was established at is left out.
pub mod Pairing
pub mod Race
pub mod Clients
use text.Mathlib.Text.{◌==◌, starts_with}
use zeroio.Common.{
  ℕ, suc, String, Bool, true, false, Option, none, some, List, [], ◌∷◌, ◌++◌, Result, ok, err,
  panic, if◌then◌else◌,
}
use zeroio.Protocol.Errors.{Text, lit}
use zeroio.Transport.Errors.{TransportError, TransportResult, invalid_url, unsupported_transport}
use zeroio.Transport.Traits.{ConnectionInfo}
use zeroio.Transport.Io.{Url}

pub record ChannelStream (D : Type 0) : Type 0 where
  pub stream : D
  pub info : ConnectionInfo
  pub connected : Bool

pub record Registry (D : Type 0) : Type 0 where
  pub queues : String → List D
  pub made : ℕ

abbrev pub put : {D : Type 0} → String → List D → (String → List D) → String → List D
put name queue queues other = if other == name then queue else queues other

module _ {D : Type 0} where
  abbrev pub new : D → String → ChannelStream D
  new stream name = record {
    stream = stream;
    info = record {
      transport_type = "chan";
      local_addr = some (lit "chan://" ∷ lit name ∷ []);
      remote_addr = some (lit "chan://" ∷ lit name ∷ []);
      metadata = [];
    };
    connected = true;
  }

  abbrev pub is_connected : ChannelStream D → Bool
  is_connected s = s.connected

  abbrev pub close : ChannelStream D → ChannelStream D
  close s = record s { connected = false }

abbrev pub supports_url : String → Bool
supports_url url = starts_with url "chan://"

abbrev pub listen : {A : Type 0} → String → TransportResult A
listen url = err (unsupported_transport (lit "channel transport does not support listen" ∷ []))

-- `parsed.host_str().unwrap_or("")`
abbrev pub host : Option String → String
host none = ""
host (some name) = name

module _ {D : Type 0} (duplex : ℕ → D × D) where
  -- The look for a waiting endpoint, under the lock of the queue.
  unfoldable pub look : String → Registry D → Option D × Registry D
  look name r = elim (r.queues name) [
    | [] ↦ (none, r)
    | d ∷ waiting ↦ (some d, record r { queues = put name waiting r.queues })
  ]

  -- A new duplex: one end waits in the queue, and the other is returned.
  unfoldable pub enqueue : String → Registry D → D × Registry D
  enqueue name r = (
    (duplex r.made).1,
    record {
      queues = put name (r.queues name ++ (duplex r.made).0 ∷ []) r.queues;
      made = suc r.made;
    },
  )

  abbrev pub take_or_wait : String → Option D → Registry D → D × Registry D
  take_or_wait name (some d) r = (d, r)
  take_or_wait name none r = enqueue name r

  abbrev pub endpoint : String → Registry D → D × Registry D
  endpoint name r = let (found, r') = look name r in take_or_wait name found r'

  abbrev pub named : String → Registry D → TransportResult (ChannelStream D) × Registry D
  named name r =
      if name == ""
      then (err (invalid_url (lit "channel name missing" ∷ [])), r)
      else (let (d, r') = endpoint name r in (ok (new d name), r'))

  abbrev pub of_url :
      Result String Url → Registry D → TransportResult (ChannelStream D) × Registry D
  of_url (err e) r = (err (invalid_url (lit e ∷ [])), r)
  of_url panic r = (panic, r)
  of_url (ok u) r = if u.scheme == "chan" then named (host u.host_str) r else (
    err (unsupported_transport (lit "invalid scheme for channel transport: " ∷ lit u.scheme ∷ [])),
    r,
  )

  -- `parse` is `Url::parse`, whose error is known by its text.
  unfoldable pub connect :
      (String → Result String Url)
      → String
      → Registry D
      → TransportResult (ChannelStream D) × Registry D
  unfolding look enqueue
  connect parse url r = of_url (parse url) r
