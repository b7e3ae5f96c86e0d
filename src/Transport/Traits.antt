-- ===== src/Transport/Traits.antt =====
-- crates/transport/src/traits.rs. The time that a stream was established at is left out, and a
-- `Duration` is a number of nanoseconds.
use zeroio.Common.{ℕ, ◌*◌, ◌/◌, String, Option, some, List}
use zeroio.Protocol.Errors.{Text}

pub record ConnectionInfo : Type 0 where
  pub transport_type : String
  pub local_addr : Option Text
  pub remote_addr : Option Text
  pub metadata : List (String × String)

-- `Duration::from_secs` and `as_secs`.
abbrev pub from_secs : ℕ → ℕ
from_secs n = n * 1000000000

abbrev pub as_secs : ℕ → ℕ
as_secs d = d / 1000000000

pub record ConnectionTimeouts : Type 0 where
  pub read_timeout : Option ℕ
  pub write_timeout : Option ℕ
  pub connect_timeout : Option ℕ

abbrev pub default_timeouts : ConnectionTimeouts
default_timeouts = record {
  read_timeout = some (from_secs 30);
  write_timeout = some (from_secs 30);
  connect_timeout = some (from_secs 10);
}
