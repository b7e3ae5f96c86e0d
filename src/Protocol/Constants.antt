-- ===== src/Protocol/Constants.antt =====
-- The constants of crates/protocol/src/lib.rs.
use zeroio.Common.{ℕ, ◌-◌, ◌*◌, ◌^◌}

abbrev pub protocol_version : ℕ
protocol_version = 1

abbrev pub base_header_size : ℕ
base_header_size = 34

abbrev pub reserved_size : ℕ
reserved_size = 16

abbrev pub client_id_unassigned : ℕ
client_id_unassigned = 0

abbrev pub client_id_broker : ℕ
client_id_broker = 1

abbrev pub client_id_min_dynamic : ℕ
client_id_min_dynamic = 1000

abbrev pub client_id_max_dynamic : ℕ
client_id_max_dynamic = 2 ^ 32 - 1 - 1

abbrev pub client_id_reserved_max : ℕ
client_id_reserved_max = 2 ^ 32 - 1

abbrev pub default_max_message_size : ℕ
default_max_message_size = 1024 * 1024 * 1024

abbrev pub default_max_header_size : ℕ
default_max_header_size = 64 * 1024
