-- ===== src/Peer/Handshake/Join.antt =====
-- The join message of the handshake.
use zeroio.Common.{ℕ, String, ◌≡◌, refl, Option, none, some, ok, err}
use zeroio.Protocol.Errors.{forbidden_field}
use zeroio.Protocol.External.{Buffers, Serde}
use zeroio.Protocol.Types.Header.{Header, Auth}
use zeroio.Protocol.Builder.{build}
use zeroio.Protocol.Parser.Validate.{validate_message_structure}
use zeroio.Transport.Errors.{protocol}
use zeroio.Protocol.Codec.Utils.{Framed}
use zeroio.Peer.Handshake.{from_stream}

module _ {V A S : Type 0} (framed : Framed V A S) (serde : Serde (Header V)) (bufs : Buffers)
    (serde_value : Serde V) (nil : V) where
  -- The handshake puts a correlation id into its join message, which a join message must not have:
  -- once an id is generated, `from_stream` returns that error whatever the name and the
  -- authentication are, and nothing is sent or read.
  pub join_refused :
      (fuel : ℕ) (id name : String) (auth : Option Auth) (s : S)
      → from_stream framed serde bufs serde_value nil fuel (ok id) name auth s
        ≡ some (err (protocol (forbidden_field "reqrep" "JOIN")), s)
  unfolding from_stream build validate_message_structure
  join_refused fuel id name none s = refl
  join_refused fuel id name (some a) s = refl
