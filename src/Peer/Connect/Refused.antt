-- ===== src/Peer/Connect/Refused.antt =====
-- What comes of `Peer::connect`.
use zeroio.Common.{ℕ, String, ◌≡◌, ◌∙◌, ap, Option, some, ok, err}
use zeroio.Protocol.Errors.{forbidden_field}
use zeroio.Protocol.External.{Buffers, Serde}
use zeroio.Protocol.Codec.Utils.{Framed}
use zeroio.Protocol.Types.Header.{Header, Auth}
use zeroio.Transport.Errors.{protocol}
use zeroio.Transport.Messages.{sink}
use zeroio.Peer.Handshake.{from_stream}
use zeroio.Peer.Handshake.Join.{join_refused}
use zeroio.Peer.Connect.{World, stream_of, result_of, joined, connect}

module _ {V A M C D S : Type 0} (world : World M C D S) (framed : Framed V A S)
    (serde : Serde (Header V)) (bufs : Buffers) (serde_value : Serde V) (nil : V) where
  -- Once the transport is connected and an id is generated, `connect` fails, whatever the address, the
  -- name and the authentication are: the handshake puts a correlation id into its join message, which
  -- a join message must not have.
  pub connect_refused :
      (fuel : ℕ) (address id name : String) (auth : Option Auth) (stream : D)
      → world.generated ≡ ok id
      → stream_of world address ≡ ok stream
      → connect world framed serde bufs serde_value nil fuel address name auth
        ≡ some (err (protocol (forbidden_field "reqrep" "JOIN")))
  unfolding connect joined
  connect_refused fuel address id name auth stream g e =
      ap (joined world framed serde bufs serde_value nil fuel name auth) e
      ∙ ap
          (λ r. result_of world framed serde bufs serde_value nil (
            from_stream framed serde bufs serde_value nil fuel r name auth
              (sink world.frame stream)))
          g
      ∙ ap (result_of world framed serde bufs serde_value nil) (
          join_refused framed serde bufs serde_value nil fuel id name auth
            (sink world.frame stream))
