-- ===== src/Peer/Handshake/Wait.antt =====
-- The loop of the handshake that waits for the answer to the join message.
use text.Mathlib.TextPositions.{eq_refl}
use zeroio.Common.{ℕ, zero, suc, ◌<◌, String, ◌≡◌, refl, ◌∙◌, Option, none, some, ok, arith}
use zeroio.Protocol.Errors.{ProtocolResult}
use zeroio.Protocol.External.{Buffers, Serde}
use zeroio.Protocol.Types.Header.{Header, RequestResponse}
use zeroio.Protocol.Message
use zeroio.Protocol.Message.{Message, client_id}
use zeroio.Protocol.Codec.Utils.{Framed}
use zeroio.Peer.Handshake.{continue, return, round, wait_for_reply}

module _ {V A S : Type 0} (framed : Framed V A S) (serde : Serde (Header V)) (bufs : Buffers)
    (id : String) where
  -- `n` rounds of the loop that all `continue`, from one state of the stream to another.
  pub data Skips : ℕ → S → S → Type 0 where
    stay : (s : S) → Skips 0 s s
    skip :
        {n : ℕ} {s s' s'' : S} (item : Option (ProtocolResult (Message V A)))
        → framed.next s ≡ (item, s')
        → round framed serde bufs id item ≡ continue
        → Skips n s' s''
        → Skips (suc n) s s''

  -- The message answers the join message: its header is read and carries the id.
  pub record IsReply (m : Message V A) : Type 0 where
    pub reply_header : Header V
    pub reqrep : RequestResponse
    pub header_read : (Message.header serde bufs m).0 ≡ ok reply_header
    pub has_reqrep : reply_header.reqrep ≡ some reqrep
    pub same_id : reqrep.id ≡ id

  round-IsReply :
      (m : Message V A)
      → IsReply m
      → round framed serde bufs id (some (ok m)) ≡ return (ok (client_id m))
  unfolding round
  round-IsReply m r = rw (r.header_read, r.has_reqrep, r.same_id, eq_refl id)

  pub round-none : round framed serde bufs id none ≡ continue
  unfolding round
  round-none = refl

  wait_more :
      (fuel : ℕ) (s s' : S) (item : Option (ProtocolResult (Message V A)))
      → framed.next s ≡ (item, s')
      → round framed serde bufs id item ≡ continue
      → wait_for_reply framed serde bufs (suc fuel) id s
        ≡ wait_for_reply framed serde bufs fuel id s'
  unfolding wait_for_reply
  wait_more fuel s s' item e c = rw (e, wait_for_reply) (rw c (rw e))

  wait_returns :
      (fuel : ℕ) (s s' : S) (m : Message V A)
      → framed.next s ≡ (some (ok m), s')
      → IsReply m
      → wait_for_reply framed serde bufs (suc fuel) id s
        ≡ some (ok (record { transport_stream = s'; self_id = client_id m }), s')
  unfolding wait_for_reply
  wait_returns fuel s s' m e r = rw (e, wait_for_reply) (rw (round-IsReply m r) (rw e))

  -- Once the answer to the join message arrives, the handshake ends with the client id of that
  -- message, whatever items the loop passed over before it; any fuel beyond their number is enough.
  pub wait_finds_reply :
      (fuel n : ℕ) (s s' s'' : S) (m : Message V A)
      → n < fuel
      → Skips n s s'
      → framed.next s' ≡ (some (ok m), s'')
      → IsReply m
      → wait_for_reply framed serde bufs fuel id s
        ≡ some (ok (record { transport_stream = s''; self_id = client_id m }), s'')
  wait_finds_reply zero n s s' s'' m h skips e r = absurd (omega arith)
  wait_finds_reply (suc fuel) n s s' s'' m h (stay _) e r = wait_returns fuel s s'' m e r
  wait_finds_reply (suc fuel) _ s s' s'' m h (skip {n = k} {s' = after} item a b rest) e r =
      wait_more fuel s after item a b
      ∙ wait_finds_reply fuel k after s' s'' m (omega arith) rest e r

  -- On a stream that has ended, where `next` gives nothing and changes nothing, the loop of the
  -- handshake has returned after no number of rounds.
  pub wait_spins :
      (fuel : ℕ) (s : S)
      → framed.next s ≡ (none, s)
      → wait_for_reply framed serde bufs fuel id s ≡ none
  unfolding wait_for_reply
  wait_spins zero s e = refl
  wait_spins (suc fuel) s e = wait_more fuel s s none e round-none ∙ wait_spins fuel s e
