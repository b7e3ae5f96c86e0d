-- ===== src/Transport/Channel/Pairing.antt =====
-- Who is paired with whom when one client connects after the other.
use text.Mathlib.Text.{◌==◌}
use text.Mathlib.TextPositions.{eq_refl}
use text.Mathlib.TextEquality.{eq_iff}
use zeroio.Common.{
  true, ℕ, suc, ◌≡◌, ◌≤◌, refl, sym, ◌∙◌, ap, String, false, Option, none, some, List, [], ◌∷◌,
  ◌++◌, Result, ok, err, panic, length, Bool-cases, inl, inr, arith,
}
use zeroio.Transport.Io.{Url}
use zeroio.Transport.Channel.{
  Registry, new, put, look, enqueue, take_or_wait, endpoint, of_url, host, connect,
}

module _ {D : Type 0} (duplex : ℕ → D × D) where
  pub look_empty :
      (name : String) (r : Registry D) → r.queues name ≡ [] → look duplex name r ≡ (none, r)
  unfolding look
  look_empty name r e = rw (e, look)

  look_waiting :
      (name : String) (r : Registry D) (d : D) (waiting : List D)
      → r.queues name ≡ d ∷ waiting
      → look duplex name r ≡ (some d, record r { queues = put name waiting r.queues })
  unfolding look
  look_waiting name r d waiting e = rw (e, look)

  endpoint_empty :
      (name : String) (r : Registry D)
      → r.queues name ≡ []
      → endpoint duplex name r ≡ enqueue duplex name r
  endpoint_empty name r e =
      ap (λ (x : Option D × Registry D). take_or_wait duplex name x.0 x.1) (look_empty name r e)

  endpoint_waiting :
      (name : String) (r : Registry D) (d : D) (waiting : List D)
      → r.queues name ≡ d ∷ waiting
      → endpoint duplex name r ≡ (d, record r { queues = put name waiting r.queues })
  endpoint_waiting name r d waiting e =
      ap (λ (x : Option D × Registry D). take_or_wait duplex name x.0 x.1)
        (look_waiting name r d waiting e)

module _ {D : Type 0} (duplex : ℕ → D × D) (parse : String → Result String Url) where
  -- The url names this channel.
  pub record Names (url name : String) : Type 0 where
    pub parts : Url
    pub parsed : parse url ≡ ok parts
    pub scheme_ok : (parts.scheme == "chan") ≡ true
    pub host_ok : parts.host_str ≡ some name
    pub not_empty : (name == "") ≡ false

  pub first_waits :
      (url name : String) (r : Registry D)
      → Names url name
      → r.queues name ≡ []
      → connect duplex parse url r ≡ (ok (new (duplex r.made).1 name), (enqueue duplex name r).1)
  unfolding connect
  first_waits url name r n e =
      rw (n.parsed, n.scheme_ok, n.host_ok, n.not_empty, endpoint_empty duplex name r e)

  pub second_takes :
      (url name : String) (r : Registry D) (d : D) (waiting : List D)
      → Names url name
      → r.queues name ≡ d ∷ waiting
      → connect duplex parse url r
        ≡ (ok (new d name), record r { queues = put name waiting r.queues })
  unfolding connect
  second_takes url name r d waiting n e =
      rw (n.parsed, n.scheme_ok, n.host_ok, n.not_empty, endpoint_waiting duplex name r d waiting e)

  -- Of two clients that connect to a channel that nobody waits at, one after the other, the first
  -- gets one end of a new duplex and the second the other end of it; then nobody waits there, and
  -- the queues of all other channels are as before.
  pub connect_pairs :
      (url name : String) (r : Registry D)
      → Names url name
      → r.queues name ≡ []
      → ((connect duplex parse url r).0 ≡ ok (new (duplex r.made).1 name))
        × ((connect duplex parse url (connect duplex parse url r).1).0
            ≡ ok (new (duplex r.made).0 name))
        × ((other : String)
            → (connect duplex parse url (connect duplex parse url r).1).1.queues other
              ≡ r.queues other)
  unfolding enqueue
  connect_pairs url name r n e =
      let waiting : (enqueue duplex name r).1.queues name ≡ (duplex r.made).0 ∷ [] =
        rw (eq_refl name, e) in
      let first = first_waits url name r n e in
      let second = second_takes url name (enqueue duplex name r).1 (duplex r.made).0 [] n waiting in
      (
        ap (λ x. x.0) first,
        rw first (ap (λ x. x.0) second),
        λ other. rw (first, second) (emptied other),
      )
    where
      emptied :
          (other : String)
          → put name [] (put name (r.queues name ++ (duplex r.made).0 ∷ []) r.queues) other
            ≡ r.queues other
      emptied other = elim (Bool-cases (other == name)) [
        | inl same ↦ rw same (sym e ∙ ap r.queues (sym ((eq_iff other name).0 same)))
        | inr differs ↦ rw differs
      ]

-- At most one endpoint waits under each name.
pub record AtMostOne {D : Type 0} (r : Registry D) : Type 0 where
  pub each : (name : String) → length (r.queues name) ≤ 1

module _ {D : Type 0} (duplex : ℕ → D × D) where
  put-AtMostOne :
      (name : String) (queue : List D) (r : Registry D) (made : ℕ)
      → AtMostOne r
      → length queue ≤ 1
      → AtMostOne (record { queues = put name queue r.queues; made = made })
  put-AtMostOne name queue r made a small = record { each = held }
    where
      held : (other : String) → length (put name queue r.queues other) ≤ 1
      held other = elim (Bool-cases (other == name)) [
        | inl same ↦ rw same small
        | inr differs ↦ rw differs (a.each other)
      ]

  endpoint-AtMostOne :
      (name : String) (r : Registry D) → AtMostOne r → AtMostOne (endpoint duplex name r).1
  unfolding look enqueue
  endpoint-AtMostOne name r a = by_queue (r.queues name) refl
    where
      by_queue : (queue : List D) → r.queues name ≡ queue → AtMostOne (endpoint duplex name r).1
      by_queue [] e = rw (endpoint_empty duplex name r e) (
          put-AtMostOne name (r.queues name ++ (duplex r.made).0 ∷ []) r (suc r.made) a
            (rw e (omega arith)))
      by_queue (d ∷ waiting) e =
          rw (endpoint_waiting duplex name r d waiting e)
            (put-AtMostOne name waiting r r.made a (omega (arith, ap length e, a.each name)))

  -- Whatever url is connected to, at most one endpoint waits under each name if that was so before.
  pub connect-AtMostOne :
      (parse : String → Result String Url) (url : String) (r : Registry D)
      → AtMostOne r
      → AtMostOne (connect duplex parse url r).1
  unfolding connect
  connect-AtMostOne parse url r a = by_url (parse url)
    where
      by_url : (u : Result String Url) → AtMostOne (of_url duplex u r).1
      by_url (err e) = a
      by_url panic = a
      by_url (ok u) = elim (Bool-cases (u.scheme == "chan")) [
        | inr other ↦ rw other a
        | inl chan ↦ rw chan (elim (Bool-cases (host u.host_str == "")) [
          | inl missing ↦ rw missing a
          | inr given ↦ rw given (endpoint-AtMostOne (host u.host_str) r a)
        ])
      ]
