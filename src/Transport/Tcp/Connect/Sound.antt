-- ===== src/Transport/Tcp/Connect/Sound.antt =====
-- What a connection that `TcpTransport::connect` returns says of the url and the network.
use text.Mathlib.Text.{◌==◌}
use zeroio.Common.{
  ℕ, String, ◌≡◌, ◌∙◌, ap, sym, true, Option, none, some, [], ◌∷◌, Result, ok, >>=-eq-ok,
  map_err-eq-ok, ok-injective, err-ne-ok, Bool-cases, inl, inr,
}
use zeroio.Protocol.Errors.{Text, lit, num}
use zeroio.Transport.Errors.{io}
use zeroio.Transport.Traits.{from_secs}
use zeroio.Transport.Io.{Url, parsed, host_port-eq-ok, from_io_result, with_text}
use zeroio.Transport.Tcp.{TcpConfig, TcpTransportStream}
use zeroio.Transport.Tcp.Connect.{Net, tcp_addr, keep_alive, dial, apply_config, connect}

-- A url of a tcp address.
pub record IsAddress (r : Result String Url) (addr : Text) : Type 0 where
  pub url : Url
  pub host : String
  pub port : ℕ
  pub url_parsed : r ≡ ok url
  pub scheme_ok : (url.scheme == "tcp") ≡ true
  pub host_ok : url.host_str ≡ some host
  pub port_ok : url.port ≡ some port
  pub addr_ok : addr ≡ lit host ∷ lit ":" ∷ num port ∷ []

tcp_addr-IsAddress : (r : Result String Url) (addr : Text) → tcp_addr r ≡ ok addr → IsAddress r addr
tcp_addr-IsAddress r addr e =
    let (u, p, q) = >>=-eq-ok (parsed r) _ e in
    elim (Bool-cases (u.scheme == "tcp")) [
      | inr other ↦ err-ne-ok (rw other at q)
      | inl tcp ↦
          let (host, port, h, n, a) = host_port-eq-ok u addr (rw tcp at q) in
          record {
            url = u;
            host = host;
            port = port;
            url_parsed = map_err-eq-ok _ r u p;
            scheme_ok = tcp;
            host_ok = h;
            port_ok = n;
            addr_ok = a;
          }
    ]

module _ {S L : Type 0} (net : Net S L) (config : TcpConfig) where
  -- The network answered before the timeout, if there is one.
  abbrev IsInTime : Option ℕ → Text → Type 0
  IsInTime none addr = Unit
  IsInTime (some d) addr = net.answers_within addr d ≡ true

  dial-IsInTime :
      (o : Option ℕ) (addr : Text) (s : S)
      → dial net config o addr ≡ ok s
      → IsInTime o addr × (net.connect addr ≡ ok s)
  dial-IsInTime none addr s e = (tt, map_err-eq-ok _ (net.connect addr) s e)
  dial-IsInTime (some d) addr s e = elim (Bool-cases (net.answers_within addr d)) [
    | inl t ↦ (t, map_err-eq-ok _ (net.connect addr) s (rw t at e))
    | inr f ↦ err-ne-ok (rw f at e)
  ]

  -- The socket that is dialled, with `nodelay` as in the configuration and, where that has a keep-alive
  -- time, with this time and the interval of 30 seconds.
  pub data IsConfigured (dialled opened : S) : Option ℕ → Type 0 where
    not_kept_alive :
        net.set_nodelay config.nodelay dialled ≡ ok opened → IsConfigured dialled opened none
    kept_alive :
        {time : ℕ} (delayed std kept : S)
        → net.set_nodelay config.nodelay dialled ≡ ok delayed
        → net.into_std delayed ≡ ok std
        → net.set_tcp_keepalive time (from_secs 30) std ≡ ok kept
        → net.from_std kept ≡ ok opened
        → IsConfigured dialled opened (some time)

  keep_alive-IsConfigured :
      (dialled delayed opened : S) (o : Option ℕ)
      → net.set_nodelay config.nodelay dialled ≡ ok delayed
      → keep_alive net config o delayed ≡ ok opened
      → IsConfigured dialled opened o
  keep_alive-IsConfigured dialled delayed opened none set e =
      not_kept_alive (set ∙ ap ok (ok-injective e))
  keep_alive-IsConfigured dialled delayed opened (some time) set e =
      let (std, p1, e1) = >>=-eq-ok (from_io_result (net.into_std delayed)) _ e in
      let (kept, p2, e2) =
        >>=-eq-ok
          (with_text io (lit "Failed to set TCP keepalive: " ∷ [])
            (net.set_tcp_keepalive time (from_secs 30) std))
          _ e1 in
      kept_alive delayed std kept set (map_err-eq-ok _ (net.into_std delayed) std p1)
        (map_err-eq-ok _ (net.set_tcp_keepalive time (from_secs 30) std) kept p2)
        (map_err-eq-ok _ (net.from_std kept) opened e2)

  apply_config-IsConfigured :
      (dialled opened : S)
      → apply_config net config dialled ≡ ok opened
      → IsConfigured dialled opened config.keepalive
  unfolding apply_config
  apply_config-IsConfigured dialled opened e =
      let (delayed, p1, e1) =
        >>=-eq-ok
          (with_text io (lit "Failed to set TCP nodelay: " ∷ [])
            (net.set_nodelay config.nodelay dialled))
          _ e in
      let (peer, p2, e2) = >>=-eq-ok (from_io_result (net.peer_addr delayed)) _ e1 in
      keep_alive-IsConfigured dialled delayed opened config.keepalive
        (map_err-eq-ok _ (net.set_nodelay config.nodelay dialled) delayed p1) e2

  pub record IsConnected (r : Result String Url) (t : TcpTransportStream S) : Type 0 where
    pub addr : Text
    pub dialled : S
    pub opened : S
    pub local : String
    pub remote : String
    pub address_ok : IsAddress r addr
    pub answered : net.connect addr ≡ ok dialled
    pub in_time : IsInTime config.connect_timeout addr
    pub local_ok : net.local_addr dialled ≡ ok local
    pub remote_ok : net.peer_addr dialled ≡ ok remote
    pub configured : IsConfigured dialled opened config.keepalive
    pub stream_ok : t ≡ record {
      stream = opened;
      info = record {
        transport_type = "tcp";
        local_addr = some (lit local ∷ []);
        remote_addr = some (lit remote ∷ []);
        metadata = [];
      };
      timeouts = record {
        read_timeout = config.read_timeout;
        write_timeout = config.write_timeout;
        connect_timeout = config.connect_timeout;
      };
    }

  -- A stream that `connect` returns goes to the host and the port of a "tcp://" url and was opened
  -- before the connection timeout, if there is one. Its socket was given the `nodelay` of the configuration and, where
  -- that has a keep-alive time, this time with an interval of 30 seconds. It has the addresses of the
  -- socket and the timeouts of the configuration.
  pub connect_sound :
      (parse : String → Result String Url) (url : String) (t : TcpTransportStream S)
      → connect net config parse url ≡ ok t
      → IsConnected (parse url) t
  unfolding connect
  connect_sound parse url t e =
      let (addr, p1, e1) = >>=-eq-ok (tcp_addr (parse url)) _ e in
      let (s, p2, e2) = >>=-eq-ok (dial net config config.connect_timeout addr) _ e1 in
      let (local, p3, e3) = >>=-eq-ok (from_io_result (net.local_addr s)) _ e2 in
      let (remote, p4, e4) = >>=-eq-ok (from_io_result (net.peer_addr s)) _ e3 in
      let (s', p5, e5) = >>=-eq-ok (apply_config net config s) _ e4 in
      let (within, answered) = dial-IsInTime config.connect_timeout addr s p2 in
      record {
        addr = addr;
        dialled = s;
        local = local;
        remote = remote;
        address_ok = tcp_addr-IsAddress (parse url) addr p1;
        answered = answered;
        in_time = within;
        local_ok = map_err-eq-ok _ (net.local_addr s) local p3;
        remote_ok = map_err-eq-ok _ (net.peer_addr s) remote p4;
        opened = s';
        configured = apply_config-IsConfigured s s' p5;
        stream_ok = sym (ok-injective e5);
      }
