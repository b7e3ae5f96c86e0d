-- ===== src/Transport/WebSocket/Connect.antt =====
-- Connecting and listening of crates/transport/src/websocket.rs. The network is a parameter: `S` is a
-- WebSocket, `T` a connection before the handshake and `L` a listener of tokio.
use text.Mathlib.Text.{◌==◌, starts_with}
use zeroio.Common.{
  ℕ, String, ◌≡◌, refl, sym, ◌∙◌, ap, subst, Bool, true, false, some, [], ◌∷◌, ◌++◌, Result, ok,
  err, ◌>>=◌, map_err, if◌then◌else◌, ◌||◌, >>=-eq-ok, map_err-eq-ok, ok-injective, err-ne-ok,
  Bool-cases, inl, inr,
}
use zeroio.Protocol.Errors.{Text, lit, num}
use zeroio.Transport.Errors.{
  TransportResult, io, invalid_url, connection_failure, unsupported_transport,
}
use zeroio.Transport.Io.{IoResult, Url, parsed, host_port, host_port-eq-ok, with_text}
use zeroio.Transport.WebSocket.{WebSocketTransportStream, new}

pub record WebSocketConfig : Type 0 where
  pub max_message_size : ℕ
  pub enable_tls : Bool

abbrev pub default_config : WebSocketConfig
default_config = record { max_message_size = 1048576; enable_tls = true }

pub record WebSocketTransportListener (L : Type 0) : Type 0 where
  pub listener : L
  pub url : Url
  pub config : WebSocketConfig

-- The errors of the WebSocket library are known by their texts.
pub record WebNet (S T L : Type 0) : Type 0 where
  pub connect_async : String → Result String S
  pub bind : Text → IoResult L
  pub accept : L → IoResult T × L
  pub accept_async : T → Result String S
  pub local_addr : L → IoResult String

abbrev with_scheme : Url → TransportResult Url
with_scheme u =
    if starts_with u.scheme "ws"
    then ok u
    else err
        (invalid_url (lit "Expected ws:// or wss:// scheme, got " ∷ lit u.scheme ∷ lit "://" ∷ []))

unfoldable pub parse_url : Result String Url → TransportResult Url
parse_url r = parsed r >>= with_scheme

abbrev pub supports_url : String → Bool
supports_url url = starts_with url "ws://" || starts_with url "wss://"

with_scheme-eq-ok :
    (u v : Url) → with_scheme u ≡ ok v → (u ≡ v) × (starts_with u.scheme "ws" ≡ true)
with_scheme-eq-ok u v e = elim (Bool-cases (starts_with u.scheme "ws")) [
  | inl t ↦ (ok-injective (rw t at e), t)
  | inr f ↦ err-ne-ok (rw f at e)
]

module _ {S T L : Type 0} (net : WebNet S T L) where
  unfoldable pub connect :
      (String → Result String Url) → String → TransportResult (WebSocketTransportStream S)
  connect parse url = do
    u ← parse_url (parse url)
    s ←
        map_err
          (λ e.
            connection_failure
              (lit "WebSocket connection to '" ∷ lit u.as_str ∷ lit "' failed: " ∷ lit e ∷ []))
          (net.connect_async u.as_str)
    ok (new s u)

  abbrev listen_on : WebSocketConfig → Url → TransportResult (WebSocketTransportListener L)
  listen_on config u =
      if u.scheme == "wss"
      then err (unsupported_transport (lit "wss:// listener is not supported yet" ∷ []))
      else (host_port u >>= λ addr.
          with_text io (lit "Failed to bind to " ∷ (addr ++ (lit ": " ∷ []))) (net.bind addr)
          >>= λ l. ok (record { listener = l; url = u; config = config }))

  unfoldable pub listen :
      WebSocketConfig
      → (String → Result String Url)
      → String
      → TransportResult (WebSocketTransportListener L)
  listen config parse url = parse_url (parse url) >>= listen_on config

  abbrev handshake : Url → T → TransportResult (WebSocketTransportStream S)
  handshake u tcp_stream = do
    s ←
        map_err
          (λ e. connection_failure (
            lit "Failed to complete WebSocket handshake for listener "
            ∷ lit u.as_str
            ∷ lit ": "
            ∷ lit e
            ∷ []))
          (net.accept_async tcp_stream)
    ok (new s u)

  unfoldable pub accept :
      WebSocketTransportListener L
      → TransportResult (WebSocketTransportStream S) × WebSocketTransportListener L
  accept t =
      let (r, l) = net.accept t.listener in
      (
        with_text io (lit "Failed to accept TCP connection: " ∷ []) r >>= handshake t.url,
        record t { listener = l },
      )

  abbrev pub listener_addr : WebSocketTransportListener L → TransportResult String
  listener_addr t =
      with_text io (lit "Failed to get local address: " ∷ []) (net.local_addr t.listener)

  -- A listener for a url of this host and port.
  pub record IsListening (config : WebSocketConfig) (r : Result String Url)
      (t : WebSocketTransportListener L) : Type 0 where
    pub host : String
    pub port : ℕ
    pub url_ok : r ≡ ok t.url
    pub scheme_ok : starts_with t.url.scheme "ws" ≡ true
    pub not_tls : (t.url.scheme == "wss") ≡ false
    pub host_ok : t.url.host_str ≡ some host
    pub port_ok : t.url.port ≡ some port
    pub bound : net.bind (lit host ∷ lit ":" ∷ num port ∷ []) ≡ ok t.listener
    pub config_ok : t.config ≡ config

  listen_on-IsListening :
      (config : WebSocketConfig) (r : Result String Url) (u : Url)
      (t : WebSocketTransportListener L)
      → r ≡ ok u
      → starts_with u.scheme "ws" ≡ true
      → listen_on config u ≡ ok t
      → IsListening config r t
  listen_on-IsListening config r u t p s e = elim (Bool-cases (u.scheme == "wss")) [
    | inl tls ↦ err-ne-ok (rw tls at e)
    | inr plain ↦
        let (addr, a, e1) = >>=-eq-ok (host_port u) _ (rw plain at e) in
        let (l, b, e2) =
          >>=-eq-ok
            (with_text io (lit "Failed to bind to " ∷ (addr ++ (lit ": " ∷ []))) (net.bind addr)) _
            e1 in
        let (host, port, h, n, same) = host_port-eq-ok u addr a in
        subst (IsListening config r) (ok-injective e2) (record {
          host = host;
          port = port;
          url_ok = p;
          scheme_ok = s;
          not_tls = plain;
          host_ok = h;
          port_ok = n;
          bound = ap net.bind (sym same) ∙ map_err-eq-ok _ (net.bind addr) l b;
          config_ok = refl;
        })
  ]

  -- A listener that `listen` returns is for a url with a host and a port whose scheme begins with "ws"
  -- and is not "wss", and is bound to that host and port.
  pub ws_listen_sound :
      (config : WebSocketConfig) (parse : String → Result String Url) (url : String)
      (t : WebSocketTransportListener L)
      → listen config parse url ≡ ok t
      → IsListening config (parse url) t
  unfolding listen parse_url
  ws_listen_sound config parse url t e =
      let (u, p, q) = >>=-eq-ok (parsed (parse url) >>= with_scheme) _ e in
      let (u', p', q') = >>=-eq-ok (parsed (parse url)) _ p in
      let (same, scheme) = with_scheme-eq-ok u' u q' in
      listen_on-IsListening config (parse url) u t (map_err-eq-ok _ (parse url) u' p' ∙ ap ok same)
        (subst (λ x. starts_with x.scheme "ws" ≡ true) same scheme) q
