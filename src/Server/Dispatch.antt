-- ===== src/Server/Dispatch.antt =====
-- `try_dispatch` of server/mod.rs and what it calls.
pub mod Ready
pub mod Runs
pub mod Isolated
use servoxide.Prelude.{
  ℕ, ◌+◌, ◌^◌, Bool, true, false, List, [], ◌∷◌, ◌++◌, Option, none, some, leb, if◌then◌else◌, drop,
  get_elem?, length, Outcome, returns, panics, out_of_fuel, ◌>>=◌, index,
}
use servoxide.Text.{Bytes, codes, to_string}
use servoxide.Dict.{lookup, update, remove, nat_eq, text_eq}
use servoxide.Config.Types.{ServerConfig}
use servoxide.Cookies.{touch, set_cookie_header}
use servoxide.Http.Status.{wants_keep_alive}
use servoxide.Http.Request.Types.{Request, RequestHead, HeadStatus, BodyMode, BodyStatus}
use servoxide.Http.Request.Head.{parse_head}
use servoxide.Http.Request.Body.{host, body_mode, decode_body}
use servoxide.Http.Response.{Response, set_header, into_bytes}
use servoxide.Http.Router.Pages.{error_response}
use servoxide.Http.Router.Dispatch.{handle}
use servoxide.Poll.{want_readable, want_writable}
use servoxide.Server.Select.{Address, select_server}
use servoxide.Server.State.{Client, System, State}

module _ (sys : System) where
  -- `if let Some(c) = self.clients.get_mut(&fd)`.
  unfoldable pub set_client : State sys → ℕ → (Client → Client) → State sys
  set_client st fd f = record st { clients = update fd f st.clients }

  unfoldable pub remove_client : State sys → ℕ → State sys
  remove_client st fd = record st {
    os = sys.close (sys.poller_delete st.os fd) fd;
    clients = remove fd st.clients;
  }

  -- What follows a call of the poller's `modify`.
  unfoldable pub or_remove : State sys → ℕ → Bool × sys.Os → State sys
  unfolding remove_client
  or_remove st fd (true, os') = record st { os = os' }
  or_remove st fd (false, os') = remove_client (record st { os = os' }) fd

  unfoldable pub queue_response : State sys → ℕ → Bytes → State sys
  unfolding set_client or_remove
  queue_response st fd response =
      or_remove (set_client st fd (λ c. record c { outbuf = response; written = 0 })) fd
        (sys.poller_modify st.os fd want_writable)

  unfoldable pub respond_error : State sys → ℕ → ℕ → Option ServerConfig → State sys
  unfolding queue_response
  respond_error st fd code server =
      let bytes = into_bytes (error_response sys.files st.stored server code) in
      queue_response (set_client st fd (λ c. record c { keep_alive = false; pending_len = 0 })) fd
        bytes

  request_of : RequestHead → Bytes → Request
  request_of head body = record {
    method = head.method;
    path = head.path;
    query = head.query;
    headers = head.headers;
    body = body;
  }

  -- The session of the request: its headers, and the state. Random bytes are drawn for a new one.
  unfoldable pub with_session : State sys → Request → Response → Response × State sys
  with_session st request response =
      let (now, os1) = sys.now st.os in
      let (drawn, os2) = sys.random os1 in
      let (info, sessions') =
        touch st.sessions now drawn (lookup (codes "cookie") request.headers) in
      let cookied =
        if info.is_new
        then set_header response (codes "Set-Cookie") (set_cookie_header info.id)
        else response in
      (
        set_header cookied (codes "X-Session-Visits") (to_string info.visits),
        record st { sessions = sessions'; os = if info.is_new then os2 else os1 },
      )

  -- The response of a request that takes `request_len` bytes of the buffer.
  unfoldable pub send : State sys → ℕ → ℕ → Response → State sys
  unfolding queue_response set_client
  send st fd request_len response =
      queue_response
        (set_client st fd
          (λ c. record c { keep_alive = response.keep_alive; pending_len = request_len }))
        fd (into_bytes response)

  -- Routing, the session and the response, for a complete request.
  unfoldable pub answer : State sys → ℕ → ServerConfig → RequestHead → Bytes → ℕ → State sys
  unfolding send with_session request_of
  answer st fd server head body consumed =
      let keep_alive = wants_keep_alive head.version (lookup (codes "connection") head.headers) in
      let request = request_of head body in
      let (routed, stored') = handle sys.files st.stored server request keep_alive in
      let (response, st') = with_session (record st { stored = stored' }) request routed in
      send st' fd (head.head_len + consumed) response

  pub on_body : State sys → ℕ → ServerConfig → RequestHead → BodyStatus → State sys
  unfolding respond_error answer
  on_body st fd server head BodyStatus.need_more = st
  on_body st fd server head BodyStatus.too_large = respond_error st fd 413 (some server)
  on_body st fd server head (BodyStatus.bad code) = respond_error st fd code (some server)
  on_body st fd server head (BodyStatus.complete body consumed) =
      answer st fd server head body consumed

  -- `&c.inbuf[head.head_len..]`.
  unfoldable pub body_buf : Bytes → ℕ → Outcome Bytes
  body_buf inbuf n = if leb n (length inbuf) then returns (drop n inbuf) else panics

  on_mode :
      State sys → ℕ → Bytes → ServerConfig → RequestHead → Option BodyMode → Outcome (State sys)
  unfolding respond_error on_body
  on_mode st fd inbuf server head none = returns (respond_error st fd 400 (some server))
  on_mode st fd inbuf server head (some mode) = body_buf inbuf head.head_len >>= λ buf.
      decode_body buf mode server.client_max_body_size >>= λ status.
      returns (on_body st fd server head status)

  -- `self.addresses[addr_idx]`, the server block, and its entry in the configuration.
  unfoldable pub server_for : State sys → ℕ → RequestHead → Outcome ServerConfig
  unfolding select_server
  server_for st addr_idx head = index (get_elem? st.addresses addr_idx) >>= λ addr.
      select_server st.servers addr (host head) >>= λ i. index (get_elem? st.servers i)

  on_head : State sys → ℕ → Client → HeadStatus → Outcome (State sys)
  unfolding respond_error on_mode
  on_head st fd c HeadStatus.need_more = returns st
  on_head st fd c (HeadStatus.bad code) = returns (respond_error st fd code none)
  on_head st fd c (HeadStatus.ok head) =
      server_for st c.addr_idx head >>= λ server. on_mode st fd c.inbuf server head (body_mode head)

  dispatch_client : State sys → ℕ → Option Client → Outcome (State sys)
  unfolding on_head
  dispatch_client st fd none = returns st
  dispatch_client st fd (some c) = on_head st fd c (parse_head c.inbuf)

  unfoldable pub try_dispatch : State sys → ℕ → Outcome (State sys)
  unfolding dispatch_client
  try_dispatch st fd = dispatch_client st fd (lookup fd st.clients)
