-- ===== src/Server/Dispatch/Isolated.antt =====
-- `try_dispatch` of server/mod.rs, and the other connections.
use servoxide.Prelude.{
  Anyway, Anyway-bind, ℕ, ◌+◌, ◌≡◌, refl, ◌∙◌, Bool, true, false, Option, none, some, inl, inr,
  Option-cases, returns, ◌>>=◌, ◌==◌,
}
use servoxide.Text.{Bytes, codes}
use servoxide.Dict.{lookup, nat_eq, text_eq}
use servoxide.Dict.Unique.{lookup-remove, lookup-update_other}
use servoxide.Config.Types.{ServerConfig}
use servoxide.Http.Status.{wants_keep_alive}
use servoxide.Http.Request.Types.{RequestHead, HeadStatus, BodyMode, BodyStatus}
use servoxide.Http.Request.Head.{parse_head}
use servoxide.Http.Request.Body.{body_mode, decode_body}
use servoxide.Http.Response.{into_bytes}
use servoxide.Http.Router.Pages.{error_response}
use servoxide.Http.Router.Dispatch.{handle}
use servoxide.Poll.{want_writable}
use servoxide.Server.State.{Client, System, State}
use servoxide.Server.Dispatch.{
  set_client, remove_client, or_remove, queue_response, respond_error, with_session, send,
  request_of, answer, on_body, body_buf, on_mode, server_for, on_head, dispatch_client,
  try_dispatch,
}

-- The two states agree on a connection.
abbrev pub Same : (sys : System) → ℕ → State sys → State sys → Type 0
Same sys fd st st' = lookup fd st'.clients ≡ lookup fd st.clients

module _ (sys : System) (f fd : ℕ) (other : (f == fd) ≡ false) where
  pub set_client-Same :
      (st : State sys) (g : Client → Client) → Same sys fd st (set_client sys st f g)
  unfolding set_client
  set_client-Same st g = lookup-update_other f fd g st.clients other

  pub remove_client-Same : (st : State sys) → Same sys fd st (remove_client sys st f)
  unfolding remove_client
  remove_client-Same st = lookup-remove f fd st.clients ∙ rw other refl

  or_remove-Same : (st : State sys) (p : Bool × sys.Os) → Same sys fd st (or_remove sys st f p)
  unfolding or_remove
  or_remove-Same st (true, os') = refl
  or_remove-Same st (false, os') = remove_client-Same (record st { os = os' })

  queue_response-Same :
      (st : State sys) (response : Bytes) → Same sys fd st (queue_response sys st f response)
  unfolding queue_response
  queue_response-Same st response =
      let g : Client → Client = λ c. record c { outbuf = response; written = 0 } in
      or_remove-Same (set_client sys st f g) (sys.poller_modify st.os f want_writable)
      ∙ set_client-Same st g

  pub respond_error-Same :
      (st : State sys) (code : ℕ) (server : Option ServerConfig)
      → Same sys fd st (respond_error sys st f code server)
  unfolding respond_error
  respond_error-Same st code server =
      let g : Client → Client = λ c. record c { keep_alive = false; pending_len = 0 } in
      queue_response-Same (set_client sys st f g)
        (into_bytes (error_response sys.files st.stored server code))
      ∙ set_client-Same st g

  answer-Same :
      (st : State sys) (server : ServerConfig) (head : RequestHead) (body : Bytes) (consumed : ℕ)
      → Same sys fd st (answer sys st f server head body consumed)
  unfolding answer with_session send
  answer-Same st server head body consumed =
      let keep_alive = wants_keep_alive head.version (lookup (codes "connection") head.headers) in
      let request = request_of sys head body in
      let (routed, stored') = handle sys.files st.stored server request keep_alive in
      let (response, st') = with_session sys (record st { stored = stored' }) request routed in
      let g : Client → Client = λ c. record c {
        keep_alive = response.keep_alive;
        pending_len = head.head_len + consumed;
      } in
      queue_response-Same (set_client sys st' f g) (into_bytes response) ∙ set_client-Same st' g

  on_body-Same :
      (st : State sys) (server : ServerConfig) (head : RequestHead) (s : BodyStatus)
      → Same sys fd st (on_body sys st f server head s)
  unfolding on_body
  on_body-Same st server head BodyStatus.need_more = refl
  on_body-Same st server head BodyStatus.too_large = respond_error-Same st 413 (some server)
  on_body-Same st server head (BodyStatus.bad code) = respond_error-Same st code (some server)
  on_body-Same st server head (BodyStatus.complete body k) = answer-Same st server head body k

  on_mode-Same :
      (st : State sys) (inbuf : Bytes) (server : ServerConfig) (head : RequestHead)
      (mode : Option BodyMode)
      → Anyway (Same sys fd st) (on_mode sys st f inbuf server head mode)
  unfolding on_mode
  on_mode-Same st inbuf server head none = respond_error-Same st 400 (some server)
  on_mode-Same st inbuf server head (some mode) =
      Anyway-bind (Same sys fd st) (body_buf sys inbuf head.head_len)
        (λ buf. decode_body buf mode server.client_max_body_size >>= λ status.
          returns (on_body sys st f server head status))
        (λ buf.
          Anyway-bind (Same sys fd st) (decode_body buf mode server.client_max_body_size)
            (λ status. returns (on_body sys st f server head status)) (on_body-Same st server head))

  on_head-Same :
      (st : State sys) (c : Client) (s : HeadStatus)
      → Anyway (Same sys fd st) (on_head sys st f c s)
  unfolding on_head
  on_head-Same st c HeadStatus.need_more = refl
  on_head-Same st c (HeadStatus.bad code) = respond_error-Same st code none
  on_head-Same st c (HeadStatus.ok head) =
      Anyway-bind (Same sys fd st) (server_for sys st c.addr_idx head)
        (λ server. on_mode sys st f c.inbuf server head (body_mode head))
        (λ server. on_mode-Same st c.inbuf server head (body_mode head))

  pub try_dispatch-Same : (st : State sys) → Anyway (Same sys fd st) (try_dispatch sys st f)
  unfolding try_dispatch dispatch_client
  try_dispatch-Same st = elim (Option-cases (lookup f st.clients)) [
    | inl gone ↦ rw gone refl
    | inr (c, found) ↦ rw found (on_head-Same st c (parse_head c.inbuf))
  ]
