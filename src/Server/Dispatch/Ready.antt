-- ===== src/Server/Dispatch/Ready.antt =====
-- The steps of `try_dispatch` in server/mod.rs and the server they leave.
use servoxide.Prelude.{
  ℕ, ◌+◌, ◌≡◌, ◌≤◌, ◌<◌, refl, sym, ◌∙◌, subst, some-inj, Bool, true, false, Option, some, All,
  arith, get_elem?, get_elem?-All, length, length-drop, drop, returns,
}
use servoxide.Text.{Bytes, codes}
use servoxide.Dict.{lookup, nat_eq, text_eq}
use servoxide.Dict.AllValues.{lookup-AllValues, update-AllValues, remove-AllValues}
use servoxide.Dict.Unique.{update-Unique, remove-Unique}
use servoxide.Config.Types.{ServerConfig}
use servoxide.Http.Request.Types.{RequestHead, BodyMode, BodyStatus}
use servoxide.Http.Request.Body.{host, decode_body}
use servoxide.Http.Request.Body.Laws.{decode_body-bounds}
use servoxide.Http.Status.{wants_keep_alive}
use servoxide.Http.Response.{Response, into_bytes}
use servoxide.Http.Router.Pages.{error_response}
use servoxide.Http.Router.Dispatch.{handle}
use servoxide.Poll.{want_writable}
use servoxide.Server.Select.Laws.{select_server-IsIndex}
use servoxide.Server.State.{Client, System, State}
use servoxide.Server.Dispatch.{
  set_client, remove_client, or_remove, queue_response, respond_error, with_session, send,
  request_of, answer, on_body, server_for,
}
use servoxide.Server.Ready.{IsAddress, IsClient, IsReady}

module _ (sys : System) where
  pub set_client-IsReady :
      (st : State sys) (fd : ℕ) (f : Client → Client)
      → ((c : Client)
          → lookup fd st.clients ≡ some c
          → IsClient (length st.addresses) c
          → IsClient (length st.addresses) (f c))
      → IsReady sys st
      → IsReady sys (set_client sys st fd f)
  unfolding set_client
  set_client-IsReady st fd f keep i = record {
    addresses_are = i.addresses_are;
    listeners_are = i.listeners_are;
    clients_unique = update-Unique fd f st.clients i.clients_unique;
    clients_are =
        update-AllValues (IsClient (length st.addresses)) fd f st.clients keep i.clients_are;
  }

  pub remove_client-IsReady :
      (st : State sys) (fd : ℕ) → IsReady sys st → IsReady sys (remove_client sys st fd)
  unfolding remove_client
  remove_client-IsReady st fd i = record {
    addresses_are = i.addresses_are;
    listeners_are = i.listeners_are;
    clients_unique = remove-Unique fd st.clients i.clients_unique;
    clients_are = remove-AllValues (IsClient (length st.addresses)) fd st.clients i.clients_are;
  }

  or_remove-IsReady :
      (st : State sys) (fd : ℕ) (p : Bool × sys.Os)
      → IsReady sys st
      → IsReady sys (or_remove sys st fd p)
  unfolding or_remove
  or_remove-IsReady st fd (true, os') i = i
  or_remove-IsReady st fd (false, os') i = remove_client-IsReady (record st { os = os' }) fd i

  queue_response-IsReady :
      (st : State sys) (fd : ℕ) (response : Bytes)
      → IsReady sys st
      → IsReady sys (queue_response sys st fd response)
  unfolding queue_response
  queue_response-IsReady st fd response i =
      let st' = set_client sys st fd (λ c. record c { outbuf = response; written = 0 }) in
      or_remove-IsReady st' fd (sys.poller_modify st.os fd want_writable) (
        set_client-IsReady st fd (λ c. record c { outbuf = response; written = 0 })
          (λ c found h. record {
            addr_in = h.addr_in;
            written_in = omega arith;
            pending_in = h.pending_in;
            inbuf_small = h.inbuf_small;
          })
          i)

  pub respond_error-IsReady :
      (st : State sys) (fd code : ℕ) (server : Option ServerConfig)
      → IsReady sys st
      → IsReady sys (respond_error sys st fd code server)
  unfolding respond_error
  respond_error-IsReady st fd code server i =
      let st' = set_client sys st fd (λ c. record c { keep_alive = false; pending_len = 0 }) in
      queue_response-IsReady st' fd (into_bytes (error_response sys.files st.stored server code)) (
        set_client-IsReady st fd (λ c. record c { keep_alive = false; pending_len = 0 })
          (λ c found h. record {
            addr_in = h.addr_in;
            written_in = h.written_in;
            pending_in = omega arith;
            inbuf_small = h.inbuf_small;
          })
          i)

  send-IsReady :
      (st : State sys) (fd n : ℕ) (response : Response) (c : Client)
      → lookup fd st.clients ≡ some c
      → n ≤ length c.inbuf
      → IsReady sys st
      → IsReady sys (send sys st fd n response)
  unfolding send
  send-IsReady st fd n response c found fits i =
      let f : Client → Client =
        λ c. record c { keep_alive = response.keep_alive; pending_len = n } in
      queue_response-IsReady (set_client sys st fd f) fd (into_bytes response) (
        set_client-IsReady st fd f
          (λ d found' h. record {
            addr_in = h.addr_in;
            written_in = h.written_in;
            pending_in =
                subst (λ (x : Client). n ≤ length x.inbuf) (some-inj (sym found ∙ found')) fits;
            inbuf_small = h.inbuf_small;
          })
          i)

  answer-IsReady :
      (st : State sys) (fd : ℕ) (server : ServerConfig) (head : RequestHead) (body : Bytes)
      (consumed : ℕ) (c : Client)
      → lookup fd st.clients ≡ some c
      → head.head_len + consumed ≤ length c.inbuf
      → IsReady sys st
      → IsReady sys (answer sys st fd server head body consumed)
  unfolding answer with_session
  answer-IsReady st fd server head body consumed c found fits i =
      let keep_alive = wants_keep_alive head.version (lookup (codes "connection") head.headers) in
      let request = request_of sys head body in
      let (routed, stored') = handle sys.files st.stored server request keep_alive in
      let (response, st') = with_session sys (record st { stored = stored' }) request routed in
      send-IsReady st' fd (head.head_len + consumed) response c found fits i

  pub server_for_lem :
      (st : State sys) (addr_idx : ℕ) (head : RequestHead)
      → addr_idx < length st.addresses
      → All (IsAddress st.servers) st.addresses
      → (server : ServerConfig) × (i : ℕ) × (server_for sys st addr_idx head ≡ returns server)
        × (get_elem? st.servers i ≡ some server)
  unfolding server_for
  server_for_lem st addr_idx head inside all =
      let (addr, at, a) = get_elem?-All (IsAddress st.servers) addr_idx st.addresses inside all in
      let (i, chosen, (server, entry)) =
        select_server-IsIndex st.servers addr (host head) a.default a.others a.servers_are
          a.in_bounds in
      (server, i, rw (at, chosen, entry) refl, entry)

  -- The body's bytes lie behind the head, and decoding them may choke.
  pub on_body-IsReady :
      (st : State sys) (fd : ℕ) (server : ServerConfig) (head : RequestHead) (mode : BodyMode)
      (c : Client) (s : BodyStatus)
      → lookup fd st.clients ≡ some c
      → head.head_len ≤ length c.inbuf
      → decode_body (drop head.head_len c.inbuf) mode server.client_max_body_size ≡ returns s
      → IsReady sys st
      → IsReady sys (on_body sys st fd server head s)
  unfolding on_body
  on_body-IsReady st fd server head mode c BodyStatus.need_more found fits e i = i
  on_body-IsReady st fd server head mode c BodyStatus.too_large found fits e i =
      respond_error-IsReady st fd 413 (some server) i
  on_body-IsReady st fd server head mode c (BodyStatus.bad code) found fits e i =
      respond_error-IsReady st fd code (some server) i
  on_body-IsReady st fd server head mode c (BodyStatus.complete body k) found fits e i =
      let small =
        (lookup-AllValues (IsClient (length st.addresses)) fd st.clients c found
          i.clients_are).inbuf_small in
      let rest = length-drop head.head_len c.inbuf in
      let bounds =
        decode_body-bounds mode (drop head.head_len c.inbuf) body k server.client_max_body_size
          (omega (arith, rest, small)) e in
      answer-IsReady st fd server head body k c found (omega (arith, bounds, rest)) i
