-- ===== src/Server/Dispatch/Runs.antt =====
-- `try_dispatch` of server/mod.rs and the server it leaves.
use servoxide.Prelude.{
  Runs, Runs-map, ℕ, ◌≡◌, refl, ap, ◌∙◌, true, Option, none, some, arith, inl, inr, Option-cases,
  get_elem?, length, drop, leb, index,
}
use servoxide.Dict.{lookup, nat_eq, text_eq}
use servoxide.Dict.AllValues.{lookup-AllValues}
use servoxide.Config.Types.{ServerConfig}
use servoxide.Http.Request.Types.{RequestHead, HeadStatus, BodyMode}
use servoxide.Http.Request.Head.{parse_head}
use servoxide.Http.Request.Head.Laws.{parse_head-IsHead}
use servoxide.Http.Request.Body.{body_mode}
use servoxide.Http.Request.Body.Laws.{decode_body-cases}
use servoxide.Server.State.{Client, System, State}
use servoxide.Server.Dispatch.{body_buf, on_mode, on_head, dispatch_client, try_dispatch}
use servoxide.Server.Ready.{IsClient, IsReady, Chokes}
use servoxide.Server.Dispatch.Ready.{respond_error-IsReady, server_for_lem, on_body-IsReady}

module _ (sys : System) where
  on_mode-Runs :
      (st : State sys) (fd : ℕ) (server : ServerConfig) (head : RequestHead) (index : ℕ)
      (c : Client) (mode : Option BodyMode)
      → lookup fd st.clients ≡ some c
      → parse_head c.inbuf ≡ HeadStatus.ok head
      → get_elem? st.servers index ≡ some server
      → body_mode head ≡ mode
      → IsReady sys st
      → Runs (IsReady sys) (Chokes st.servers c.inbuf) (on_mode sys st fd c.inbuf server head mode)
  unfolding on_mode body_buf
  on_mode-Runs st fd server head index c none found parsed entry moded i =
      respond_error-IsReady sys st fd 400 (some server) i
  on_mode-Runs st fd server head index c (some mode) found parsed entry moded i =
      let fits = (parse_head-IsHead c.inbuf head parsed).in_bounds in
      let inside : leb head.head_len (length c.inbuf) ≡ true = ground (arith, fits) in
      rw inside
        (elim (decode_body-cases (drop head.head_len c.inbuf) mode server.client_max_body_size) [
          | inl (s, e) ↦ rw e (on_body-IsReady sys st fd server head mode c s found fits e i)
          | inr (e, chunked, panic) ↦ rw e (record {
            head = head;
            server = server;
            index = index;
            head_is = parsed;
            server_is = entry;
            mode_is = moded ∙ ap some chunked;
            panic = panic;
          })
        ])

  on_head-Runs :
      (st : State sys) (fd : ℕ) (c : Client) (s : HeadStatus)
      → lookup fd st.clients ≡ some c
      → parse_head c.inbuf ≡ s
      → IsReady sys st
      → Runs (IsReady sys) (Chokes st.servers c.inbuf) (on_head sys st fd c s)
  unfolding on_head
  on_head-Runs st fd c HeadStatus.need_more found parsed i = i
  on_head-Runs st fd c (HeadStatus.bad code) found parsed i =
      respond_error-IsReady sys st fd code none i
  on_head-Runs st fd c (HeadStatus.ok head) found parsed i =
      let client =
        lookup-AllValues (IsClient (length st.addresses)) fd st.clients c found i.clients_are in
      let (server, index, chosen, entry) =
        server_for_lem sys st c.addr_idx head client.addr_in i.addresses_are in
      rw chosen (on_mode-Runs st fd server head index c (body_mode head) found parsed entry refl i)

  -- Why `try_dispatch` panics: the buffer of the connection chokes the decoder.
  pub record DispatchChokes (st : State sys) (fd : ℕ) : Type 0 where
    pub client : Client
    pub found : lookup fd st.clients ≡ some client
    pub chokes : Chokes st.servers client.inbuf

  -- On a ready server, a dispatch ends in a ready server, or panics for a chunked body of that
  -- connection that makes its decoder panic: no index of an address, of a server or of the buffer
  -- is out of bounds.
  pub try_dispatch-Runs :
      (st : State sys) (fd : ℕ)
      → IsReady sys st
      → Runs (IsReady sys) (DispatchChokes st fd) (try_dispatch sys st fd)
  unfolding try_dispatch dispatch_client
  try_dispatch-Runs st fd i = elim (Option-cases (lookup fd st.clients)) [
    | inl gone ↦ rw gone i
    | inr (c, found) ↦ rw found (
        Runs-map (IsReady sys) (on_head sys st fd c (parse_head c.inbuf))
          (λ chokes. record { client = c; found = found; chokes = chokes })
          (on_head-Runs st fd c (parse_head c.inbuf) found refl i))
  ]
