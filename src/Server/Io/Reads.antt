-- ===== src/Server/Io/Reads.antt =====
-- `handle_read` of server/mod.rs and the server it leaves.
use servoxide.Prelude.{
  Runs, Runs-map, ℕ, ◌^◌, ◌≡◌, ◌≤◌, refl, sym, ◌∙◌, subst, some-inj, ◌++◌, Option, none, some,
  arith, ◌⊎◌, inl, inr, Bool-cases, length, length-append, ltb,
}
use servoxide.Text.{Bytes}
use servoxide.Dict.{lookup, nat_eq, lookup-update_same}
use servoxide.Server.State.{Client, Read, System, State}
use servoxide.Server.Dispatch.{set_client, try_dispatch}
use servoxide.Server.Dispatch.Ready.{set_client-IsReady, remove_client-IsReady}
use servoxide.Server.Dispatch.Runs.{try_dispatch-Runs}
use servoxide.Server.Ready.{IsReady, Chokes}
use servoxide.Server.Io.{extend, received, on_read, handle_read}

module _ (sys : System) where
  -- Why bytes that arrive make the server panic: too many for a vector, or a body that chokes.
  pub record ReceiveChokes (st : State sys) (fd : ℕ) (bs : Bytes) : Type 0 where
    pub client : Client
    pub found : lookup fd st.clients ≡ some client
    pub reason : (2 ^ 63 ≤ length (client.inbuf ++ bs)) ⊎ Chokes st.servers (client.inbuf ++ bs)

  pub record ReadChokes (st : State sys) (fd : ℕ) : Type 0 where
    pub arrived : Bytes
    pub arrived_is : (sys.read st.os fd).0 ≡ Read.bytes arrived
    pub chokes : ReceiveChokes st fd arrived

  received-Runs :
      (st : State sys) (fd : ℕ) (bs : Bytes) (found : Option Client)
      → lookup fd st.clients ≡ found
      → IsReady sys st
      → Runs (IsReady sys) (ReceiveChokes st fd bs) (received sys st fd bs found)
  unfolding received extend
  received-Runs st fd bs none found i = i
  received-Runs st fd bs (some c) found i =
      elim (Bool-cases (ltb (length (c.inbuf ++ bs)) (2 ^ 63))) [
        | inr big ↦
            rw big (record { client = c; found = found; reason = inl (ground (arith, big)) })
        | inl small ↦ rw small (
            let (now, os') = sys.now st.os in
            let f : Client → Client =
              λ c'. record c' { inbuf = c.inbuf ++ bs; last_activity = now } in
            let st' = set_client sys (record st { os = os' }) fd f in
            Runs-map (IsReady sys) (try_dispatch sys st' fd)
              (λ d. record {
                client = c;
                found = found;
                reason = inr (
                    subst (λ (x : Client). Chokes st.servers x.inbuf)
                      (some-inj (sym d.found ∙ lookup-update_same fd f st.clients c found))
                      d.chokes);
              })
              (try_dispatch-Runs sys st' fd (
                set_client-IsReady sys (record st { os = os' }) fd f
                  (λ c' found' h. record {
                    addr_in = h.addr_in;
                    written_in = h.written_in;
                    pending_in =
                        subst (λ (x : Client). c'.pending_len ≤ length (x.inbuf ++ bs))
                          (some-inj (sym found' ∙ found))
                          (omega (arith, h.pending_in, length-append c'.inbuf bs));
                    inbuf_small = ground (arith, small);
                  })
                  i)))
      ]

  on_read-Runs :
      (st : State sys) (fd : ℕ) (r : Read)
      → IsReady sys st
      → Runs
          (IsReady sys)
          ((bs : Bytes) × (r ≡ Read.bytes bs) × ReceiveChokes st fd bs)
          (on_read sys st fd r)
  unfolding on_read
  on_read-Runs st fd Read.eof i = remove_client-IsReady sys st fd i
  on_read-Runs st fd Read.again i = i
  on_read-Runs st fd Read.failed i = remove_client-IsReady sys st fd i
  on_read-Runs st fd (Read.bytes bs) i =
      Runs-map (IsReady sys) (received sys st fd bs (lookup fd st.clients)) (λ c. (bs, refl, c))
        (received-Runs st fd bs (lookup fd st.clients) refl i)

  pub handle_read-Runs :
      (st : State sys) (fd : ℕ)
      → IsReady sys st
      → Runs (IsReady sys) (ReadChokes st fd) (handle_read sys st fd)
  unfolding handle_read
  handle_read-Runs st fd i =
      let (r, os') = sys.read st.os fd in
      Runs-map (IsReady sys) (on_read sys (record st { os = os' }) fd r)
        (λ (bs, arrived_is, chokes). record {
          arrived = bs;
          arrived_is = arrived_is;
          chokes = record { client = chokes.client; found = chokes.found; reason = chokes.reason };
        })
        (on_read-Runs (record st { os = os' }) fd r i)
