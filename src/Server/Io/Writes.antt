-- ===== src/Server/Io/Writes.antt =====
-- `handle_write` and `finish_response` of server/mod.rs and the server they leave.
use servoxide.Prelude.{
  Runs, Runs-map, ℕ, ◌+◌, ◌≡◌, ◌≤◌, refl, sym, ◌∙◌, subst, some-inj, Bool, true, false, Option,
  none, some, arith, inl, inr, Bool-cases, length, length-drop, drop, leb, ◌==◌, not, is_empty,
  wrapping_add,
}
use servoxide.Dict.{lookup, nat_eq, lookup-update_same}
use servoxide.Dict.AllValues.{lookup-AllValues}
use servoxide.Poll.{want_readable}
use servoxide.Server.State.{Client, Write, System, State}
use servoxide.Server.Dispatch.{set_client, try_dispatch}
use servoxide.Server.Dispatch.Ready.{set_client-IsReady, remove_client-IsReady}
use servoxide.Server.Dispatch.Runs.{DispatchChokes, try_dispatch-Runs}
use servoxide.Server.Ready.{IsClient, IsReady, Chokes}
use servoxide.Server.Promises.{WritesWithin}
use servoxide.Server.Io.{
  reset, after_modify, finish_client, finish_response, advance, on_write, write_client,
  writable_client, handle_write,
}

-- A connection that is reset has dropped the request, and nothing else, from its buffer.
reset-IsClient : (n : ℕ) (c : Client) → IsClient n c → IsClient n (reset c)
unfolding reset
reset-IsClient n c h =
    let within : leb c.pending_len (length c.inbuf) ≡ true = ground (arith, h.pending_in) in
    let rest = length-drop c.pending_len c.inbuf in
    record {
      addr_in = h.addr_in;
      written_in = omega arith;
      pending_in = omega arith;
      inbuf_small = rw within (omega (arith, rest, h.inbuf_small));
    }

reset_inbuf : (n : ℕ) (c : Client) → IsClient n c → (reset c).inbuf ≡ drop c.pending_len c.inbuf
unfolding reset
reset_inbuf n c h =
    let within : leb c.pending_len (length c.inbuf) ≡ true = ground (arith, h.pending_in) in
    rw within refl

module _ (sys : System) where
  -- Why the end of a response makes the server panic: the next request in the buffer chokes.
  pub record NextChokes (st : State sys) (fd : ℕ) : Type 0 where
    pub client : Client
    pub found : lookup fd st.clients ≡ some client
    pub chokes : Chokes st.servers (drop client.pending_len client.inbuf)

  after_modify-Runs :
      (st : State sys) (fd : ℕ) (p : Bool × sys.Os)
      → IsReady sys st
      → Runs (IsReady sys) (DispatchChokes sys st fd) (after_modify sys fd st p)
  unfolding after_modify
  after_modify-Runs st fd (true, os') i =
      Runs-map (IsReady sys) (try_dispatch sys (record st { os = os' }) fd)
        (λ d. record { client = d.client; found = d.found; chokes = d.chokes })
        (try_dispatch-Runs sys (record st { os = os' }) fd i)
  after_modify-Runs st fd (false, os') i = remove_client-IsReady sys (record st { os = os' }) fd i

  finish_client-Runs :
      (st : State sys) (fd : ℕ) (found : Option Client)
      → lookup fd st.clients ≡ found
      → IsReady sys st
      → Runs (IsReady sys) (NextChokes st fd) (finish_client sys st fd found)
  unfolding finish_client
  finish_client-Runs st fd none found i = i
  finish_client-Runs st fd (some c) found i = elim (Bool-cases (not c.keep_alive)) [
    | inl last ↦ rw last (remove_client-IsReady sys st fd i)
    | inr kept ↦ rw kept (
        let st' = set_client sys st fd reset in
        let p = sys.poller_modify st.os fd want_readable in
        let own =
          lookup-AllValues (IsClient (length st.addresses)) fd st.clients c found i.clients_are in
        Runs-map (IsReady sys) (after_modify sys fd st' p)
          (λ d. record {
            client = c;
            found = found;
            chokes = subst (Chokes st.servers) (reset_inbuf (length st.addresses) c own) (
                subst (λ (x : Client). Chokes st.servers x.inbuf)
                  (some-inj (sym d.found ∙ lookup-update_same fd reset st.clients c found))
                  d.chokes);
          })
          (after_modify-Runs st' fd p (
            set_client-IsReady sys st fd reset
              (λ c' found' h. reset-IsClient (length st.addresses) c' h) i)))
  ]

  finish_response-Runs :
      (st : State sys) (fd : ℕ)
      → IsReady sys st
      → Runs (IsReady sys) (NextChokes st fd) (finish_response sys st fd)
  unfolding finish_response
  finish_response-Runs st fd i = finish_client-Runs st fd (lookup fd st.clients) refl i

  -- More bytes have gone out, but no more than there are.
  advance-Runs :
      (st : State sys) (fd : ℕ) (c : Client) (n : ℕ)
      → lookup fd st.clients ≡ some c
      → c.written + n ≤ length c.outbuf
      → IsReady sys st
      → Runs (IsReady sys) (NextChokes st fd) (advance sys st fd c n)
  unfolding advance wrapping_add
  advance-Runs st fd c n found fits i =
      let (now, os') = sys.now st.os in
      let written' = wrapping_add c.written n in
      let f : Client → Client = λ c'. record c' { written = written'; last_activity = now } in
      let st' = set_client sys (record st { os = os' }) fd f in
      let within : written' ≤ length c.outbuf = omega (arith, fits) in
      let i' : IsReady sys st' =
        set_client-IsReady sys (record st { os = os' }) fd f
          (λ c' found' h. record {
            addr_in = h.addr_in;
            written_in =
                subst (λ (x : Client). written' ≤ length x.outbuf) (some-inj (sym found ∙ found'))
                  within;
            pending_in = h.pending_in;
            inbuf_small = h.inbuf_small;
          })
          i in
      elim (Bool-cases (leb (length c.outbuf) written')) [
        | inr more ↦ rw more i'
        | inl all_out ↦ rw all_out (
            Runs-map (IsReady sys) (finish_response sys st' fd)
              (λ d. record {
                client = c;
                found = found;
                chokes =
                    subst (λ (x : Client). Chokes st.servers (drop x.pending_len x.inbuf))
                      (some-inj (sym d.found ∙ lookup-update_same fd f st.clients c found))
                      d.chokes;
              })
              (finish_response-Runs st' fd i'))
      ]

  on_write-Runs :
      (st : State sys) (fd : ℕ) (c : Client) (w : Write)
      → lookup fd st.clients ≡ some c
      → ((n : ℕ) → w ≡ Write.wrote n → c.written + n ≤ length c.outbuf)
      → IsReady sys st
      → Runs (IsReady sys) (NextChokes st fd) (on_write sys st fd c w)
  unfolding on_write
  on_write-Runs st fd c Write.again found fits i = i
  on_write-Runs st fd c Write.failed found fits i = remove_client-IsReady sys st fd i
  on_write-Runs st fd c (Write.wrote n) found fits i = elim (Bool-cases (n == 0)) [
    | inl nothing ↦ rw nothing i
    | inr some_out ↦ rw some_out (advance-Runs st fd c n found (fits n refl) i)
  ]

  writable_client-Runs :
      (st : State sys) (fd : ℕ) (found : Option Client)
      → WritesWithin sys
      → lookup fd st.clients ≡ found
      → IsReady sys st
      → Runs (IsReady sys) (NextChokes st fd) (writable_client sys st fd found)
  unfolding writable_client write_client
  writable_client-Runs st fd none within found i = i
  writable_client-Runs st fd (some c) within found i =
      let own =
        lookup-AllValues (IsClient (length st.addresses)) fd st.clients c found i.clients_are in
      let remaining = drop c.written c.outbuf in
      let (w, os') = sys.write st.os fd remaining in
      let st' : State sys = record st { os = os' } in
      let inside : leb c.written (length c.outbuf) ≡ true = ground (arith, own.written_in) in
      rw inside (elim (Bool-cases (is_empty remaining)) [
        | inl nothing ↦ rw nothing (remove_client-IsReady sys st fd i)
        | inr some_left ↦ rw some_left (
            Runs-map (IsReady sys) (on_write sys st' fd c w)
              (λ d. record { client = d.client; found = d.found; chokes = d.chokes })
              (on_write-Runs st' fd c w found
                (λ n e. omega (
                  arith,
                  within st.os fd remaining n e,
                  length-drop c.written c.outbuf,
                  own.written_in,
                ))
                i))
      ])

  pub handle_write-Runs :
      (st : State sys) (fd : ℕ)
      → WritesWithin sys
      → IsReady sys st
      → Runs (IsReady sys) (NextChokes st fd) (handle_write sys st fd)
  unfolding handle_write
  handle_write-Runs st fd within i = writable_client-Runs st fd (lookup fd st.clients) within refl i
