-- ===== src/Server/Io/Isolated.antt =====
-- The handlers of reads and writes of server/mod.rs, and the other connections.
use servoxide.Prelude.{
  Anyway, Anyway-bind, Anyway-weaken, ℕ, ◌≡◌, refl, ◌∙◌, Bool, true, false, Option, none, some, inl,
  inr, Bool-cases, Option-cases, leb, length, drop, ◌==◌, not, is_empty, wrapping_add,
}
use servoxide.Text.{Bytes}
use servoxide.Dict.{lookup, nat_eq}
use servoxide.Poll.{want_readable}
use servoxide.Server.State.{Client, Read, Write, System, State}
use servoxide.Server.Dispatch.{set_client, try_dispatch}
use servoxide.Server.Dispatch.Isolated.{
  Same, set_client-Same, remove_client-Same, try_dispatch-Same,
}
use servoxide.Server.Io.{
  extend, received, on_read, handle_read, reset, after_modify, finish_client, finish_response,
  advance, on_write, write_client, writable_client, handle_write,
}

module _ (sys : System) (f fd : ℕ) (other : (f == fd) ≡ false) where
  received-Same :
      (st : State sys) (bs : Bytes) (found : Option Client)
      → Anyway (Same sys fd st) (received sys st f bs found)
  unfolding received
  received-Same st bs none = refl
  received-Same st bs (some c) =
      Anyway-bind (Same sys fd st) (extend c.inbuf bs)
        (λ inbuf'.
          (let (now, os') = sys.now st.os in
            try_dispatch sys
              (set_client sys (record st { os = os' }) f
                (λ c. record c { inbuf = inbuf'; last_activity = now }))
              f))
        (λ inbuf'.
          (let (now, os') = sys.now st.os in
            let g : Client → Client = λ c. record c { inbuf = inbuf'; last_activity = now } in
            let st' = set_client sys (record st { os = os' }) f g in
            Anyway-weaken (Same sys fd st') (Same sys fd st) (try_dispatch sys st' f)
              (λ st2 e. e ∙ set_client-Same sys f fd other (record st { os = os' }) g)
              (try_dispatch-Same sys f fd other st')))

  on_read-Same : (st : State sys) (r : Read) → Anyway (Same sys fd st) (on_read sys st f r)
  unfolding on_read
  on_read-Same st Read.eof = remove_client-Same sys f fd other st
  on_read-Same st Read.again = refl
  on_read-Same st Read.failed = remove_client-Same sys f fd other st
  on_read-Same st (Read.bytes bs) = received-Same st bs (lookup f st.clients)

  pub handle_read-Same : (st : State sys) → Anyway (Same sys fd st) (handle_read sys st f)
  unfolding handle_read
  handle_read-Same st = let (r, os') = sys.read st.os f in on_read-Same (record st { os = os' }) r

  after_modify-Same :
      (st : State sys) (p : Bool × sys.Os) → Anyway (Same sys fd st) (after_modify sys f st p)
  unfolding after_modify
  after_modify-Same st (true, os') = try_dispatch-Same sys f fd other (record st { os = os' })
  after_modify-Same st (false, os') = remove_client-Same sys f fd other (record st { os = os' })

  finish_response-Same : (st : State sys) → Anyway (Same sys fd st) (finish_response sys st f)
  unfolding finish_response finish_client
  finish_response-Same st = elim (Option-cases (lookup f st.clients)) [
    | inl gone ↦ rw gone refl
    | inr (c, found) ↦ rw found (elim (Bool-cases (not c.keep_alive)) [
      | inl last ↦ rw last (remove_client-Same sys f fd other st)
      | inr kept ↦ rw kept (
          let st' = set_client sys st f reset in
          let p = sys.poller_modify st.os f want_readable in
          Anyway-weaken (Same sys fd st') (Same sys fd st) (after_modify sys f st' p)
            (λ st2 e. e ∙ set_client-Same sys f fd other st reset) (after_modify-Same st' p))
    ])
  ]

  advance-Same :
      (st : State sys) (c : Client) (n : ℕ) → Anyway (Same sys fd st) (advance sys st f c n)
  unfolding advance
  advance-Same st c n =
      let (now, os') = sys.now st.os in
      let written' = wrapping_add c.written n in
      let g : Client → Client = λ c. record c { written = written'; last_activity = now } in
      let st' = set_client sys (record st { os = os' }) f g in
      let same = set_client-Same sys f fd other (record st { os = os' }) g in
      elim (Bool-cases (leb (length c.outbuf) written')) [
        | inr more ↦ rw more same
        | inl all_out ↦ rw all_out (
            Anyway-weaken (Same sys fd st') (Same sys fd st) (finish_response sys st' f)
              (λ st2 e. e ∙ same) (finish_response-Same st'))
      ]

  on_write-Same :
      (st : State sys) (c : Client) (w : Write) → Anyway (Same sys fd st) (on_write sys st f c w)
  unfolding on_write
  on_write-Same st c Write.again = refl
  on_write-Same st c Write.failed = remove_client-Same sys f fd other st
  on_write-Same st c (Write.wrote n) = elim (Bool-cases (n == 0)) [
    | inl nothing ↦ rw nothing refl
    | inr some_out ↦ rw some_out (advance-Same st c n)
  ]

  pub handle_write-Same : (st : State sys) → Anyway (Same sys fd st) (handle_write sys st f)
  unfolding handle_write writable_client write_client
  handle_write-Same st = elim (Option-cases (lookup f st.clients)) [
    | inl gone ↦ rw gone refl
    | inr (c, found) ↦ rw found (
        let remaining = drop c.written c.outbuf in
        let (w, os') = sys.write st.os f remaining in
        elim (Bool-cases (leb c.written (length c.outbuf))) [
          | inr outside ↦ rw outside tt
          | inl inside ↦ rw inside (elim (Bool-cases (is_empty remaining)) [
            | inl nothing ↦ rw nothing (remove_client-Same sys f fd other st)
            | inr some_left ↦ rw some_left (on_write-Same (record st { os = os' }) c w)
          ])
        ])
  ]
