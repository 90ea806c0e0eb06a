-- ===== src/Server/Loop/Answers.antt =====
-- The connections that the second loop of `sweep_timeouts` of server/mod.rs times out.
use servoxide.Prelude.{
  ℕ, ◌≡◌, ◌⊎◌, refl, sym, ap, ◌∙◌, subst, Bool, true, false, List, [], ◌∷◌, ◌++◌, none, some, inl,
  inr, Bool-cases, any, ◌==◌, ==_iff,
}
use servoxide.Dict.{lookup, update, nat_eq, lookup-update_same, beq_self}
use servoxide.Dict.Unique.{lookup-remove, lookup-update_missing}
use servoxide.Http.Response.{into_bytes}
use servoxide.Http.Router.Pages.{error_response}
use servoxide.Poll.{want_writable}
use servoxide.Server.State.{Client, System, State}
use servoxide.Server.Dispatch.{set_client, remove_client, or_remove, queue_response, respond_error}
use servoxide.Server.Dispatch.Isolated.{respond_error-Same}
use servoxide.Server.Loop.{timeout_each}

abbrev pub holds : ℕ → List ℕ → Bool
holds fd fds = any (λ f. f == fd) fds

module _ (sys : System) where
  -- A connection that has been told that its request took too long.
  pub record IsTimedOut (c : Client) : Type 0 where
    pub files : sys.files.Files
    pub outbuf_is : c.outbuf ≡ into_bytes (error_response sys.files files none 408)
    pub closes : c.keep_alive ≡ false
    pub unsent : c.written ≡ 0

  -- The poller has refused to wait for this connection when its turn came among those timed out
  -- from the state on.
  pub record Refusal (st : State sys) (fds : List ℕ) (fd : ℕ) : Type 0 where
    pub before : List ℕ
    pub after : List ℕ
    pub split : fds ≡ before ++ (fd ∷ after)
    pub refused : (sys.poller_modify (timeout_each sys st before).os fd want_writable).0 ≡ false

  -- In the state `end` the answer waits to be written, or the connection is gone and the poller had
  -- refused it.
  abbrev pub Answered : State sys → State sys → List ℕ → ℕ → Type 0
  Answered end st fds fd =
      ((lookup fd end.clients ≡ none) × Refusal st fds fd)
      ⊎ ((c : Client) × (lookup fd end.clients ≡ some c) × IsTimedOut c)

  respond_error-IsTimedOut :
      (st : State sys) (fd : ℕ) (c : Client)
      → lookup fd st.clients ≡ some c
      → ((lookup fd (respond_error sys st fd 408 none).clients ≡ none)
          × ((sys.poller_modify st.os fd want_writable).0 ≡ false))
        ⊎ ((c' : Client) × (lookup fd (respond_error sys st fd 408 none).clients ≡ some c')
            × IsTimedOut c')
  unfolding respond_error queue_response or_remove set_client remove_client
  respond_error-IsTimedOut st fd c found =
      let g : Client → Client = λ c. record c { keep_alive = false; pending_len = 0 } in
      let bytes = into_bytes (error_response sys.files st.stored none 408) in
      let h : Client → Client = λ c. record c { outbuf = bytes; written = 0 } in
      let same : (fd == fd) ≡ true = beq_self fd in
      elim (Bool-cases (sys.poller_modify st.os fd want_writable).0) [
        | inr refused ↦ inl (
          rw (refused, or_remove)
              (lookup-remove fd fd (update fd h (update fd g st.clients)) ∙ rw same refl),
          refused,
        )
        | inl ok ↦ inr (
          h (g c),
          rw (ok, or_remove)
              (lookup-update_same fd h (update fd g st.clients) (g c)
                (lookup-update_same fd g st.clients c found)),
          record { files = st.stored; outbuf_is = refl; closes = refl; unsent = refl },
        )
      ]

  respond_error-gone :
      (st : State sys) (fd : ℕ)
      → lookup fd st.clients ≡ none
      → lookup fd (respond_error sys st fd 408 none).clients ≡ none
  unfolding respond_error queue_response or_remove set_client remove_client
  respond_error-gone st fd gone =
      let g : Client → Client = λ c. record c { keep_alive = false; pending_len = 0 } in
      let bytes = into_bytes (error_response sys.files st.stored none 408) in
      let h : Client → Client = λ c. record c { outbuf = bytes; written = 0 } in
      let same : (fd == fd) ≡ true = beq_self fd in
      elim (Bool-cases (sys.poller_modify st.os fd want_writable).0) [
        | inr refused ↦
            rw (refused, or_remove)
              (lookup-remove fd fd (update fd h (update fd g st.clients)) ∙ rw same refl)
        | inl ok ↦
            rw (ok, or_remove)
              (lookup-update_missing fd h (update fd g st.clients)
                (lookup-update_missing fd g st.clients gone))
      ]

  timeout_each-gone :
      (st : State sys) (fds : List ℕ) (fd : ℕ)
      → lookup fd st.clients ≡ none
      → lookup fd (timeout_each sys st fds).clients ≡ none
  unfolding timeout_each
  timeout_each-gone st [] fd gone = gone
  timeout_each-gone st (f ∷ fds) fd gone =
      timeout_each-gone (respond_error sys st f 408 none) fds fd (elim (Bool-cases (f == fd)) [
        | inl same ↦
            subst (λ f. lookup fd (respond_error sys st f 408 none).clients ≡ none)
              (sym ((==_iff f fd).0 same)) (respond_error-gone st fd gone)
        | inr other ↦ respond_error-Same sys f fd other st 408 none ∙ gone
      ])

  pub timeout_each-Answered :
      (st : State sys) (fds : List ℕ) (fd : ℕ) (c : Client)
      → lookup fd st.clients ≡ some c
      → (holds fd fds ≡ true) ⊎ IsTimedOut c
      → Answered (timeout_each sys st fds) st fds fd
  unfolding timeout_each
  timeout_each-Answered st [] fd c found (inl h) = absurd (cc)
  timeout_each-Answered st [] fd c found (inr t) = inr (c, found, t)
  timeout_each-Answered st (f ∷ fds) fd c found due = elim (Bool-cases (f == fd)) [
    | inl same ↦
        subst
          (λ f. Answered (timeout_each sys (respond_error sys st f 408 none) fds) st (f ∷ fds) fd)
          (sym ((==_iff f fd).0 same))
          (elim (respond_error-IsTimedOut st fd c found) [
            | inl (gone, refused) ↦ inl (
              timeout_each-gone (respond_error sys st fd 408 none) fds fd gone,
              record { before = []; after = fds; split = refl; refused = refused },
            )
            | inr (c', found', t) ↦
                later fd (
                  timeout_each-Answered (respond_error sys st fd 408 none) fds fd c' found' (inr t))
          ])
    | inr other ↦ later f (
        timeout_each-Answered (respond_error sys st f 408 none) fds fd c
          (respond_error-Same sys f fd other st 408 none ∙ found)
          (elim due [ inl h ↦ inl (rw other at h) | inr t ↦ inr t ]))
  ]
    where
      later :
          (f : ℕ)
          → Answered
              (timeout_each sys (respond_error sys st f 408 none) fds)
              (respond_error sys st f 408 none)
              fds
              fd
          → Answered (timeout_each sys (respond_error sys st f 408 none) fds) st (f ∷ fds) fd
      later f (inl (gone, r)) = inl (
        gone,
        record {
          before = f ∷ r.before;
          after = r.after;
          split = ap (◌∷◌ f) r.split;
          refused = r.refused;
        },
      )
      later f (inr t) = inr t

  pub timeout_each-other :
      (st : State sys) (fds : List ℕ) (fd : ℕ)
      → holds fd fds ≡ false
      → lookup fd (timeout_each sys st fds).clients ≡ lookup fd st.clients
  unfolding timeout_each
  timeout_each-other st [] fd h = refl
  timeout_each-other st (f ∷ fds) fd h = elim (Bool-cases (f == fd)) [
    | inl same ↦ absurd (cc (rw same at h))
    | inr other ↦
        timeout_each-other (respond_error sys st f 408 none) fds fd (rw other at h)
        ∙ respond_error-Same sys f fd other st 408 none
  ]
