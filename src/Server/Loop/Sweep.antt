-- ===== src/Server/Loop/Sweep.antt =====
-- `sweep_timeouts` of server/mod.rs, connection by connection.
use servoxide.Prelude.{
  ℕ, ◌≡◌, refl, sym, ap, ◌∙◌, subst, some-inj, Bool, false, List, [], ◌∷◌, none, some, inl, inr,
  Bool-cases, ◌==◌, ==_iff, if◌then◌else◌,
}
use servoxide.Dict.{Dict, lookup, nat_eq}
use servoxide.Dict.Unique.{Unique, lookup-remove}
use servoxide.Server.State.{Client, System, State}
use servoxide.Server.Dispatch.{remove_client}
use servoxide.Server.Ready.{IsReady}
use servoxide.Server.Loop.{
  Verdict, verdict, is_close, is_timeout, pick, to_close, to_time_out, close_each, sweep_timeouts,
}
use servoxide.Server.Loop.Answers.{holds, Answered, timeout_each-Answered, timeout_each-other}

pub pick-missing :
    (p : Client → Bool) (fd : ℕ) (m : Dict ℕ Client)
    → lookup fd m ≡ none
    → holds fd (pick p m) ≡ false
unfolding pick lookup
pick-missing p fd [] h = refl
pick-missing p fd ((j, c) ∷ m) h = elim (Bool-cases (j == fd)) [
  | inl same ↦ absurd (cc (rw (same, lookup) at h))
  | inr other ↦
      (let rest = pick-missing p fd m (rw other at h) in
        elim (Bool-cases (p c)) [
          | inl chosen ↦ rw (chosen, other) rest
          | inr passed ↦ rw passed rest
        ])
]

-- A connection is picked exactly if the test says so.
pick_lem :
    (p : Client → Bool) (fd : ℕ) (m : Dict ℕ Client) (c : Client)
    → Unique m
    → lookup fd m ≡ some c
    → holds fd (pick p m) ≡ p c
unfolding pick lookup
pick_lem p fd [] c u h = absurd (cc)
pick_lem p fd ((j, d) ∷ m) c (new, u) h = elim (Bool-cases (j == fd)) [
  | inl same ↦
      (let here : d ≡ c = some-inj (rw same at h) in
        let gone =
          pick-missing p fd m (subst (λ i. lookup i m ≡ none) ((==_iff j fd).0 same) new) in
        elim (Bool-cases (p d)) [
          | inl chosen ↦ rw (chosen, same) (sym chosen ∙ ap p here)
          | inr passed ↦ rw passed (gone ∙ sym passed ∙ ap p here)
        ])
  | inr other ↦
      (let rest = pick_lem p fd m c u (rw other at h) in
        elim (Bool-cases (p d)) [
          | inl chosen ↦ rw (chosen, other) rest
          | inr passed ↦ rw passed rest
        ])
]

module _ (sys : System) where
  pub close_each-lookup :
      (st : State sys) (fds : List ℕ) (fd : ℕ)
      → lookup fd (close_each sys st fds).clients
        ≡ (if holds fd fds then none else lookup fd st.clients)
  unfolding close_each remove_client
  close_each-lookup st [] fd = refl
  close_each-lookup st (f ∷ fds) fd =
      close_each-lookup (remove_client sys st f) fds fd ∙ elim (Bool-cases (f == fd)) [
        | inl same ↦
            rw (lookup-remove f fd st.clients, same)
              (elim (Bool-cases (holds fd fds)) [ inl h ↦ rw h refl | inr h ↦ rw h refl ])
        | inr other ↦ rw (lookup-remove f fd st.clients, other) refl
      ]

  -- What its verdict means for a connection of the state before the sweep.
  abbrev pub Swept : State sys → ℕ → ℕ → Client → Verdict → Type 0
  Swept st now fd c Verdict.leave = lookup fd (sweep_timeouts sys st now).clients ≡ some c
  Swept st now fd c Verdict.close = lookup fd (sweep_timeouts sys st now).clients ≡ none
  Swept st now fd c Verdict.timeout =
      Answered sys (sweep_timeouts sys st now) (close_each sys st (to_close now st.clients))
        (to_time_out now st.clients) fd

  -- A sweep of a ready server treats each connection by its own verdict: it stays as it is, is
  -- closed, or gets the error page of 408 as its only response. A connection with that last
  -- verdict is gone only if the poller, asked in its turn, refused to wait for it.
  pub sweep_timeouts-Swept :
      (st : State sys) (now fd : ℕ) (c : Client)
      → IsReady sys st
      → lookup fd st.clients ≡ some c
      → Swept st now fd c (verdict now c)
  unfolding sweep_timeouts
  sweep_timeouts-Swept st now fd c i found =
      let closing =
        pick_lem (λ c. is_close (verdict now c)) fd st.clients c i.clients_unique found in
      let timing =
        pick_lem (λ c. is_timeout (verdict now c)) fd st.clients c i.clients_unique found in
      let st1 = close_each sys st (to_close now st.clients) in
      let closed = close_each-lookup st (to_close now st.clients) fd in
      go (verdict now c) closing timing closed
    where
      go :
          (v : Verdict)
          → holds fd (to_close now st.clients) ≡ is_close v
          → holds fd (to_time_out now st.clients) ≡ is_timeout v
          → lookup fd (close_each sys st (to_close now st.clients)).clients
            ≡ (if holds fd (to_close now st.clients) then none else lookup fd st.clients)
          → Swept st now fd c v
      go Verdict.leave closing timing closed =
          timeout_each-other sys (close_each sys st (to_close now st.clients))
            (to_time_out now st.clients) fd timing
          ∙ closed
          ∙ rw closing found
      go Verdict.close closing timing closed =
          timeout_each-other sys (close_each sys st (to_close now st.clients))
            (to_time_out now st.clients) fd timing
          ∙ closed
          ∙ rw closing refl
      go Verdict.timeout closing timing closed =
          timeout_each-Answered sys (close_each sys st (to_close now st.clients))
            (to_time_out now st.clients) fd c (closed ∙ rw closing found) (inl timing)
