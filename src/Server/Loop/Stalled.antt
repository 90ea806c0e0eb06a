-- ===== src/Server/Loop/Stalled.antt =====
-- The connections that `sweep_timeouts` of server/mod.rs leaves.
use servoxide.Prelude.{
  ℕ, ◌-◌, ◌≡◌, ◌<◌, refl, sym, ◌∙◌, subst, some-inj, true, false, none, some, arith, inl, inr,
  Bool-cases, Option-cases, leb, is_empty,
}
use servoxide.Text.{codes}
use servoxide.Dict.{lookup, nat_eq}
use servoxide.Http.Response.{Response, into_bytes, status_line}
use servoxide.Http.Router.Pages.{error_response}
use servoxide.Server.State.{Client, idle_timeout, request_timeout, System, State}
use servoxide.Server.Ready.{IsReady}
use servoxide.Server.Loop.{
  Verdict, verdict, is_close, is_timeout, to_close, to_time_out, close_each, sweep_timeouts,
}
use servoxide.Server.Loop.Answers.{timeout_each-other}
use servoxide.Server.Loop.Sweep.{pick-missing, close_each-lookup, Swept, sweep_timeouts-Swept}

-- A response is under way, or a request came in lately, or there has been some activity lately.
pub data IsActive (now : ℕ) (c : Client) : Type 0 where
  writing : is_empty c.outbuf ≡ false → IsActive now c
  reading : is_empty c.inbuf ≡ false → now - c.last_activity < request_timeout → IsActive now c
  idle : is_empty c.inbuf ≡ true → now - c.last_activity < idle_timeout → IsActive now c

verdict-IsActive : (now : ℕ) (c : Client) → verdict now c ≡ Verdict.leave → IsActive now c
unfolding verdict
verdict-IsActive now c h =
    let age = now - c.last_activity in
    elim (Bool-cases (is_empty c.outbuf)) [
      | inr busy ↦ IsActive.writing busy
      | inl quiet ↦ elim (Bool-cases (is_empty c.inbuf)) [
        | inr started ↦ elim (Bool-cases (leb request_timeout age)) [
          | inl late ↦ absurd (cc (rw (quiet, started, late) at h))
          | inr soon ↦ IsActive.reading started (ground (arith, soon))
        ]
        | inl nothing ↦ elim (Bool-cases (leb idle_timeout age)) [
          | inl late ↦ absurd (cc (rw (quiet, nothing, late) at h))
          | inr soon ↦ IsActive.idle nothing (ground (arith, soon))
        ]
      ]
    ]

into_bytes-some : (r : Response) → is_empty (into_bytes r) ≡ false
unfolding into_bytes status_line codes
into_bytes-some r = refl

module _ (sys : System) where
  sweep_timeouts-missing :
      (st : State sys) (now fd : ℕ)
      → lookup fd st.clients ≡ none
      → lookup fd (sweep_timeouts sys st now).clients ≡ none
  unfolding sweep_timeouts
  sweep_timeouts-missing st now fd gone =
      timeout_each-other sys (close_each sys st (to_close now st.clients))
        (to_time_out now st.clients) fd
        (pick-missing (λ c. is_timeout (verdict now c)) fd st.clients gone)
      ∙ close_each-lookup sys st (to_close now st.clients) fd
      ∙ rw (pick-missing (λ c. is_close (verdict now c)) fd st.clients gone) gone

  -- After a sweep of a ready server, each connection that is left has a response under way, or
  -- has a part of a request and was active within the last 30 seconds, or has no byte and was
  -- active within the last 60.
  pub sweep_timeouts-IsActive :
      (st : State sys) (now fd : ℕ) (c : Client)
      → IsReady sys st
      → lookup fd (sweep_timeouts sys st now).clients ≡ some c
      → IsActive now c
  sweep_timeouts-IsActive st now fd c i there = elim (Option-cases (lookup fd st.clients)) [
    | inl gone ↦ absurd (cc (there, sweep_timeouts-missing st now fd gone))
    | inr (d, found) ↦ go d (verdict now d) refl (sweep_timeouts-Swept sys st now fd d i found)
  ]
    where
      go : (d : Client) (v : Verdict) → verdict now d ≡ v → Swept sys st now fd d v → IsActive now c
      go d Verdict.leave e swept =
          subst (IsActive now) (some-inj (sym swept ∙ there)) (verdict-IsActive now d e)
      go d Verdict.close e swept = absurd (cc (swept, there))
      go d Verdict.timeout e (inl (gone, r)) = absurd (cc (gone, there))
      go d Verdict.timeout e (inr (b, found, t)) =
          subst (IsActive now) (some-inj (sym found ∙ there)) (
            IsActive.writing
              (rw t.outbuf_is (into_bytes-some (error_response sys.files t.files none 408))))
