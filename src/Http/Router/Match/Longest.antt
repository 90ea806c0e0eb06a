-- ===== src/Http/Router/Match/Longest.antt =====
-- `best_route` picks the first of the longest routes that match.
use servoxide.Prelude.{
  ◌≡◌, ◌≤◌, ◌<◌, refl, ap, ◌⊎◌, inl, inr, Bool, true, false, ◌&&◌, List, [], ◌∷◌, ◌++◌, Option,
  none, some, arith, length, All, Bool-cases,
}
use servoxide.Text.{Bytes}
use servoxide.Config.Types.{Route, ServerConfig}
use servoxide.Http.Request.Types.{Request}
use servoxide.Http.Router.Match.{route_matches, longer, best_loop, best_route}

abbrev pub Matching : Bytes → Route → Type 0
Matching path r = route_matches r.path path ≡ true

-- Route `r` matches; those before it that match are shorter, and those behind it no longer.
pub record IsBest (path : Bytes) (routes : List Route) (r : Route) : Type 0 where
  pub before : List Route
  pub after : List Route
  pub splits : routes ≡ before ++ r ∷ after
  pub matches : Matching path r
  pub first : All (λ b. Matching path b → length b.path < length r.path) before
  pub longest : All (λ a. Matching path a → length a.path ≤ length r.path) after

-- What a route found so far says of the later ones that do not replace it.
abbrev Kept : Bytes → Option Route → Route → Type 0
Kept path best x = Matching path x → longer best x ≡ false

data Result (path : Bytes) (best : Option Route) (rs : List Route) : Option Route → Type 0 where
  kept : {o : Option Route} → o ≡ best → All (Kept path best) rs → Result path best rs o
  replaced :
      {o : Option Route} (r : Route)
      → o ≡ some r
      → longer best r ≡ true
      → IsBest path rs r
      → Result path best rs o

-- One more route in front that is no longer than the one picked behind it.
IsBest-cons :
    (path : Bytes) (x : Route) (rs : List Route) (r : Route)
    → (Matching path x → length x.path < length r.path)
    → IsBest path rs r
    → IsBest path (x ∷ rs) r
IsBest-cons path x rs r h b = record {
  before = x ∷ b.before;
  after = b.after;
  splits = ap (◌∷◌ x) b.splits;
  matches = b.matches;
  first = (h, b.first);
  longest = b.longest;
}

All-map {ℓ κ} :
    {A : Type ℓ} {P Q : A → Type κ} (xs : List A) → ((x : A) → P x → Q x) → All P xs → All Q xs
All-map [] f h = tt
All-map (x ∷ xs) f (p, h) = (f x p, All-map xs f h)

longer_trans :
    (best : Option Route) (x r : Route)
    → longer best x ≡ true
    → length x.path < length r.path
    → longer best r ≡ true
unfolding longer
longer_trans none x r h lt = refl
longer_trans (some b) x r h lt = ground arith

shorter_of_kept :
    (best : Option Route) (x r : Route)
    → longer best x ≡ false
    → longer best r ≡ true
    → length x.path < length r.path
unfolding longer
shorter_of_kept none x r h k = cc
shorter_of_kept (some b) x r h k = ground arith

longer-some : (x r : Route) → (longer (some x) r ≡ true → length x.path < length r.path)
unfolding longer
longer-some x r h = ground arith

not_longer-some : (x r : Route) → longer (some x) r ≡ false → length r.path ≤ length x.path
unfolding longer
not_longer-some x r h = ground arith

-- The route `x` is taken: what comes behind it keeps it, or is longer still.
took :
    (path : Bytes) (best : Option Route) (x : Route) (rs : List Route) (o : Option Route)
    → Matching path x
    → longer best x ≡ true
    → Result path (some x) rs o
    → Result path best (x ∷ rs) o
took path best x rs o m l (kept e all) = replaced x e l (record {
  before = [];
  after = rs;
  splits = refl;
  matches = m;
  first = tt;
  longest = All-map rs (λ a h ma. not_longer-some x a (h ma)) all;
})
took path best x rs o m l (replaced r e k b) =
    replaced r e (longer_trans best x r l (longer-some x r k))
      (IsBest-cons path x rs r (λ _. longer-some x r k) b)

-- The route `x` is left: it does not match, or is no longer than the one found.
left :
    (path : Bytes) (best : Option Route) (x : Route) (rs : List Route) (o : Option Route)
    → (route_matches x.path path && longer best x) ≡ false
    → Result path best rs o
    → Result path best (x ∷ rs) o
left path best x rs o h (kept e all) = kept e ((λ m. ground arith), all)
left path best x rs o h (replaced r e k b) =
    replaced r e k (IsBest-cons path x rs r (λ m. shorter_of_kept best x r (ground arith) k) b)

never : (b : Bool) (r : Route) → (b ≡ true → longer none r ≡ false) → b ≡ false
unfolding longer
never true r h = absurd (cc (h refl))
never false r h = refl

best_loop-Result :
    (path : Bytes) (best : Option Route) (rs : List Route)
    → Result path best rs (best_loop path best rs)
unfolding best_loop
best_loop-Result path best [] = kept refl tt
best_loop-Result path best (x ∷ rs) =
    elim (Bool-cases (route_matches x.path path && longer best x)) [
      | inl takes ↦ rw takes (
          let m : Matching path x = ground arith in
          let l : longer best x ≡ true = ground arith in
          took path best x rs _ m l (best_loop-Result path (some x) rs))
      | inr leaves ↦ rw leaves (left path best x rs _ leaves (best_loop-Result path best rs))
    ]

-- The route of a request is none exactly if no route matches, and otherwise the longest that
-- matches, the first of those that are equally long.
pub best_route-IsBest :
    (req : Request) (server : ServerConfig)
    → ((best_route req server ≡ none)
        × All (λ r. route_matches r.path req.path ≡ false) server.routes)
      ⊎ ((r : Route) × (best_route req server ≡ some r) × IsBest req.path server.routes r)
unfolding best_route
best_route-IsBest req server = go (best_loop-Result req.path none server.routes)
  where
    go :
        {o : Option Route}
        → Result req.path none server.routes o
        → ((o ≡ none) × All (λ r. route_matches r.path req.path ≡ false) server.routes)
          ⊎ ((r : Route) × (o ≡ some r) × IsBest req.path server.routes r)
    go (kept e all) =
        inl (e, All-map server.routes (λ r h. never (route_matches r.path req.path) r h) all)
    go (replaced r e l b) = inr (r, e, b)
