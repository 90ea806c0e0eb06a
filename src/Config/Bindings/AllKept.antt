-- ===== src/Config/Bindings/AllKept.antt =====
-- Servers with no binding in common are all kept (config/parser.rs).
use servoxide.Prelude.{
  ◌≡◌, refl, ap, ◌∙◌, sym, true, false, ◌||◌, not, List, [], ◌∷◌, ◌++◌, arith, append_assoc,
  append-nil,
}
use servoxide.Text.{Bytes}
use servoxide.Config.Types.{ServerConfig}
use servoxide.Config.Bindings.{Key, contains, Check, check_key, resolve}
use servoxide.Config.Bindings.Distinct.{
  are_fresh, are_fresh_weaken, bindings, keys, check_keys, check_keys-conflict, check_key-seen,
  contains-check_keys, check_start, check_server-keys,
}

are_fresh_left :
    (seen xs ys : List Key) → are_fresh seen (xs ++ ys) ≡ true → are_fresh seen xs ≡ true
are_fresh_left seen [] ys h = refl
are_fresh_left seen (x ∷ xs) ys h = ground (arith, h, are_fresh_left (x ∷ seen) xs ys)

are_fresh_right :
    (big seen xs ys : List Key)
    → ((j : Key) → contains big j ≡ true → contains seen j || contains xs j ≡ true)
    → are_fresh seen (xs ++ ys) ≡ true
    → are_fresh big ys ≡ true
unfolding contains
are_fresh_right big seen [] ys sub h =
    are_fresh_weaken seen big ys (λ j m. ground (arith, sub j m)) h
are_fresh_right big seen (x ∷ xs) ys sub h =
    are_fresh_right big (x ∷ seen) xs ys (λ j m. ground (arith, sub j m)) (ground (arith, h))

check_key-errors :
    (c : Check) (k : Key) → contains c.seen k ≡ false → (check_key c k).errors ≡ c.errors
unfolding check_key
check_key-errors c (h, (p, n)) new = ground (arith, new)

check_keys-errors :
    (c : Check) (ks : List Key) → are_fresh c.seen ks ≡ true → (check_keys c ks).errors ≡ c.errors
unfolding check_keys
check_keys-errors c [] h = refl
check_keys-errors c (k ∷ ks) h =
    let new : contains c.seen k ≡ false = ground (arith, h) in
    let rest : are_fresh (check_key c k).seen ks ≡ true =
      rw (check_key-seen c k, new) (ground (arith, h)) in
    check_keys-errors (check_key c k) ks rest ∙ check_key-errors c k new

-- Where no binding of the servers occurs twice, nor among those seen, every server is kept, in
-- order, behind those kept before, and no error is added.
pub resolve_all :
    (seen : List Key) (errors : List Bytes) (kept ss : List ServerConfig)
    → are_fresh seen (bindings ss) ≡ true
    → resolve seen errors kept ss ≡ (errors, kept ++ ss)
unfolding resolve
resolve_all seen errors kept [] h = ap (λ z. (errors, z)) (sym (append-nil kept))
resolve_all seen errors kept (s ∷ ss) h =
    let c = check_keys (check_start seen errors) (keys s) in
    let fresh = are_fresh_left seen (keys s) (bindings ss) h in
    let plain : c.conflict ≡ false =
      check_keys-conflict (check_start seen errors) (keys s) ∙ ap not fresh in
    let quiet : c.errors ≡ errors = check_keys-errors (check_start seen errors) (keys s) fresh in
    let later : are_fresh c.seen (bindings ss) ≡ true =
      are_fresh_right c.seen seen (keys s) (bindings ss)
        (λ j m. sym (contains-check_keys (check_start seen errors) (keys s) j) ∙ m) h in
    rw (check_server-keys seen errors s, plain, quiet)
      (resolve_all c.seen errors (kept ++ s ∷ []) ss later
        ∙ ap (λ z. (errors, z)) (append_assoc kept (s ∷ []) ss))
