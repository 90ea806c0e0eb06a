-- ===== src/Cgi/Pipes.antt =====
-- What a script gets from `write_all` of cgi/mod.rs.
use servoxide.Prelude.{
  ℕ, zero, suc, ◌+◌, ◌≡◌, ◌≢◌, ◌≤◌, ◌<◌, ◌⊎◌, refl, sym, ap, ◌∙◌, true, [], ◌∷◌, ◌++◌, append-nil,
  append_assoc, inl, inr, Bool-cases, arith, ◌==◌, ==_iff, leb, length, take, drop, length-drop,
  returns,
}
use servoxide.Text.{Bytes}
use servoxide.Cgi.{Libc, write_all}

-- What a descriptor has taken, call by call: the front of what it is given.
pub record Sink (c : Libc) : Type 0 where
  pub sent : c.Os → ℕ → Bytes
  pub within : (os : c.Os) (fd : ℕ) (bs : Bytes) → (c.write os fd bs).0 ≤ length bs
  pub takes :
      (os : c.Os) (fd : ℕ) (bs : Bytes)
      → sent (c.write os fd bs).1 fd ≡ sent os fd ++ take (c.write os fd bs).0 bs

take_nil : (n : ℕ) → ◌≡◌ {A = Bytes} (take n []) []
take_nil zero = refl
take_nil (suc n) = refl

drop_nil : (n : ℕ) → ◌≡◌ {A = Bytes} (drop n []) []
drop_nil zero = refl
drop_nil (suc n) = refl

take-take-drop : (n k : ℕ) (xs : Bytes) → take n xs ++ take k (drop n xs) ≡ take (n + k) xs
take-take-drop zero k xs = let e : 0 + k ≡ k = omega arith in rw e refl
take-take-drop (suc n) k [] = take_nil k ∙ sym (take_nil (suc n + k))
take-take-drop (suc n) k (x ∷ xs) =
    let e : suc n + k ≡ suc (n + k) = omega arith in
    rw e (ap (λ ys. x ∷ ys) (take-take-drop n k xs))

drop-drop_add : (n k : ℕ) (xs : Bytes) → drop k (drop n xs) ≡ drop (n + k) xs
drop-drop_add zero k xs = let e : 0 + k ≡ k = omega arith in rw e refl
drop-drop_add (suc n) k [] = drop_nil k ∙ sym (drop_nil (suc n + k))
drop-drop_add (suc n) k (x ∷ xs) =
    let e : suc n + k ≡ suc (n + k) = omega arith in rw e (drop-drop_add n k xs)

module _ (c : Libc) (s : Sink c) where
  -- Where a pipe takes the front of what it is given, a script gets a prefix of the body, and the
  -- loop ends within a call for each byte and one more: with the whole body, or with a call that
  -- takes nothing.
  pub write_all-sent :
      (fuel : ℕ) (os : c.Os) (fd : ℕ) (data' : Bytes)
      → length data' < fuel
      → (os' : c.Os) × (k : ℕ) × (write_all c fuel os fd data' ≡ returns os')
        × (s.sent os' fd ≡ s.sent os fd ++ take k data')
        × ((length data' ≤ k) ⊎ ((os2 : c.Os) × ((c.write os2 fd (drop k data')).0 ≡ 0)))
  unfolding write_all
  write_all-sent zero os fd data' enough = absurd (omega (arith, enough))
  write_all-sent (suc fuel) os fd [] enough =
      (os, 0, refl, sym (append-nil (s.sent os fd)), inl (omega arith))
  write_all-sent (suc fuel) os fd (x ∷ xs) enough =
      let data' = x ∷ xs in
      let (n, os') = c.write os fd data' in
      elim (Bool-cases (n == 0)) [
        | inl none_taken ↦
            (let zero_taken : n ≡ 0 = (==_iff n 0).0 none_taken in
              (
                os',
                0,
                rw none_taken refl,
                s.takes os fd data' ∙ ap (λ m. s.sent os fd ++ take m data') zero_taken,
                inr (os, zero_taken),
              ))
        | inr some_taken ↦
            (let most = s.within os fd data' in
              let inside : leb n (length data') ≡ true = ground (arith, most) in
              let left = length-drop n data' in
              let (os2, k, done, sent, last) = write_all-sent fuel os' fd (drop n data') (
                let some_ : n ≢ 0 = λ e. ground (arith, e, some_taken) in
                ground (arith, enough, left, most, some_)) in
              (
                os2,
                n + k,
                rw (some_taken, inside) done,
                sent
                    ∙ ap (λ bs. bs ++ take k (drop n data')) (s.takes os fd data')
                    ∙ append_assoc (s.sent os fd) (take n data') (take k (drop n data'))
                    ∙ ap (λ bs. s.sent os fd ++ bs) (take-take-drop n k data'),
                elim last [
                  | inl all_taken ↦ inl (omega (arith, all_taken, left, most))
                  | inr (os3, stopped) ↦ inr (
                    os3,
                    ap (λ bs. (c.write os3 fd bs).0) (sym (drop-drop_add n k data')) ∙ stopped,
                  )
                ],
              ))
      ]
