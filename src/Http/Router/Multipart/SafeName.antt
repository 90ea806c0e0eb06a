-- ===== src/Http/Router/Multipart/SafeName.antt =====
-- The name that an upload is saved under is a plain file name.
use servoxide.Prelude.{
  ℕ, ◌≡◌, ◌≢◌, refl, inl, inr, false, ◌||◌, [], ◌∷◌, arith, any, ◌==◌, Bool-cases,
}
use servoxide.Text.{Bytes, codes, bytes_eq, bytes_eq_iff, trim}
use servoxide.Text.Trim.Laws.{any-trim}
use servoxide.Http.Router.Multipart.{base_name, sanitize_filename}

-- A file name that stays in its directory.
pub record IsPlain (name : Bytes) : Type 0 where
  pub no_separator : any (λ c. c == b'/' || c == b'\\') name ≡ false
  pub not_dot : name ≢ codes "."
  pub not_dot_dot : name ≢ codes ".."

base_name-no_separator : (s : Bytes) → any (λ c. c == b'/' || c == b'\\') (base_name s) ≡ false
unfolding base_name
base_name-no_separator [] = refl
base_name-no_separator (x ∷ s) = elim (Bool-cases (any (λ c. c == b'/' || c == b'\\') (x ∷ s))) [
  | inl has ↦ rw has (base_name-no_separator s)
  | inr clean ↦ rw clean clean
]

nil_ne : (x : ℕ) (xs : Bytes) → [] ≢ x ∷ xs
nil_ne x xs e = ground (arith, e)

nothing : IsPlain []
unfolding codes
nothing = record {
  no_separator = refl;
  not_dot = λ e. nil_ne b'.' [] e;
  not_dot_dot = λ e. nil_ne b'.' (b'.' ∷ []) e;
}

clean-IsPlain :
    (base : Bytes)
    → any (λ c. c == b'/' || c == b'\\') base ≡ false
    → bytes_eq base (codes ".") || bytes_eq base (codes "..") ≡ false
    → IsPlain base
clean-IsPlain base clean plain = record {
  no_separator = clean;
  not_dot = λ e. ground (arith, plain, (bytes_eq_iff base (codes ".")).1 e);
  not_dot_dot = λ e. ground (arith, plain, (bytes_eq_iff base (codes "..")).1 e);
}

-- Whatever file name a client sends, what is left of it has no slash and no backslash, and is
-- neither "." nor "..".
pub sanitize_filename-IsPlain : (s : Bytes) → IsPlain (sanitize_filename s)
unfolding sanitize_filename
sanitize_filename-IsPlain s =
    let base = trim (base_name s) in
    elim (Bool-cases (bytes_eq base (codes ".") || bytes_eq base (codes ".."))) [
      | inl dots ↦ rw dots nothing
      | inr plain ↦
          rw plain (clean-IsPlain base (any-trim _ (base_name s) (base_name-no_separator s)) plain)
    ]
