-- ===== src/Http/Request/Head/Laws.antt =====
-- What an accepted head is, and that it depends on its own bytes only.
use servoxide.Prelude.{
  some-inj, ℕ, ◌+◌, ◌≡◌, ◌≤◌, ◌≢◌, refl, sym, ap, ◌∙◌, subst, ◌↔◌, inl, inr, true, false, ◌||◌,
  List, [], ◌∷◌, ◌++◌, Option, none, some, arith, length, take, All, is_empty, any, ◌==◌, and_then,
  Option-cases, Bool-cases, take-append_le, option_map,
}
use servoxide.Text.{
  Bytes, codes, starts_with, to_ascii_lowercase, trim, from_utf8, split_crlf, split, split_once,
}
use servoxide.Dict.{Dict, insert, text_eq}
use servoxide.Http.Request.Types.{RequestHead, HeadStatus}
use servoxide.Http.Request.Search.{crlf2, find_from}
use servoxide.Http.Request.Search.Laws.{find_from-index_of, index_of, index_of-append}
use servoxide.Http.Request.Search.Crlf.{find_from_bounds}
use servoxide.Http.Request.Head.{
  parse_head, parse_text, parse_lines, parse_request_line, parse_headers, three_parts, add_header,
  head_of, or_bad, RequestLine, max_head_bytes,
}

-- The search for the blank line is not moved by what follows it.
find_from-append :
    (buf more : Bytes) (e : ℕ)
    → find_from buf 0 crlf2 ≡ some e
    → find_from (buf ++ more) 0 crlf2 ≡ some e
find_from-append buf more e h =
    let spec = find_from-index_of buf crlf2 0 (omega arith) (omega arith) in
    let spec' = find_from-index_of (buf ++ more) crlf2 0 (omega arith) (omega arith) in
    elim (Option-cases (index_of crlf2 buf)) [
      | inl missing ↦ absurd (ground arith)
      | inr (i, here) ↦
          spec'
          ∙ ap (option_map (λ k. 0 + k)) (index_of-append crlf2 buf more i here ∙ sym here)
          ∙ sym spec
          ∙ h
    ]

-- Once the blank line has arrived, whatever bytes arrive later change neither the head nor the
-- error.
pub parse_head-append :
    (buf more : Bytes) (e : ℕ)
    → find_from buf 0 crlf2 ≡ some e
    → parse_head (buf ++ more) ≡ parse_head buf
unfolding parse_head
parse_head-append buf more e h =
    let bounds = find_from_bounds buf crlf2 0 e (omega arith) (omega arith) h in
    rw (
      find_from-append buf more e h,
      h,
      parse_head,
      take-append_le e buf more (omega (arith, bounds)),
    )

-- A field name: not empty, with no space and no tab.
abbrev pub IsName : Bytes → Type 0
IsName name = (name ≢ []) × (any (λ c. c == b' ' || c == b'\t') name ≡ false)

-- The key of an accepted header is such a name in lower case.
abbrev pub IsKey : Bytes → Type 0
IsKey key = (name : Bytes) × IsName name × (key ≡ to_ascii_lowercase name)

-- What is so of every accepted head.
pub record IsHead (buf : Bytes) (h : RequestHead) : Type 0 where
  pub method_filled : h.method ≢ []
  pub version_is : starts_with (codes "HTTP/") h.version ≡ true
  pub keys : All (λ (p : Bytes × Bytes). IsKey p.0) h.headers
  pub long_enough : 4 ≤ h.head_len
  pub in_bounds : h.head_len ≤ length buf

insert-IsKey :
    (k v : Bytes) (m : Dict Bytes Bytes)
    → IsKey k
    → All (λ (p : Bytes × Bytes). IsKey p.0) m
    → All (λ (p : Bytes × Bytes). IsKey p.0) (insert k v m)
unfolding insert
insert-IsKey k v [] h all = (h, tt)
insert-IsKey k v ((j, w) ∷ m) h (here, all) = ground (arith, insert-IsKey k v m h all)

and_then-eq-some {ℓ κ} :
    {A : Type ℓ} {B : Type κ} (o : Option A) (f : A → Option B) {b : B}
    → and_then o f ≡ some b
    → (a : A) × (o ≡ some a) × (f a ≡ some b)
and_then-eq-some none f h = cc
and_then-eq-some (some a) f h = (a, refl, h)

is_empty-ne-nil : (s : Bytes) → is_empty s ≡ false → s ≢ []
is_empty-ne-nil [] h e = cc
is_empty-ne-nil (x ∷ s) h e = cc

add_header-IsKey :
    (m m' : Dict Bytes Bytes) (p : Bytes × Bytes)
    → All (λ (p : Bytes × Bytes). IsKey p.0) m
    → add_header m p ≡ some m'
    → All (λ (p : Bytes × Bytes). IsKey p.0) m'
unfolding add_header
add_header-IsKey m m' (name, value) all h =
    elim (Bool-cases (is_empty name || any (λ c. c == b' ' || c == b'\t') name)) [
      | inl bad ↦ cc (rw (bad, add_header) at h)
      | inr good ↦
          let key : IsKey (to_ascii_lowercase name) =
            (name, (is_empty-ne-nil name (ground arith), ground arith), refl) in
          subst (All (λ (p : Bytes × Bytes). IsKey p.0)) (some-inj (rw (good, add_header) at h))
            (insert-IsKey (to_ascii_lowercase name) (trim value) m key all)
    ]

parse_headers-IsKey :
    (lines : List Bytes) (m m' : Dict Bytes Bytes)
    → All (λ (p : Bytes × Bytes). IsKey p.0) m
    → parse_headers m lines ≡ some m'
    → All (λ (p : Bytes × Bytes). IsKey p.0) m'
unfolding parse_headers
parse_headers-IsKey [] m m' all h = subst (All (λ (p : Bytes × Bytes). IsKey p.0)) (some-inj h) all
parse_headers-IsKey (line ∷ lines) m m' all h =
    let (m1, e1, e2) = and_then-eq-some _ _ h in
    let (p, e3, e4) = and_then-eq-some (split_once b':' line) (add_header m) e1 in
    parse_headers-IsKey lines m1 m' (add_header-IsKey m m1 p all e4) e2

-- What an accepted request line is.
abbrev IsRequestLine : RequestLine → Type 0
IsRequestLine r = (r.method ≢ []) × (starts_with (codes "HTTP/") r.version ≡ true)

three_parts-ne-nil :
    (parts : List Bytes) (r : RequestLine) → three_parts parts ≡ some r → r.method ≢ []
unfolding three_parts
three_parts-ne-nil (m ∷ t ∷ v ∷ []) r h = elim (Bool-cases (is_empty m)) [
  | inl bad ↦ absurd (ground arith)
  | inr good ↦ ground (arith, is_empty-ne-nil m good)
]
three_parts-ne-nil _ r h = cc

parse_request_line-IsRequestLine :
    (line : Bytes) (r : RequestLine) → parse_request_line line ≡ some r → IsRequestLine r
unfolding parse_request_line
parse_request_line-IsRequestLine line r h =
    let (r', e1, e2) = and_then-eq-some (three_parts (split b' ' line)) _ h in
    elim (Bool-cases (starts_with (codes "HTTP/") r'.version)) [
      | inl good ↦
          let same : r' ≡ r = some-inj (rw good at e2) in
          subst IsRequestLine same (three_parts-ne-nil (split b' ' line) r' e1, good)
      | inr bad ↦ cc (rw bad at e2)
    ]

parse_lines-IsHead :
    (buf : Bytes) (head_len : ℕ) (lines : List Bytes) (h : RequestHead)
    → 4 ≤ head_len
    → head_len ≤ length buf
    → parse_lines head_len lines ≡ some h
    → IsHead buf h
unfolding parse_lines head_of
parse_lines-IsHead buf n [] h long room e = cc
parse_lines-IsHead buf n (line ∷ lines) h long room e =
    let (r, e1, e2) = and_then-eq-some (parse_request_line line) _ e in
    let (headers, e3, e4) = and_then-eq-some (parse_headers [] lines) _ e2 in
    let ok_line = parse_request_line-IsRequestLine line r e1 in
    subst (IsHead buf) (some-inj e4) (record {
      method_filled = ok_line.0;
      version_is = ok_line.1;
      keys = parse_headers-IsKey lines [] headers tt e3;
      long_enough = long;
      in_bounds = room;
    })

or_bad-eq-ok : (o : Option RequestHead) (h : RequestHead) → or_bad o ≡ HeadStatus.ok h → o ≡ some h
unfolding or_bad
or_bad-eq-ok none h e = cc
or_bad-eq-ok (some x) h e = cc

-- An accepted head lies in the buffer, its method is not empty, its version begins with "HTTP/",
-- and each key is the lower case of a field name that is not empty and has no space and no tab.
pub parse_head-IsHead :
    (buf : Bytes) (h : RequestHead) → parse_head buf ≡ HeadStatus.ok h → IsHead buf h
unfolding parse_head parse_text
parse_head-IsHead buf h e = elim (Option-cases (find_from buf 0 crlf2)) [
  | inl missing ↦ absurd (ground arith)
  | inr (i, found) ↦
      let bounds = find_from_bounds buf crlf2 0 i (omega arith) (omega arith) found in
      let good = or_bad-eq-ok _ h (rw (found, parse_head) at e) in
      let (text, e1, e2) = and_then-eq-some (from_utf8 (take i buf)) _ good in
      parse_lines-IsHead buf (i + 4) (split_crlf text) h (omega arith) (omega (arith, bounds)) e2
]

parse_text-ne-need_more : (n : ℕ) (bytes : Bytes) → parse_text n bytes ≢ HeadStatus.need_more
unfolding parse_text
parse_text-ne-need_more n bytes =
    go (and_then (from_utf8 bytes) λ text. parse_lines n (split_crlf text))
  where
    go : (o : Option RequestHead) → or_bad o ≢ HeadStatus.need_more
    go none = unfold or_bad in λ e. cc
    go (some h) = unfold or_bad in λ e. cc

-- The head parser asks for more bytes exactly while no blank line stands anywhere in the buffer
-- and the buffer is within the limit on heads.
pub parse_head-need_more :
    (buf : Bytes)
    → (parse_head buf ≡ HeadStatus.need_more)
      ↔ ((index_of crlf2 buf ≡ none) × (length buf ≤ max_head_bytes))
unfolding parse_head
parse_head-need_more buf =
    let spec = find_from-index_of buf crlf2 0 (omega arith) (omega arith) in
    elim (Option-cases (index_of crlf2 buf)) [
      | inl missing ↦
          let gone : find_from buf 0 crlf2 ≡ none = spec ∙ ap (option_map (λ k. 0 + k)) missing in
          rw (gone, missing, parse_head) (ground arith)
      | inr (i, here) ↦
          let found : find_from buf 0 crlf2 ≡ some (0 + i) =
            spec ∙ ap (option_map (λ k. 0 + k)) here in
          (
            λ e. absurd (parse_text-ne-need_more _ _ (rw (found, parse_head) at e)),
            λ r. cc (sym here ∙ r.0),
          )
    ]
