-- ===== src/Config/Bindings/Distinct.antt =====
-- The bindings of the servers that are kept.
use servoxide.Prelude.{
  ℕ, ◌≡◌, refl, ap, ◌∙◌, sym, Bool, true, false, ◌&&◌, ◌||◌, not, List, [], ◌∷◌, ◌++◌, arith,
  if◌then◌else◌, inl, inr, Bool-cases, append_assoc, append-nil,
}
use servoxide.Text.{Bytes, bytes_eq_iff}
use servoxide.Config.Types.{ServerConfig}
use servoxide.Config.Bindings.{
  Key, key_eq, contains, Check, names_of, check_key, check_names, check_ports, check_server,
  resolve,
}

-- The bindings of a server, and of several.
abbrev name_keys : Bytes → ℕ → List Bytes → List Key
name_keys host port [] = []
name_keys host port (n ∷ ns) = (host, (port, n)) ∷ name_keys host port ns

abbrev port_keys : Bytes → List Bytes → List ℕ → List Key
port_keys host names [] = []
port_keys host names (p ∷ ps) = name_keys host p names ++ port_keys host names ps

abbrev pub keys : ServerConfig → List Key
keys s = port_keys s.host_str (names_of s) s.ports

abbrev pub bindings : List ServerConfig → List Key
bindings [] = []
bindings (s ∷ ss) = keys s ++ bindings ss

-- No key is among those before it, nor among `seen`.
abbrev pub are_fresh : List Key → List Key → Bool
are_fresh seen [] = true
are_fresh seen (k ∷ ks) = not (contains seen k) && are_fresh (k ∷ seen) ks

-- The loops as one over the keys.
unfoldable pub check_keys : Check → List Key → Check
check_keys c [] = c
check_keys c (k ∷ ks) = check_keys (check_key c k) ks

check_keys-append :
    (c : Check) (xs ys : List Key) → check_keys c (xs ++ ys) ≡ check_keys (check_keys c xs) ys
unfolding check_keys
check_keys-append c [] ys = refl
check_keys-append c (x ∷ xs) ys = check_keys-append (check_key c x) xs ys

check_names_keys :
    (host : Bytes) (port : ℕ) (names : List Bytes) (c : Check)
    → check_names host port names c ≡ check_keys c (name_keys host port names)
unfolding check_names check_keys
check_names_keys host port [] c = refl
check_names_keys host port (n ∷ ns) c =
    check_names_keys host port ns (check_key c (host, (port, n)))

check_ports_keys :
    (host : Bytes) (names : List Bytes) (ports : List ℕ) (c : Check)
    → check_ports host names ports c ≡ check_keys c (port_keys host names ports)
unfolding check_ports check_keys
check_ports_keys host names [] c = refl
check_ports_keys host names (p ∷ ps) c =
    check_ports_keys host names ps (check_names host p names c)
    ∙ ap (λ z. check_keys z (port_keys host names ps)) (check_names_keys host p names c)
    ∙ sym (check_keys-append c (name_keys host p names) (port_keys host names ps))

key_eq_path : (j k : Key) → key_eq j k ≡ true → j ≡ k
unfolding key_eq
key_eq_path (h, (p, n)) (h', (p', n')) e = ground (arith, e, bytes_eq_iff h h', bytes_eq_iff n n')

check_key-conflict :
    (c : Check) (k : Key) → (check_key c k).conflict ≡ (c.conflict || contains c.seen k)
unfolding check_key
check_key-conflict c (h, (p, n)) = ground arith

pub check_key-seen :
    (c : Check) (k : Key)
    → (check_key c k).seen ≡ (if contains c.seen k then c.seen else k ∷ c.seen)
unfolding check_key
check_key-seen c (h, (p, n)) = ground arith

contains-check_key :
    (c : Check) (k j : Key) → contains (check_key c k).seen j ≡ (contains c.seen j || key_eq k j)
unfolding contains
contains-check_key c k j = elim (Bool-cases (contains c.seen k)) [
  | inl old ↦
      rw (check_key-seen c k, old)
        (elim (Bool-cases (key_eq k j)) [
          | inl same ↦ ground (arith, same, sym (ap (contains c.seen) (key_eq_path k j same)) ∙ old)
          | inr other ↦ ground (arith, other)
        ])
  | inr new ↦ rw (check_key-seen c k, new) (ground arith)
]

pub check_keys-conflict :
    (c : Check) (ks : List Key)
    → (check_keys c ks).conflict ≡ (c.conflict || not (are_fresh c.seen ks))
unfolding check_keys
check_keys-conflict c [] = ground arith
check_keys-conflict c (k ∷ ks) = elim (Bool-cases (contains c.seen k)) [
  | inl old ↦ ground (arith, check_keys-conflict (check_key c k) ks, check_key-conflict c k, old)
  | inr new ↦
      check_keys-conflict (check_key c k) ks
      ∙ rw (check_key-seen c k, check_key-conflict c k, new) (ground arith)
]

pub contains-check_keys :
    (c : Check) (ks : List Key) (j : Key)
    → contains (check_keys c ks).seen j ≡ (contains c.seen j || contains ks j)
unfolding check_keys contains
contains-check_keys c [] j = ground arith
contains-check_keys c (k ∷ ks) j =
    ground (arith, contains-check_keys (check_key c k) ks j, contains-check_key c k j)

-- Fewer keys seen leave no fewer fresh.
pub are_fresh_weaken :
    (big seen ys : List Key)
    → ((j : Key) → contains seen j ≡ true → contains big j ≡ true)
    → are_fresh big ys ≡ true
    → are_fresh seen ys ≡ true
unfolding contains
are_fresh_weaken big seen [] sub h = refl
are_fresh_weaken big seen (y ∷ ys) sub h =
    let rest =
      are_fresh_weaken (y ∷ big) (y ∷ seen) ys (λ j m. ground (arith, m, sub j))
        (ground (arith, h)) in
    ground (arith, h, rest, sub y)

-- Keys fresh after `seen`, then keys fresh after all of them.
are_fresh_join :
    (big seen xs ys : List Key)
    → ((j : Key) → contains seen j || contains xs j ≡ true → contains big j ≡ true)
    → are_fresh seen xs ≡ true
    → are_fresh big ys ≡ true
    → are_fresh seen (xs ++ ys) ≡ true
unfolding contains
are_fresh_join big seen [] ys sub h g =
    are_fresh_weaken big seen ys (λ j m. sub j (ground (arith, m))) g
are_fresh_join big seen (x ∷ xs) ys sub h g =
    let rest =
      are_fresh_join big (x ∷ seen) xs ys (λ j m. sub j (ground (arith, m))) (ground (arith, h))
        g in
    ground (arith, h, rest)

bindings-append :
    (ss : List ServerConfig) (s : ServerConfig) → bindings (ss ++ s ∷ []) ≡ bindings ss ++ keys s
bindings-append [] s = append-nil (keys s)
bindings-append (x ∷ ss) s =
    ap (λ z. keys x ++ z) (bindings-append ss s)
    ∙ sym (append_assoc (keys x) (bindings ss) (keys s))

contains-append :
    (xs ys : List Key) (j : Key) → contains (xs ++ ys) j ≡ (contains xs j || contains ys j)
unfolding contains
contains-append [] ys j = refl
contains-append (x ∷ xs) ys j = ground (arith, contains-append xs ys j)

abbrev pub check_start : List Key → List Bytes → Check
check_start seen errors = record { seen = seen; errors = errors; conflict = false }

pub check_server-keys :
    (seen : List Key) (errors : List Bytes) (s : ServerConfig)
    → check_server seen errors s ≡ check_keys (check_start seen errors) (keys s)
unfolding check_server
check_server-keys seen errors s = check_ports_keys s.host_str (names_of s) s.ports _

record IsKept (seen : List Key) (kept : List ServerConfig) : Type 0 where
  distinct : are_fresh [] (bindings kept) ≡ true
  all_seen : (j : Key) → contains (bindings kept) j ≡ true → contains seen j ≡ true

check_server-IsKept :
    (seen : List Key) (errors : List Bytes) (kept : List ServerConfig) (s : ServerConfig)
    → IsKept seen kept
    → let c = check_server seen errors s in
      IsKept c.seen (if c.conflict then kept else kept ++ s ∷ [])
unfolding contains
check_server-IsKept seen errors kept s i =
    rw (check_server-keys seen errors s)
      (go (check_keys (check_start seen errors) (keys s)).conflict refl)
  where
    go :
        (b : Bool)
        → (check_keys (check_start seen errors) (keys s)).conflict ≡ b
        → IsKept
            (check_keys (check_start seen errors) (keys s)).seen
            (if b then kept else kept ++ s ∷ [])
    go true e = record {
      distinct = i.distinct;
      all_seen = λ j m.
          ground (arith, contains-check_keys (check_start seen errors) (keys s) j, i.all_seen j m);
    }
    go false e =
        let fresh : are_fresh seen (keys s) ≡ true =
          ground (arith, check_keys-conflict (check_start seen errors) (keys s), e) in
        record {
          distinct = rw (bindings-append kept s) (
              are_fresh_join seen [] (bindings kept) (keys s) (λ j m. i.all_seen j m) i.distinct
                fresh);
          all_seen = λ j m. ground (
            arith,
            contains-check_keys (check_start seen errors) (keys s) j,
            ap (λ z. contains z j) (bindings-append kept s),
            m,
            contains-append (bindings kept) (keys s) j,
            i.all_seen j,
          );
        }

resolve-IsKept :
    (seen : List Key) (errors : List Bytes) (kept ss : List ServerConfig)
    → IsKept seen kept
    → are_fresh [] (bindings (resolve seen errors kept ss).1) ≡ true
unfolding resolve
resolve-IsKept seen errors kept [] i = i.distinct
resolve-IsKept seen errors kept (s ∷ ss) i =
    let c = check_server seen errors s in
    resolve-IsKept c.seen c.errors (if c.conflict then kept else kept ++ s ∷ []) ss
      (check_server-IsKept seen errors kept s i)

-- Among the servers that the check for duplicates keeps, no binding of host, port and name occurs
-- twice, neither of two servers nor of one.
pub resolve-distinct :
    (errors : List Bytes) (ss : List ServerConfig)
    → are_fresh [] (bindings (resolve [] errors [] ss).1) ≡ true
resolve-distinct errors ss =
    resolve-IsKept [] errors [] ss (record { distinct = refl; all_seen = λ j m. m })
