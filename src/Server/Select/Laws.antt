-- ===== src/Server/Select/Laws.antt =====
-- Which server block answers (server/mod.rs).
use servoxide.Prelude.{
  subst, Option, some, none, ℕ, ◌≡◌, ◌⊎◌, refl, ap, ◌∙◌, Bool, true, false, List, [], ◌∷◌, ◌++◌,
  none, some, All, get_elem?, inl, inr, Bool-cases, if◌then◌else◌, returns,
}
use servoxide.Text.{Bytes, split}
use servoxide.Config.Types.{ServerConfig}
use servoxide.Server.Select.{
  Address, has_name, find_named, host_name, default_server, or_default, select_server,
}

-- The server at an index has the name, or has it not.
abbrev pub IsNamed : List ServerConfig → Bytes → Bool → ℕ → Type 0
IsNamed servers name b i =
    (s : ServerConfig) × (get_elem? servers i ≡ some s) × (has_name name s ≡ b)

abbrev pub IsIndex : List ServerConfig → ℕ → Type 0
IsIndex servers i = (s : ServerConfig) × (get_elem? servers i ≡ some s)

-- The first index whose server has the name.
pub record IsFirst (servers : List ServerConfig) (name : Bytes) (sis : List ℕ) (i : ℕ)
    : Type 0 where
  pub before : List ℕ
  pub after : List ℕ
  pub splits : sis ≡ before ++ i ∷ after
  pub named : IsNamed servers name true i
  pub first : All (IsNamed servers name false) before

find_named_cons :
    (servers : List ServerConfig) (name : Bytes) (i : ℕ) (sis : List ℕ) (s : ServerConfig)
    (b : Bool)
    → get_elem? servers i ≡ some s
    → has_name name s ≡ b
    → find_named servers name (i ∷ sis)
      ≡ (if b then returns (some i) else find_named servers name sis)
unfolding find_named
find_named_cons servers name i sis s b at named = rw (at, named, find_named) refl

find_named_lem :
    (servers : List ServerConfig) (name : Bytes) (sis : List ℕ)
    → All (IsIndex servers) sis
    → ((find_named servers name sis ≡ returns none) × All (IsNamed servers name false) sis)
      ⊎ ((i : ℕ) × (find_named servers name sis ≡ returns (some i)) × IsFirst servers name sis i)
unfolding find_named
find_named_lem servers name [] all = inl (refl, tt)
find_named_lem servers name (i ∷ sis) ((s, at), all) = elim (Bool-cases (has_name name s)) [
  | inl here ↦ inr (
    i,
    find_named_cons servers name i sis s true at here,
    record { before = []; after = sis; splits = refl; named = (s, at, here); first = tt },
  )
  | inr there ↦ elim (find_named_lem servers name sis all) [
    | inl (gone, none_named) ↦
        inl
          (find_named_cons servers name i sis s false at there ∙ gone, ((s, at, there), none_named))
    | inr (j, found, f) ↦ inr (
      j,
      find_named_cons servers name i sis s false at there ∙ found,
      record {
        before = i ∷ f.before;
        after = f.after;
        splits = ap (λ z. i ∷ z) f.splits;
        named = f.named;
        first = ((s, at, there), f.first);
      },
    )
  ]
]

pub select_server-IsFirst :
    (servers : List ServerConfig) (addr : Address) (h : Bytes) (d : ℕ) (ds : List ℕ)
    → addr.servers ≡ d ∷ ds
    → All (IsIndex servers) addr.servers
    → let name = host_name (split b':' h) in
      ((select_server servers addr (some h) ≡ returns d)
        × All (IsNamed servers name false) addr.servers)
      ⊎ ((i : ℕ) × (select_server servers addr (some h) ≡ returns i)
          × IsFirst servers name addr.servers i)
unfolding select_server or_default default_server
select_server-IsFirst servers addr h d ds e all =
    elim (find_named_lem servers (host_name (split b':' h)) addr.servers all) [
      | inl (gone, none_named) ↦
          inl (ap (or_default addr.servers) gone ∙ ap default_server e, none_named)
      | inr (i, found, f) ↦ inr (i, ap (or_default addr.servers) found, f)
    ]

-- A server block is always found, and is one of the configuration.
pub select_server-IsIndex :
    (servers : List ServerConfig) (addr : Address) (h : Option Bytes) (d : ℕ) (ds : List ℕ)
    → addr.servers ≡ d ∷ ds
    → All (IsIndex servers) addr.servers
    → (i : ℕ) × (select_server servers addr h ≡ returns i) × IsIndex servers i
unfolding select_server default_server
select_server-IsIndex servers addr none d ds e all =
    (d, ap default_server e, (subst (All (IsIndex servers)) e all).0)
select_server-IsIndex servers addr (some h) d ds e all =
    elim (select_server-IsFirst servers addr h d ds e all) [
      | inl (found, unnamed) ↦ (d, found, (subst (All (IsIndex servers)) e all).0)
      | inr (i, found, f) ↦ (i, found, (f.named.0, f.named.1))
    ]
