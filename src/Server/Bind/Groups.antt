-- ===== src/Server/Bind/Groups.antt =====
-- The addresses that `bind` of server/mod.rs groups the servers by.
use servoxide.Prelude.{
  ℕ, zero, suc, ◌≡◌, ◌≢◌, refl, ap, ◌∙◌, false, List, [], ◌∷◌, ◌++◌, append-nil, none, some,
  some-inj, inl, inr, Bool-cases, if◌then◌else◌, All, get_elem?, returns,
}
use servoxide.Dict.{lookup, beq_self}
use servoxide.Config.Types.{ServerConfig}
use servoxide.Server.Select.{Address}
use servoxide.Server.Select.Laws.{IsIndex}
use servoxide.Server.Bind.{AddrKey, addr_key_beq, addr_key_eq, push_server, Groups}

-- What `port` directives say: the key of a socket, and the index of the server that names it.
abbrev pub Pairs : Type 0
Pairs = List (AddrKey × ℕ)

-- The servers of a socket, in the order of the configuration.
unfoldable pub of_key : AddrKey → Pairs → List ℕ
of_key k [] = []
of_key k ((j, si) ∷ ps) = let rest = of_key k ps in if addr_key_beq j k then si ∷ rest else rest

abbrev pub key_of : Address → AddrKey
key_of a = (a.host, a.port)

of_key-append : (k : AddrKey) (ps qs : Pairs) → of_key k (ps ++ qs) ≡ of_key k ps ++ of_key k qs
unfolding of_key
of_key-append k [] qs = refl
of_key-append k ((j, si) ∷ ps) qs = elim (Bool-cases (addr_key_beq j k)) [
  | inl same ↦ rw (same, of_key-append k ps qs) refl
  | inr other ↦ rw (other, of_key-append k ps qs) refl
]

pub of_key-append_same :
    (k : AddrKey) (ps : Pairs) (si : ℕ) → of_key k (ps ++ (k, si) ∷ []) ≡ of_key k ps ++ si ∷ []
unfolding of_key
of_key-append_same k ps si = of_key-append k ps ((k, si) ∷ []) ∙ rw (beq_self k) refl

pub of_key-append_other :
    (j k : AddrKey) (ps : Pairs) (si : ℕ)
    → addr_key_beq j k ≡ false
    → of_key k (ps ++ (j, si) ∷ []) ≡ of_key k ps
unfolding of_key
of_key-append_other j k ps si other =
    of_key-append k ps ((j, si) ∷ []) ∙ rw other (append-nil (of_key k ps))

-- The groups hold the pairs that have been read.
pub record AreGroups (servers : List ServerConfig) (ps : Pairs) (g : Groups) : Type 0 where
  pub indexed : (j : ℕ) (a : Address) → get_elem? g.0 j ≡ some a → lookup (key_of a) g.1 ≡ some j
  pub held : (j : ℕ) (a : Address) → get_elem? g.0 j ≡ some a → a.servers ≡ of_key (key_of a) ps
  pub in_bounds : (j : ℕ) (a : Address) → get_elem? g.0 j ≡ some a → All (IsIndex servers) a.servers
  pub found :
      (k : AddrKey) (j : ℕ)
      → lookup k g.1 ≡ some j
      → (a : Address) × (get_elem? g.0 j ≡ some a) × (key_of a ≡ k)
  pub missing : (k : AddrKey) → lookup k g.1 ≡ none → of_key k ps ≡ []

abbrev pub pushed : Address → ℕ → Address
pushed a si = record a { servers = a.servers ++ si ∷ [] }

-- A push changes the address it names, and no other.
pub push_server_lem :
    (as' : List Address) (idx si : ℕ) (a : Address)
    → get_elem? as' idx ≡ some a
    → (bs : List Address) × (push_server as' idx si ≡ returns bs)
      × (get_elem? bs idx ≡ some (pushed a si))
      × ((j : ℕ) → j ≢ idx → get_elem? bs j ≡ get_elem? as' j)
unfolding push_server
push_server_lem [] idx si a h = absurd (cc)
push_server_lem (b ∷ as') zero si a h =
    (pushed b si ∷ as', refl, ap (λ x. some (pushed x si)) (some-inj h), other)
  where
    other : (j : ℕ) → j ≢ 0 → get_elem? (pushed b si ∷ as') j ≡ get_elem? (b ∷ as') j
    other zero ne = absurd (ne refl)
    other (suc j) ne = refl
push_server_lem (b ∷ as') (suc idx) si a h =
    let (bs, done, here, same) = push_server_lem as' idx si a h in
    (b ∷ bs, rw done refl, here, other bs same)
  where
    other :
        (bs : List Address)
        → ((j : ℕ) → j ≢ idx → get_elem? bs j ≡ get_elem? as' j)
        → (j : ℕ) → j ≢ suc idx
        → get_elem? (b ∷ bs) j ≡ get_elem? (b ∷ as') j
    other bs same zero ne = refl
    other bs same (suc j) ne = same j (λ e. ne (ap suc e))
