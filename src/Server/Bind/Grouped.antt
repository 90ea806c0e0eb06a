-- ===== src/Server/Bind/Grouped.antt =====
-- `addresses` and `index_of` in `bind` of server/mod.rs.
use servoxide.Prelude.{
  ℕ, ◌≡◌, ◌≢◌, refl, sym, ap, ◌∙◌, subst, true, false, List, [], ◌∷◌, ◌++◌, Option, none, some,
  some-inj, arith, ◌⊎◌, inl, inr, Bool-cases, ◌==◌, ==_iff, All, All-append_one, get_elem?, length,
  get_elem?-append_length, get_elem?-append_one, get_elem?-append_left, returns,
}
use servoxide.Dict.{Dict, lookup, insert, lookup-insert, beq_self}
use servoxide.Config.Types.{ServerConfig}
use servoxide.Server.Select.{Address}
use servoxide.Server.Select.Laws.{IsIndex}
use servoxide.Server.Bind.{
  AddrKey, addr_key_beq, addr_key_beq_iff, addr_key_eq, new_address, Groups, entry_of, group_port,
}
use servoxide.Server.Ready.{IsAddress}
use servoxide.Server.Bind.Groups.{
  Pairs, of_key, of_key-append_same, of_key-append_other, key_of, AreGroups, pushed,
  push_server_lem,
}

-- The pair of a server and a port joins the group of its address.
module _ (servers : List ServerConfig) (ps : Pairs) (as' bs : List Address)
    (index_of : Dict AddrKey ℕ) (idx si : ℕ) (a : Address) (inside : IsIndex servers si)
    (g : AreGroups servers ps (as', index_of)) (here : get_elem? as' idx ≡ some a)
    (here' : get_elem? bs idx ≡ some (pushed a si))
    (same : (j : ℕ) → j ≢ idx → get_elem? bs j ≡ get_elem? as' j) where
  at_cases :
      (j : ℕ) (b : Address)
      → get_elem? bs j ≡ some b
      → ((j ≡ idx) × (pushed a si ≡ b)) ⊎ ((j ≢ idx) × (get_elem? as' j ≡ some b))
  at_cases j b h = elim (Bool-cases (j == idx)) [
    | inl equal ↦
        (let e = (==_iff j idx).0 equal in
          inl (e, some-inj (sym here' ∙ ap (get_elem? bs) (sym e) ∙ h)))
    | inr differs ↦
        (let ne : j ≢ idx = λ e. ground (arith, e, differs) in inr (ne, sym (same j ne) ∙ h))
  ]

  -- Another address has another key.
  other_key :
      (j : ℕ) (b : Address)
      → j ≢ idx
      → get_elem? as' j ≡ some b
      → addr_key_beq (key_of a) (key_of b) ≡ false
  other_key j b ne h = elim (Bool-cases (addr_key_beq (key_of a) (key_of b))) [
    | inr differs ↦ differs
    | inl equal ↦ absurd (
        ne (
          some-inj (
            sym (g.indexed j b h)
            ∙ ap (λ k. lookup k index_of) (sym ((addr_key_beq_iff (key_of a) (key_of b)).0 equal))
            ∙ g.indexed idx a here)))
  ]

  push-AreGroups : AreGroups servers (ps ++ (key_of a, si) ∷ []) (bs, index_of)
  push-AreGroups = record {
    indexed = λ j b h. elim (at_cases j b h) [
      | inl (e, e') ↦
          subst (λ x. lookup (key_of x) index_of ≡ some j) e'
            (g.indexed idx a here ∙ ap some (sym e))
      | inr (ne, old) ↦ g.indexed j b old
    ];
    held = λ j b h. elim (at_cases j b h) [
      | inl (e, e') ↦
          subst (λ x. x.servers ≡ of_key (key_of x) (ps ++ (key_of a, si) ∷ [])) e'
            (ap (λ l. l ++ si ∷ []) (g.held idx a here) ∙ sym (of_key-append_same (key_of a) ps si))
      | inr (ne, old) ↦
          g.held j b old
          ∙ sym (of_key-append_other (key_of a) (key_of b) ps si (other_key j b ne old))
    ];
    in_bounds = λ j b h. elim (at_cases j b h) [
      | inl (e, e') ↦
          subst (λ x. All (IsIndex servers) x.servers) e'
            (All-append_one (IsIndex servers) a.servers si (g.in_bounds idx a here) inside)
      | inr (ne, old) ↦ g.in_bounds j b old
    ];
    found = λ k j h.
        let (b, at, e) = g.found k j h in
        elim (Bool-cases (j == idx)) [
          | inl equal ↦
              (let j_is = (==_iff j idx).0 equal in
                (
                  pushed a si,
                  ap (get_elem? bs) j_is ∙ here',
                  ap key_of (some-inj (sym here ∙ ap (get_elem? as') (sym j_is) ∙ at)) ∙ e,
                ))
          | inr differs ↦ (b, same j (λ e. ground (arith, e, differs)) ∙ at, e)
        ];
    missing = λ k h.
        of_key-append_other (key_of a) k ps si (elim (Bool-cases (addr_key_beq (key_of a) k)) [
          | inr differs ↦ differs
          | inl equal ↦ absurd (
              cc (
                g.indexed idx a here,
                h,
                ap (λ k. lookup k index_of) ((addr_key_beq_iff (key_of a) k).0 equal),
              ))
        ])
        ∙ g.missing k h;
  }

-- The address of the key is there, or comes last.
entry_of-AreGroups :
    (servers : List ServerConfig) (ps : Pairs) (as' : List Address) (index_of : Dict AddrKey ℕ)
    (host : List ℕ) (port : ℕ) (o : Option ℕ)
    → lookup (host, port) index_of ≡ o
    → AreGroups servers ps (as', index_of)
    → let ((as1, index_of1), idx) = entry_of (as', index_of) host port o in
      AreGroups servers ps (as1, index_of1)
      × ((a : Address) × (get_elem? as1 idx ≡ some a) × (key_of a ≡ (host, port)))
      × ((j : ℕ) (a : Address) → j ≢ idx → get_elem? as1 j ≡ some a → get_elem? as' j ≡ some a)
unfolding entry_of
entry_of-AreGroups servers ps as' index_of host port (some idx) e g =
    (g, g.found (host, port) idx e, λ j a ne h. h)
entry_of-AreGroups servers ps as' index_of host port none e g =
    let k : AddrKey = (host, port) in
    let new = new_address host port in
    let n = length as' in
    (
      record {
        indexed = λ j a h. elim (get_elem?-append_one as' new j a h) [
          | inl old ↦ kept (key_of a) (unknown (key_of a) j (g.indexed j a old)) ∙ g.indexed j a old
          | inr (last, same) ↦ rw same (inserted k (beq_self k) ∙ ap some (sym last))
        ];
        held = λ j a h. elim (get_elem?-append_one as' new j a h) [
          | inl old ↦ g.held j a old
          | inr (last, same) ↦ rw same (sym (g.missing k e))
        ];
        in_bounds = λ j a h. elim (get_elem?-append_one as' new j a h) [
          | inl old ↦ g.in_bounds j a old
          | inr (last, same) ↦ rw same tt
        ];
        found = λ l j h. elim (Bool-cases (addr_key_beq k l)) [
          | inl equal ↦ (
            new,
            ap (get_elem? (as' ++ new ∷ [])) (some-inj (sym h ∙ inserted l equal))
                ∙ get_elem?-append_length as' new [],
            (addr_key_beq_iff k l).0 equal,
          )
          | inr differs ↦
              (let (a, at, same) = g.found l j (sym (kept l differs) ∙ h) in
                (a, get_elem?-append_left as' (new ∷ []) j a at, same))
        ];
        missing = λ l h. elim (Bool-cases (addr_key_beq k l)) [
          | inl equal ↦ absurd (cc (h, inserted l equal))
          | inr differs ↦ g.missing l (sym (kept l differs) ∙ h)
        ];
      },
      (new, get_elem?-append_length as' new [], refl),
      λ j a ne h. elim (get_elem?-append_one as' new j a h) [
        | inl old ↦ old
        | inr (last, same) ↦ absurd (ne last)
      ],
    )
  where
    inserted :
        (l : AddrKey)
        → addr_key_beq (host, port) l ≡ true
        → lookup l (insert (host, port) (length as') index_of) ≡ some (length as')
    inserted l equal = rw (lookup-insert (host, port) l (length as') index_of, equal) refl

    kept :
        (l : AddrKey)
        → addr_key_beq (host, port) l ≡ false
        → lookup l (insert (host, port) (length as') index_of) ≡ lookup l index_of
    kept l differs = rw (lookup-insert (host, port) l (length as') index_of, differs) refl

    unknown :
        (l : AddrKey) (j : ℕ) → lookup l index_of ≡ some j → addr_key_beq (host, port) l ≡ false
    unknown l j at = elim (Bool-cases (addr_key_beq (host, port) l)) [
      | inr differs ↦ differs
      | inl equal ↦
          absurd
            (cc (e, at, ap (λ k. lookup k index_of) ((addr_key_beq_iff (host, port) l).0 equal)))
    ]

-- The groups are as they should be, and none is empty.
pub record IsGrouping (servers : List ServerConfig) (ps : Pairs) (g : Groups) : Type 0 where
  pub groups : AreGroups servers ps g
  pub addresses : (j : ℕ) (a : Address) → get_elem? g.0 j ≡ some a → IsAddress servers a

pushed-IsAddress :
    (servers : List ServerConfig) (a : Address) (si : ℕ)
    → All (IsIndex servers) (a.servers ++ si ∷ [])
    → IsAddress servers (pushed a si)
pushed-IsAddress servers a si all = go a.servers refl
  where
    go : (sis : List ℕ) → a.servers ≡ sis → IsAddress servers (pushed a si)
    go [] e = record { default = si; others = []; servers_are = rw e refl; in_bounds = all }
    go (d ∷ ds) e = record {
      default = d;
      others = ds ++ si ∷ [];
      servers_are = rw e refl;
      in_bounds = all;
    }

pub group_port-IsGrouping :
    (servers : List ServerConfig) (ps : Pairs) (g : Groups) (si : ℕ) (host : List ℕ) (port : ℕ)
    → IsIndex servers si
    → IsGrouping servers ps g
    → (g' : Groups) × (group_port g si host port ≡ returns g')
      × IsGrouping servers (ps ++ ((host, port), si) ∷ []) g'
unfolding group_port
group_port-IsGrouping servers ps (as', index_of) si host port inside i =
    let ((as1, index_of1), idx) =
      entry_of (as', index_of) host port (lookup (host, port) index_of) in
    let (g1, (a, at, key), old) =
      entry_of-AreGroups servers ps as' index_of host port (lookup (host, port) index_of) refl
        i.groups in
    let (bs, done, here, same) = push_server_lem as1 idx si a at in
    let g2 = push-AreGroups servers ps as1 bs index_of1 idx si a inside g1 at here same in
    (
      (bs, index_of1),
      rw done refl,
      record {
        groups = subst (λ k. AreGroups servers (ps ++ (k, si) ∷ []) (bs, index_of1)) key g2;
        addresses = λ j b h.
            elim (at_cases servers ps as1 bs index_of1 idx si a inside g1 at here same j b h) [
              | inl (e, e') ↦ subst (IsAddress servers) e' (
                  pushed-IsAddress servers a si
                    (All-append_one (IsIndex servers) a.servers si (g1.in_bounds idx a at) inside))
              | inr (ne, before) ↦ i.addresses j b (old j b ne before)
            ];
      },
    )
