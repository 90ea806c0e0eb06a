-- ===== src/Config/Parser/Sound.antt =====
-- The values that the directives of config/parser.rs put into a server.
use servoxide.Prelude.{
  ℕ, ◌-◌, ◌≡◌, ◌<◌, refl, subst, and_then-some, option_map-some, ◌||◌, List, [], ◌∷◌, ◌++◌, some,
  arith, inl, inr, Bool-cases, Option-cases, All, All-append_one, length, take, last?, ltb,
  is_empty, u16_mod, usize_mod,
}
use servoxide.Text.{Bytes, split, bytes_eq, codes, parse_u16}
use servoxide.Text.Digits.{from_str_radix-lt}
use servoxide.Dict.{Dict, Eq, insert, nat_eq}
use servoxide.Config.Types.{ServerConfig, Route}
use servoxide.Config.Size.{SizeResult, parse_size}
use servoxide.Config.Size.Exact.{parse_size-IsSize}
use servoxide.Config.Ipv4.{octet, octets, ipv4_from_str}
use servoxide.Config.Parser.{Parser, error, quoted}
use servoxide.Config.Parser.Directive.{Directive}
use servoxide.Config.Parser.Progress.{remaining}
use servoxide.Config.Parser.Server.{
  host_directive, push_ports, port_directive, server_name_directive, insert_pages,
  error_page_directive, size_directive, server_directive,
}

abbrev pub IsHost : List ℕ → Type 0
IsHost host = (length host ≡ 4) × All (λ (o : ℕ). o < 256) host

abbrev pub IsRoute : Route → Type 0
IsRoute r = (code : ℕ) (url : Bytes) → r.redirect ≡ some (code, url) → code < u16_mod

pub record IsServer (s : ServerConfig) : Type 0 where
  pub host_is : IsHost s.host
  pub ports_are : All (λ (p : ℕ). p < u16_mod) s.ports
  pub codes_are : All (λ (e : ℕ × Bytes). e.0 < u16_mod) s.error_pages
  pub size_is : s.client_max_body_size < usize_mod
  pub routes_are : All IsRoute s.routes

octet-lt : (s : Bytes) (n : ℕ) → octet s ≡ some n → n < 256
unfolding octet
octet-lt [] n h = absurd (cc)
octet-lt (c ∷ cs) n h = ground (arith, h, from_str_radix-lt 10 256 (c ∷ cs) n (omega arith))

octets-IsHost : (parts : List Bytes) (host : List ℕ) → octets parts ≡ some host → IsHost host
unfolding octets
octets-IsHost [] host h = absurd (cc)
octets-IsHost (a ∷ []) host h = absurd (cc)
octets-IsHost (a ∷ b ∷ []) host h = absurd (cc)
octets-IsHost (a ∷ b ∷ c ∷ []) host h = absurd (cc)
octets-IsHost (a ∷ b ∷ c ∷ d ∷ e ∷ parts) host h = absurd (cc)
octets-IsHost (a ∷ b ∷ c ∷ d ∷ []) host h =
    let (a', ea, ha) = and_then-some (octet a) _ host h in
    let (b', eb, hb) = and_then-some (octet b) _ host ha in
    let (c', ec, hc) = and_then-some (octet c) _ host hb in
    let (d', ed, hd) = option_map-some (λ d'. a' ∷ b' ∷ c' ∷ d' ∷ []) (octet d) host hc in
    subst IsHost hd
      (refl, (octet-lt a a' ea, (octet-lt b b' eb, (octet-lt c c' ec, (octet-lt d d' ed, tt)))))

pub parse_u16-lt : (s : Bytes) (n : ℕ) → parse_u16 s ≡ some n → n < u16_mod
unfolding parse_u16
parse_u16-lt s n h = from_str_radix-lt 10 u16_mod s n (omega arith) h

insert-keys :
    {K V : Type 0} ⦃e : Eq K⦄ (P : K → Type 0) (k : K) (v : V) (m : Dict K V)
    → P k
    → All (λ (e : K × V). P e.0) m
    → All (λ (e : K × V). P e.0) (insert k v m)
unfolding insert
insert-keys P k v [] p all = (p, tt)
insert-keys ⦃e⦄ P k v ((j, w) ∷ m) p (q, all) = elim (Bool-cases (e.beq j k)) [
  | inl same ↦ rw same (p, all)
  | inr other ↦ rw other (q, insert-keys P k v m p all)
]

-- What a directive leaves: such a server, and the tokens.
abbrev pub Kept : Parser → ServerConfig × Parser → Type 0
Kept p r = IsServer r.0 × (remaining r.1 ≡ remaining p)

host_directive-Kept :
    (s : ServerConfig) (p : Parser) (line : ℕ) (args : List Bytes)
    → IsServer s
    → Kept p (host_directive s p line args)
unfolding host_directive error ipv4_from_str
host_directive-Kept s p line [] i = (i, refl)
host_directive-Kept s p line (h ∷ hs) i = elim (Option-cases (ipv4_from_str h)) [
  | inl bad ↦ rw bad (i, refl)
  | inr (ip, good) ↦ rw good (
    record {
      host_is = octets-IsHost (split b'.' h) ip good;
      ports_are = i.ports_are;
      codes_are = i.codes_are;
      size_is = i.size_is;
      routes_are = i.routes_are;
    },
    refl,
  )
]

push_ports-Kept :
    (s : ServerConfig) (p : Parser) (line : ℕ) (args : List Bytes)
    → IsServer s
    → Kept p (push_ports s p line args)
unfolding push_ports error
push_ports-Kept s p line [] i = (i, refl)
push_ports-Kept s p line (a ∷ as') i = elim (Option-cases (parse_u16 a)) [
  | inl bad ↦
      rw (bad, push_ports)
        (push_ports-Kept s (error p line (codes "invalid port " ++ quoted a)) line as' i)
  | inr (port, good) ↦
      rw (good, push_ports)
        (push_ports-Kept (record s { ports = s.ports ++ port ∷ [] }) p line as'
          (record {
            host_is = i.host_is;
            ports_are =
                All-append_one (λ (p : ℕ). p < u16_mod) s.ports port i.ports_are
                  (parse_u16-lt a port good);
            codes_are = i.codes_are;
            size_is = i.size_is;
            routes_are = i.routes_are;
          }))
]

port_directive-Kept :
    (s : ServerConfig) (p : Parser) (line : ℕ) (args : List Bytes)
    → IsServer s
    → Kept p (port_directive s p line args)
unfolding port_directive error
port_directive-Kept s p line [] i =
    push_ports-Kept s (error p line (codes "'port' requires at least one value")) line [] i
port_directive-Kept s p line (a ∷ as') i = push_ports-Kept s p line (a ∷ as') i

server_name_directive-Kept :
    (s : ServerConfig) (p : Parser) (line : ℕ) (args : List Bytes)
    → IsServer s
    → Kept p (server_name_directive s p line args)
unfolding server_name_directive error
server_name_directive-Kept s p line args i = (
  record {
    host_is = i.host_is;
    ports_are = i.ports_are;
    codes_are = i.codes_are;
    size_is = i.size_is;
    routes_are = i.routes_are;
  },
  elim (Bool-cases (is_empty args)) [
    | inl none_there ↦ rw none_there refl
    | inr there ↦ rw there refl
  ],
)

insert_pages-Kept :
    (s : ServerConfig) (p : Parser) (line : ℕ) (path : Bytes) (args : List Bytes)
    → IsServer s
    → Kept p (insert_pages s p line path args)
unfolding insert_pages error
insert_pages-Kept s p line path [] i = (i, refl)
insert_pages-Kept s p line path (a ∷ as') i = elim (Option-cases (parse_u16 a)) [
  | inl bad ↦
      rw (bad, insert_pages)
        (insert_pages-Kept s (error p line (codes "invalid error code " ++ quoted a)) line path as'
          i)
  | inr (code, good) ↦
      rw (good, insert_pages)
        (insert_pages-Kept (record s { error_pages = insert code path s.error_pages }) p line path
          as'
          (record {
            host_is = i.host_is;
            ports_are = i.ports_are;
            codes_are =
                insert-keys (λ (c : ℕ). c < u16_mod) code path s.error_pages
                  (parse_u16-lt a code good) i.codes_are;
            size_is = i.size_is;
            routes_are = i.routes_are;
          }))
]

error_page_directive-Kept :
    (s : ServerConfig) (p : Parser) (line : ℕ) (args : List Bytes)
    → IsServer s
    → Kept p (error_page_directive s p line args)
unfolding error_page_directive error
error_page_directive-Kept s p line args i = elim (Bool-cases (ltb (length args) 2)) [
  | inl few ↦ rw few (i, refl)
  | inr enough ↦ rw enough (elim (Option-cases (last? args)) [
    | inl e ↦ rw e (i, refl)
    | inr (path, e) ↦ rw e (insert_pages-Kept s p line path (take (length args - 1) args) i)
  ])
]

size_directive-Kept :
    (s : ServerConfig) (p : Parser) (line : ℕ) (args : List Bytes)
    → IsServer s
    → Kept p (size_directive s p line args)
unfolding size_directive error
size_directive-Kept s p line [] i = (i, refl)
size_directive-Kept s p line (a ∷ as') i = go (parse_size a) refl
  where
    go : (r : SizeResult) → parse_size a ≡ r → Kept p (size_directive s p line (a ∷ as'))
    go (SizeResult.error e) h = rw (h, size_directive) (i, refl)
    go (SizeResult.size n) h =
        rw (h, size_directive)
          (
            record {
              host_is = i.host_is;
              ports_are = i.ports_are;
              codes_are = i.codes_are;
              size_is = ((parse_size-IsSize a n).0 h).1;
              routes_are = i.routes_are;
            },
            refl,
          )

-- A directive of a server keeps it so, and reads no token.
pub server_directive-Kept :
    (s : ServerConfig) (p : Parser) (d : Directive) → IsServer s → Kept p (server_directive s p d)
unfolding server_directive error
server_directive-Kept s p d i = elim (Bool-cases (bytes_eq d.name (codes "host"))) [
  | inl e ↦ rw e (host_directive-Kept s p d.line d.args i)
  | inr e ↦
      rw e (elim (Bool-cases (bytes_eq d.name (codes "port") || bytes_eq d.name (codes "listen"))) [
        | inl e ↦ rw e (port_directive-Kept s p d.line d.args i)
        | inr e ↦ rw e (elim (Bool-cases (bytes_eq d.name (codes "server_name"))) [
          | inl e ↦ rw e (server_name_directive-Kept s p d.line d.args i)
          | inr e ↦ rw e (elim (Bool-cases (bytes_eq d.name (codes "error_page"))) [
            | inl e ↦ rw e (error_page_directive-Kept s p d.line d.args i)
            | inr e ↦ rw e (elim (Bool-cases (bytes_eq d.name (codes "client_max_body_size"))) [
              | inl e ↦ rw e (size_directive-Kept s p d.line d.args i)
              | inr e ↦ rw e (i, refl)
            ])
          ])
        ])
      ])
]
