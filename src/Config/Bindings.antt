-- ===== src/Config/Bindings.antt =====
-- The check for duplicate bindings at the end of `parse`, config/parser.rs.
pub mod Distinct
pub mod AllKept
use servoxide.Prelude.{
  ℕ, Bool, true, false, ◌&&◌, List, [], ◌∷◌, ◌++◌, any, ◌==◌, if◌then◌else◌, is_empty,
}
use servoxide.Text.{Bytes, bytes_eq, codes, to_string}
use servoxide.Config.Types.{ServerConfig}

-- Host, port and server name.
abbrev pub Key : Type 0
Key = Bytes × (ℕ × Bytes)

unfoldable pub key_eq : Key → Key → Bool
key_eq (h, (p, n)) (h', (p', n')) = bytes_eq h h' && ((p == p') && bytes_eq n n')

unfoldable pub contains : List Key → Key → Bool
contains seen k = any (λ j. key_eq j k) seen

-- What the loops over one server keep: the bindings seen, the errors, and the conflict.
pub record Check : Type 0 where
  pub seen : List Key
  pub errors : List Bytes
  pub conflict : Bool

unfoldable pub names_of : ServerConfig → List Bytes
names_of s = if is_empty s.server_names then [] ∷ [] else s.server_names

duplicate_error : Bytes → ℕ → Bytes → Bytes
duplicate_error host port name =
    codes "duplicate binding "
    ++ (host
        ++ (codes ":"
            ++ (to_string port
                ++ (codes " for server_name "
                    ++ (if is_empty name then codes "(default)" else name)))))

unfoldable pub check_key : Check → Key → Check
unfolding duplicate_error contains
check_key c (host, (port, name)) =
    if contains c.seen (host, (port, name))
    then record c { errors = c.errors ++ duplicate_error host port name ∷ []; conflict = true }
    else record c { seen = (host, (port, name)) ∷ c.seen }

unfoldable pub check_names : Bytes → ℕ → List Bytes → Check → Check
unfolding check_key
check_names host port [] c = c
check_names host port (name ∷ names) c =
    check_names host port names (check_key c (host, (port, name)))

unfoldable pub check_ports : Bytes → List Bytes → List ℕ → Check → Check
unfolding check_names
check_ports host names [] c = c
check_ports host names (port ∷ ports) c =
    check_ports host names ports (check_names host port names c)

unfoldable pub check_server : List Key → List Bytes → ServerConfig → Check
unfolding check_ports names_of
check_server seen errors s =
    check_ports s.host_str (names_of s) s.ports
      (record { seen = seen; errors = errors; conflict = false })

-- The loop over the servers: a server with a conflict is dropped.
unfoldable pub resolve :
    List Key → List Bytes → List ServerConfig → List ServerConfig → List Bytes × List ServerConfig
unfolding check_server
resolve seen errors kept [] = (errors, kept)
resolve seen errors kept (s ∷ ss) =
    let c = check_server seen errors s in
    resolve c.seen c.errors (if c.conflict then kept else kept ++ s ∷ []) ss
