-- ===== src/Config/Ipv4.antt =====
-- `Ipv4Addr::from_str`, as config/parser.rs uses it: four decimal octets with dots between them.
use servoxide.Prelude.{
  ℕ, ◌&&◌, ◌||◌, not, List, [], ◌∷◌, Option, none, all, ◌==◌, leb, is_empty, and_then, option_map,
  if◌then◌else◌, length,
}
use servoxide.Text.{Bytes, split, within, from_str_radix}

-- One to three digits, without a leading zero.
unfoldable pub octet : Bytes → Option ℕ
octet [] = none
octet (c ∷ cs) =
    if all (within b'0' b'9') (c ∷ cs) && (leb (length cs) 2 && (is_empty cs || not (c == b'0')))
    then from_str_radix 10 256 (c ∷ cs)
    else none

unfoldable pub octets : List Bytes → Option (List ℕ)
unfolding octet
octets (a ∷ b ∷ c ∷ d ∷ []) = and_then (octet a) (λ a'.
    and_then (octet b)
      (λ b'. and_then (octet c) (λ c'. option_map (λ d'. a' ∷ b' ∷ c' ∷ d' ∷ []) (octet d))))
octets _ = none

unfoldable pub ipv4_from_str : Bytes → Option (List ℕ)
unfolding octets
ipv4_from_str s = octets (split b'.' s)
