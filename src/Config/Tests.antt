-- ===== src/Config/Tests.antt =====
-- The theorems on the configuration at concrete texts and servers.
use servoxide.Prelude.{◌≡◌, ◌↔◌, ◌<◌, ◌++◌, refl, true, List, [], ◌∷◌, All, usize_mod}
use servoxide.Text.{codes, bytes_eq, trim, to_ascii_lowercase, from_str_radix, parse_usize}
use servoxide.Text.Trim.{ws_front}
use servoxide.Config.Types.{ServerConfig, new_server}
use servoxide.Config.Bindings.{contains, key_eq, names_of, resolve}
use servoxide.Config.Bindings.Distinct.{are_fresh, bindings, resolve-distinct}
use servoxide.Config.Bindings.AllKept.{resolve_all}
use servoxide.Config.Size.{SizeResult, last_char, parse_size}
use servoxide.Config.Size.Amounts.{IsSize}
use servoxide.Config.Size.Exact.{parse_size-IsSize}
use servoxide.Config.Tokens.{Tok, Lexed, tokenize}
use servoxide.Config.Tokens.Words.{IsToken, tokenize-IsToken}

abbrev runs : Unit {0}
unfolding contains key_eq names_of parse_size tokenize bytes_eq trim to_ascii_lowercase
    from_str_radix parse_usize codes ws_front resolve last_char
runs = tt

abbrev on_80 : ServerConfig
on_80 = record new_server { ports = 80 ∷ [] }

abbrev two_names : ServerConfig
two_names = record new_server { ports = 80 ∷ 81 ∷ []; server_names = codes "a" ∷ codes "b" ∷ [] }

resolve-duplicate : (resolve [] [] [] (on_80 ∷ two_names ∷ on_80 ∷ [])).1 ≡ on_80 ∷ two_names ∷ []
unfolding runs
resolve-duplicate = refl

resolve-distinct_example :
    are_fresh [] (bindings (resolve [] [] [] (on_80 ∷ two_names ∷ on_80 ∷ [])).1) ≡ true
resolve-distinct_example = resolve-distinct [] (on_80 ∷ two_names ∷ on_80 ∷ [])

on_80-two_names : are_fresh [] (bindings (on_80 ∷ two_names ∷ [])) ≡ true
unfolding runs
on_80-two_names = refl

resolve_all_example : resolve [] [] [] (on_80 ∷ two_names ∷ []) ≡ ([], [] ++ on_80 ∷ two_names ∷ [])
resolve_all_example = resolve_all [] [] [] (on_80 ∷ two_names ∷ []) on_80-two_names

parse_size-cases :
    (parse_size (codes " 2M ") ≡ SizeResult.size 2097152)
    × (parse_size (codes "17179869184g") ≡ SizeResult.error (codes "size '17179869184g' overflows"))
    × (parse_size (codes "10x") ≡ SizeResult.error (codes "invalid size suffix 'x'"))
    × (parse_size (codes "k") ≡ SizeResult.error (codes "invalid size 'k'"))
unfolding runs
parse_size-cases = (refl, refl, refl, refl)

parse_size-2m : parse_size (codes "2m") ≡ SizeResult.size 2097152
unfolding runs
parse_size-2m = refl

parse_size-IsSize_example :
    (parse_size (codes "2m") ≡ SizeResult.size 2097152)
    ↔ (IsSize (trim (codes "2m")) 2097152 × (2097152 < usize_mod))
parse_size-IsSize_example = parse_size-IsSize (codes "2m") 2097152

abbrev listing : List Lexed
listing =
    record { tok = Tok.word (codes "server"); line = 1 }
    ∷ record { tok = Tok.opening; line = 1 }
    ∷ record { tok = Tok.word (codes "port"); line = 2 }
    ∷ record { tok = Tok.word (codes "80"); line = 2 }
    ∷ record { tok = Tok.semi; line = 2 }
    ∷ record { tok = Tok.closing; line = 3 }
    ∷ []

tokenize-listing : tokenize (codes "server{\n port 80; # main {\n}") ≡ listing
unfolding runs
tokenize-listing = refl

tokenize-IsToken_example : All IsToken (tokenize (codes "server{\n port 80; # main {\n}"))
tokenize-IsToken_example = tokenize-IsToken (codes "server{\n port 80; # main {\n}")
