-- ===== src/Config/Parser/Tests.antt =====
-- Texts of configurations, read by `parse` of config/parser.rs.
use servoxide.Prelude.{◌≡◌, refl, true, [], ◌∷◌, some, returns}
use servoxide.Text.{
  Bytes, codes, bytes_eq, trim, to_ascii_lowercase, from_str_radix, parse_usize, parse_u16, split,
  to_string,
}
use servoxide.Text.Trim.{ws_front}
use servoxide.Dict.{insert}
use servoxide.Config.Types.{new_server, new_route}
use servoxide.Config.Bindings.{contains, key_eq, names_of, resolve}
use servoxide.Config.Size.{last_char, parse_size}
use servoxide.Config.Tokens.{tokenize}
use servoxide.Config.Ipv4.{ipv4_from_str}
use servoxide.Config.Parser.Blocks.{ParseOutcome, parse}
use servoxide.Config.Parser.Valid.{IsConfig, parse-IsConfig}

abbrev runs : Unit {0}
unfolding contains key_eq names_of parse_size tokenize bytes_eq trim to_ascii_lowercase
    from_str_radix parse_usize codes ws_front resolve last_char parse insert ipv4_from_str split
    parse_u16 to_string
runs = tt

-- The test's method names have no lower case.
abbrev same : Bytes → Bytes
same m = m

abbrev text : Bytes
unfolding codes
text =
    codes
      "server { host 10.0.0.1; port 80 81; error_page 404 /e; client_max_body_size 2k; route /a { methods GET; autoindex on; redirect 301 /b; } }"

parse-block :
    parse same text
    ≡ returns (record {
      config = record {
        servers =
            record new_server {
              host = 10 ∷ 0 ∷ 0 ∷ 1 ∷ [];
              host_str = codes "10.0.0.1";
              ports = 80 ∷ 81 ∷ [];
              error_pages = (404, codes "/e") ∷ [];
              client_max_body_size = 2048;
              routes =
                  record (new_route (codes "/a")) {
                    methods = codes "GET" ∷ [];
                    autoindex = true;
                    redirect = some (301, codes "/b");
                  }
                  ∷ [];
            }
            ∷ [];
      };
      errors = [];
    })
unfolding runs
parse-block = refl

-- The first two blocks have no port that can be read.
parse-errors :
    parse same (codes "server { port x; } server { } server { port 8080 } server")
    ≡ returns (record {
      config = record { servers = record new_server { ports = 8080 ∷ [] } ∷ [] };
      errors =
          codes "line 1: invalid port 'x'"
          ∷ codes "line 1: 'server' block has no 'port'"
          ∷ codes "line 1: 'server' block has no 'port'"
          ∷ codes "line 1: missing ';' after 'port' directive"
          ∷ codes "line 1: expected '{' after 'server'"
          ∷ [];
    })
unfolding runs
parse-errors = refl

-- At the end of the text, `route` is read twice, as its own path.
parse-route_end :
    parse same (codes "server { port 80; route")
    ≡ returns (record {
      config = record { servers = record new_server { ports = 80 ∷ [] } ∷ [] };
      errors =
          codes "line 1: expected '{' after 'route'"
          ∷ codes "line 1: unterminated 'server' block (missing '}')"
          ∷ [];
    })
unfolding runs
parse-route_end = refl

parse-IsConfig_example :
    (o : ParseOutcome) × (parse same text ≡ returns o) × IsConfig o.config.servers
parse-IsConfig_example = parse-IsConfig same text
