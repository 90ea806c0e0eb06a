-- ===== src/Config/Parser/Valid.antt =====
-- `parse` of config/parser.rs and the configuration it makes.
use servoxide.Prelude.{
  Runs-returns, suc, ◌≡◌, refl, true, List, [], ◌∷◌, ◌++◌, arith, inl, inr, Bool-cases, All,
  All-append_one, length, returns,
}
use servoxide.Text.{Bytes}
use servoxide.Config.Types.{ServerConfig}
use servoxide.Config.Tokens.{tokenize}
use servoxide.Config.Bindings.{Key, check_server, resolve}
use servoxide.Config.Bindings.Distinct.{are_fresh, bindings, resolve-distinct}
use servoxide.Config.Parser.{new}
use servoxide.Config.Parser.Blocks.{ParseOutcome, parse_servers, parse}
use servoxide.Config.Parser.Total.{IsBlock, parse_servers-Runs}

resolve-All :
    (P : ServerConfig → Type 0) (seen : List Key) (errors : List Bytes)
    (kept ss : List ServerConfig)
    → All P kept
    → All P ss
    → All P (resolve seen errors kept ss).1
unfolding resolve
resolve-All P seen errors kept [] done todo = done
resolve-All P seen errors kept (s ∷ ss) done (p, todo) =
    let c = check_server seen errors s in
    elim (Bool-cases c.conflict) [
      | inl clash ↦ rw (clash, resolve) (resolve-All P c.seen c.errors kept ss done todo)
      | inr fine ↦
          rw (fine, resolve)
            (resolve-All P c.seen c.errors (kept ++ s ∷ []) ss (All-append_one P kept s done p)
              todo)
    ]

-- What the configuration promises to the server.
pub record IsConfig (servers : List ServerConfig) : Type 0 where
  pub blocks : All IsBlock servers
  pub distinct : are_fresh [] (bindings servers) ≡ true

-- Every text of a configuration is parsed to its end, and each server that survives has a port,
-- four octets for its host, ports, codes and a limit that fit their integer types, and no binding
-- that another has.
pub parse-IsConfig :
    (to_uppercase : Bytes → Bytes) (input : Bytes)
    → (o : ParseOutcome) × (parse to_uppercase input ≡ returns o) × IsConfig o.config.servers
unfolding parse
parse-IsConfig to_uppercase input =
    let toks = tokenize input in
    let ((servers, p), done, all) =
      Runs-returns (λ r. All IsBlock r.0)
        (parse_servers to_uppercase (suc (length toks)) (new toks) [])
        (parse_servers-Runs to_uppercase (suc (length toks)) (new toks) [] (omega arith) tt) in
    let (errors, kept) = resolve [] p.errors [] servers in
    (
      record { config = record { servers = kept }; errors = errors },
      rw done refl,
      record {
        blocks = resolve-All IsBlock [] p.errors [] servers tt all;
        distinct = resolve-distinct p.errors servers;
      },
    )
