-- ===== src/Main.antt =====
-- lc/src/main.rs: the configuration is read and parsed, the server is bound, and runs.
pub mod Serves
mod Tests
use servoxide.Prelude.{
  ℕ, List, [], ◌∷◌, Option, none, some, is_empty, if◌then◌else◌, Outcome, returns, panics,
  out_of_fuel, ◌>>=◌,
}
use servoxide.Text.{Bytes, codes}
use servoxide.Config.Types.{ServerConfig}
use servoxide.Config.Parser.Blocks.{ParseOutcome, parse}
use servoxide.Server.State.{System, State}
use servoxide.Server.Bind.{bind}
use servoxide.Server.Loop.{run}

abbrev pub default_config : Bytes
unfolding codes
default_config = codes "config/default.conf"

-- `ExitCode::FAILURE`, or the server after some rounds of its loop.
pub data Served (sys : System) : Type 0 where
  failure : Served sys
  serving : State sys → Served sys

pub config_path : Option Bytes → Bytes
unfolding default_config
config_path none = default_config
config_path (some path) = path

module _ (sys : System) where
  started : ℕ → ℕ → Option (State sys) → Outcome (Served sys)
  unfolding run
  started fuel n none = returns Served.failure
  started fuel n (some st) = run sys fuel n st >>= λ st'. returns (Served.serving st')

  unfoldable pub with_config :
      ℕ → ℕ → sys.files.Files → sys.Os → ParseOutcome → Outcome (Served sys)
  unfolding started bind
  with_config fuel n stored os o =
      if is_empty o.config.servers
      then returns Served.failure
      else bind sys o.config.servers stored os >>= λ server. started fuel n server

-- The calls of `fs::read_to_string` and `str::to_uppercase`.
module _ (sys : System) (read_to_string : Bytes → Option Bytes) (to_uppercase : Bytes → Bytes) where
  with_source : ℕ → ℕ → sys.files.Files → sys.Os → Option Bytes → Outcome (Served sys)
  unfolding with_config parse
  with_source fuel n stored os none = returns Served.failure
  with_source fuel n stored os (some src) =
      parse to_uppercase src >>= λ o. with_config sys fuel n stored os o

  -- The first `n` rounds, from the first argument, if there is one.
  unfoldable pub main : ℕ → ℕ → sys.files.Files → sys.Os → Option Bytes → Outcome (Served sys)
  unfolding with_source config_path
  main fuel n stored os arg = with_source fuel n stored os (read_to_string (config_path arg))
