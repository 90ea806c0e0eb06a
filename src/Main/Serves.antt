-- ===== src/Main/Serves.antt =====
-- The program of lc/src/main.rs, from its configuration to any round of its loop.
use servoxide.Prelude.{
  Ends, Ends-bind, ℕ, ◌≡◌, true, Option, none, some, inl, inr, Bool-cases, Option-cases, is_empty,
  returns,
}
use servoxide.Text.{Bytes}
use servoxide.Config.Parser.Blocks.{ParseOutcome, parse}
use servoxide.Config.Parser.Valid.{parse-IsConfig}
use servoxide.Server.State.{System, State}
use servoxide.Server.Ready.{IsReady}
use servoxide.Server.Promises.{WritesWithin}
use servoxide.Server.Bind.Ready.{bind-HasStarted}
use servoxide.Server.Bind.{bind}
use servoxide.Server.Loop.{run}
use servoxide.Poll.{Event}
use servoxide.Server.Loop.Reasons.{EventChokes, EventFloods, Reaches}
use servoxide.Server.Loop.Ready.{run-Ends}
use servoxide.Main.{Served, with_config, config_path, main}

module _ (sys : System) (read_to_string : Bytes → Option Bytes) (to_uppercase : Bytes → Bytes)
    (stored : sys.files.Files) (os : sys.Os) (arg : Option Bytes) where
  -- The configuration is read, and parses to this.
  pub record HasConfig (o : ParseOutcome) : Type 0 where
    pub source : Bytes
    pub read_is : read_to_string (config_path arg) ≡ some source
    pub parsed : parse to_uppercase source ≡ returns o

  -- The servers of that configuration are bound, and their loop starts in this state.
  pub record Starts (st : State sys) : Type 0 where
    pub outcome : ParseOutcome
    pub has_config : HasConfig outcome
    pub bound : bind sys outcome.config.servers stored os ≡ returns (some st)

  -- Why the program gives up: there is no file, or no server in it, or none that can be bound.
  pub data IsRefused : Type 0 where
    missing : read_to_string (config_path arg) ≡ none → IsRefused
    empty : {o : ParseOutcome} → HasConfig o → is_empty o.config.servers ≡ true → IsRefused
    unbound :
        {o : ParseOutcome}
        → HasConfig o
        → bind sys o.config.servers stored os ≡ returns none
        → IsRefused

  -- What the program has come to after so many rounds of its loop.
  abbrev pub IsServed : ℕ → ℕ → Served sys → Type 0
  IsServed fuel n Served.failure = IsRefused
  IsServed fuel n (Served.serving st') =
      IsReady sys st'
      × ((st : State sys) × Starts st × IsReady sys st × (run sys fuel n st ≡ returns st'))

  -- One of the first rounds of the loop that this program starts comes to such an event.
  pub record ReachesFromStart (fuel n : ℕ) (R : State sys → Event → Type 0) : Type 0 where
    pub state : State sys
    pub starts : Starts state
    pub ready : IsReady sys state
    pub reaches : Reaches sys fuel R n state

  with_config-IsServed :
      (fuel n : ℕ) (o : ParseOutcome)
      → WritesWithin sys
      → HasConfig o
      → Ends
          (IsServed fuel n)
          (ReachesFromStart fuel n (EventChokes sys))
          (ReachesFromStart fuel n (EventFloods sys fuel))
          (with_config sys fuel n stored os o)
  unfolding with_config
  with_config-IsServed fuel n o within c = elim (Bool-cases (is_empty o.config.servers)) [
    | inl nothing ↦ rw nothing (empty c nothing)
    | inr some_servers ↦ rw some_servers (
        let (g, i, cases) = bind-HasStarted sys o.config.servers stored os in
        elim cases [
          | inl e ↦ rw e (unbound c e)
          | inr (st, e, s) ↦
              (let starts : Starts st = record { outcome = o; has_config = c; bound = e } in
                rw e (
                  Ends-bind (IsReady sys) (IsServed fuel n) (run sys fuel n st)
                    (λ st'. returns (Served.serving st')) (run-Ends sys within fuel n st s.ready)
                    (λ r. record { state = st; starts = starts; ready = s.ready; reaches = r })
                    (λ r. record { state = st; starts = starts; ready = s.ready; reaches = r })
                    (λ st' done i'. (i', (st, starts, s.ready, done)))))
        ])
  ]

  -- The program gives up only if its configuration cannot be read, has no server or none that can
  -- be bound; else its loop starts in a ready server, and any number of rounds of that loop leave
  -- a ready server. It panics only if this loop comes to an event of a connection whose buffer
  -- then reaches 2^63 bytes or holds a chunked body that makes its decoder panic, and spends the
  -- fuel of accept_all only if this loop comes to an event of a listener on which as many calls
  -- of accept in a row find a connection. It is assumed that a write takes no more than it is
  -- given.
  pub main-IsServed :
      (fuel n : ℕ)
      → WritesWithin sys
      → Ends
          (IsServed fuel n)
          (ReachesFromStart fuel n (EventChokes sys))
          (ReachesFromStart fuel n (EventFloods sys fuel))
          (main sys read_to_string to_uppercase fuel n stored os arg)
  unfolding main
  main-IsServed fuel n within = elim (Option-cases (read_to_string (config_path arg))) [
    | inl none_there ↦ rw none_there (missing none_there)
    | inr (src, there) ↦
        (let (o, done, c) = parse-IsConfig to_uppercase src in
          rw (there, done)
            (with_config-IsServed fuel n o within
              (record { source = src; read_is = there; parsed = done })))
  ]
