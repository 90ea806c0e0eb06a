-- ===== src/Main/Tests.antt =====
-- The program over the toy system, with a configuration of one server.
use servoxide.Prelude.{Ends, true, Option, none, some}
use servoxide.Text.{Bytes, codes}
use servoxide.Server.Toy.{toy, toy-WritesWithin}
use servoxide.Server.Loop.Reasons.{EventChokes, EventFloods}
use servoxide.Main.{main}
use servoxide.Main.Serves.{IsServed, ReachesFromStart, main-IsServed}

abbrev one_server : Bytes → Option Bytes
unfolding codes
one_server path = some (codes "server { port 80; }")

main-IsServed_example :
    Ends
      (IsServed toy one_server (λ m. m) tt true none 2 3)
      (ReachesFromStart toy one_server (λ m. m) tt true none 2 3 (EventChokes toy))
      (ReachesFromStart toy one_server (λ m. m) tt true none 2 3 (EventFloods toy 2))
      (main toy one_server (λ m. m) 2 3 tt true none)
main-IsServed_example = main-IsServed toy one_server (λ m. m) tt true none 2 3 toy-WritesWithin
