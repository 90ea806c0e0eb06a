-- ===== src/Cookies/Tests.antt =====
-- The unit tests of cookies/mod.rs, and the theorems of the session store at concrete visits.
use servoxide.Prelude.{◌≡◌, refl, true, false, [], ◌∷◌, none, some, wrapping_add}
use servoxide.Text.{Bytes, codes, bytes_eq, split, split_once, trim, scan}
use servoxide.Dict.{insert, retain}
use servoxide.Cookies.{new, cookie_value, random_id, touch}
use servoxide.Cookies.Sessions.{touch-touch, all_live, touch-all_live}

abbrev runs : Unit {0}
unfolding cookie_value random_id touch bytes_eq split split_once trim codes scan insert retain
runs = tt

cookie_value-cases :
    (cookie_value (codes "theme=dark; session_id=abc123; lang=en") (codes "session_id")
      ≡ some (codes "abc123"))
    × (cookie_value (codes "theme=dark; session_id=abc123; lang=en") (codes "missing") ≡ none)
unfolding runs
cookie_value-cases = (refl, refl)

abbrev drawn : Bytes
drawn = 0 ∷ 255 ∷ 16 ∷ 9 ∷ 171 ∷ 205 ∷ 1 ∷ 2 ∷ 3 ∷ 4 ∷ 5 ∷ 6 ∷ 7 ∷ 8 ∷ 9 ∷ 10 ∷ []

random_id-case : random_id drawn ≡ codes "00ff1009abcd0102030405060708090a"
unfolding runs
random_id-case = refl

abbrev cookie : Bytes
cookie = codes "theme=dark; session_id=00ff1009abcd0102030405060708090a"

touch-touch_example :
    let (first, store') = touch new 5 drawn none in
    let second = (touch store' 1000 drawn (some cookie)).0 in
    (second.id ≡ first.id) × (second.is_new ≡ false) × (second.visits ≡ wrapping_add first.visits 1)
unfolding runs
touch-touch_example = touch-touch new 5 1000 drawn drawn none cookie refl refl

touch-all_live_example : all_live 1000 (touch new 1000 drawn (some cookie)).1.sessions ≡ true
touch-all_live_example = touch-all_live new 1000 drawn (some cookie)
