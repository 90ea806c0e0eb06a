-- ===== src/Prelude/Outcomes.antt =====
-- What a run of code that may panic ends in.
use mathlib.Core.Path.{◌≡◌, refl}
use servoxide.Prelude.Machine.{Outcome, returns, panics, out_of_fuel, ◌>>=◌}

-- A run that ends in a value with the one property, or panics for the other reason.
abbrev pub Runs : {A : Type 0} → (A → Type 0) → Type 0 → Outcome A → Type 0
Runs P Q (returns a) = P a
Runs P Q panics = Q
Runs P Q out_of_fuel = ⊥

-- The reason may be weakened, and the run may go on.
pub Runs-map :
    {A : Type 0} (P : A → Type 0) {Q R : Type 0} (o : Outcome A) → (Q → R) → Runs P Q o → Runs P R o
Runs-map P (returns a) f h = h
Runs-map P panics f h = f h
Runs-map P out_of_fuel f h = h

pub Runs-weaken :
    {A : Type 0} (P P' : A → Type 0) (Q : Type 0) (o : Outcome A)
    → ((a : A) → P a → P' a)
    → Runs P Q o
    → Runs P' Q o
Runs-weaken P P' Q (returns a) f h = f a h
Runs-weaken P P' Q panics f h = h
Runs-weaken P P' Q out_of_fuel f h = h

pub Runs-bind :
    {A B : Type 0} (P : A → Type 0) (P' : B → Type 0) (Q : Type 0) (o : Outcome A)
    (f : A → Outcome B)
    → Runs P Q o
    → ((a : A) → P a → Runs P' Q (f a))
    → Runs P' Q (o >>= f)
Runs-bind P P' Q (returns a) f h next = next a h
Runs-bind P P' Q panics f h next = h
Runs-bind P P' Q out_of_fuel f h next = absurd h

-- A run that cannot panic ends in a value.
pub Runs-returns :
    {A : Type 0} (P : A → Type 0) (o : Outcome A) → Runs P ⊥ o → (a : A) × (o ≡ returns a) × P a
Runs-returns P (returns a) h = (a, refl, h)
Runs-returns P panics h = absurd h
Runs-returns P out_of_fuel h = absurd h

-- A run whose value, if there is one, has the property.
abbrev pub Anyway : {A : Type 0} → (A → Type 0) → Outcome A → Type 0
Anyway P (returns a) = P a
Anyway P panics = Unit
Anyway P out_of_fuel = Unit

pub Anyway-bind :
    {A B : Type 0} (P : B → Type 0) (o : Outcome A) (f : A → Outcome B)
    → ((a : A) → Anyway P (f a))
    → Anyway P (o >>= f)
Anyway-bind P (returns a) f h = h a
Anyway-bind P panics f h = tt
Anyway-bind P out_of_fuel f h = tt

pub Anyway-weaken :
    {A : Type 0} (P P' : A → Type 0) (o : Outcome A)
    → ((a : A) → P a → P' a)
    → Anyway P o
    → Anyway P' o
Anyway-weaken P P' (returns a) f h = f a h
Anyway-weaken P P' panics f h = tt
Anyway-weaken P P' out_of_fuel f h = tt

pub Runs-Anyway :
    {A : Type 0} (P P' : A → Type 0) (Q : Type 0) (o : Outcome A)
    → Runs P Q o
    → Anyway P' o
    → Runs (λ a. P a × P' a) Q o
Runs-Anyway P P' Q (returns a) h h' = (h, h')
Runs-Anyway P P' Q panics h h' = h
Runs-Anyway P P' Q out_of_fuel h h' = h

-- A run that ends in a value with the property, or panics or spends its fuel for the reason given.
abbrev pub Ends : {A : Type 0} → (A → Type 0) → Type 0 → Type 0 → Outcome A → Type 0
Ends P Q R (returns a) = P a
Ends P Q R panics = Q
Ends P Q R out_of_fuel = R

pub Ends-map :
    {A : Type 0} (P P' : A → Type 0) {Q Q' R R' : Type 0} (o : Outcome A)
    → ((a : A) → o ≡ returns a → P a → P' a)
    → (Q → Q')
    → (R → R')
    → Ends P Q R o
    → Ends P' Q' R' o
Ends-map P P' (returns a) f g k h = f a refl h
Ends-map P P' panics f g k h = g h
Ends-map P P' out_of_fuel f g k h = k h

pub Ends-bind :
    {A B : Type 0} (P : A → Type 0) (P' : B → Type 0) {Q Q' R R' : Type 0} (o : Outcome A)
    (f : A → Outcome B)
    → Ends P Q R o
    → (Q → Q')
    → (R → R')
    → ((a : A) → o ≡ returns a → P a → Ends P' Q' R' (f a))
    → Ends P' Q' R' (o >>= f)
Ends-bind P P' (returns a) f h g k next = next a refl h
Ends-bind P P' panics f h g k next = g h
Ends-bind P P' out_of_fuel f h g k next = k h

-- A run that cannot spend its fuel.
pub Runs-Ends :
    {A : Type 0} (P : A → Type 0) {Q Q' : Type 0} (R : Type 0) (o : Outcome A)
    → (Q → Q')
    → Runs P Q o
    → Ends P Q' R o
Runs-Ends P R (returns a) f h = h
Runs-Ends P R panics f h = f h
Runs-Ends P R out_of_fuel f h = absurd h
