-- ===== src/Base/Options.antt =====
-- Chains of calls that may fail, for `do` blocks.
use mathlib.Core.Option.{Option, none, some}

infixl 5 ◌>>=◌
abbrev pub ◌>>=◌ {ℓ κ} : {A : Type ℓ} {B : Type κ} → Option A → (A → Option B) → Option B
none >>= f = none
some a >>= f = f a

-- A call succeeds, with a result of which `Q` holds.
abbrev pub Returns {ℓ} : {A : Type ℓ} → (A → Type 0) → Option A → Type 0
Returns Q none = ⊥
Returns Q (some a) = Q a

pub Returns-bind {ℓ κ} :
    {A : Type ℓ} {B : Type κ} (Q : A → Type 0) (R : B → Type 0) (m : Option A) (f : A → Option B)
    → Returns Q m
    → ((a : A) → Q a → Returns R (f a))
    → Returns R (m >>= f)
Returns-bind Q R none f h k = absurd h
Returns-bind Q R (some a) f h k = k a h

-- If a call succeeds, `Q` holds of its result.
abbrev pub Holds {ℓ} : {A : Type ℓ} → (A → Type 0) → Option A → Type 0
Holds Q none = Unit {0}
Holds Q (some a) = Q a

pub Returns-Holds {ℓ} :
    {A : Type ℓ} (Q R : A → Type 0) (m : Option A)
    → Returns Q m
    → Holds R m
    → Returns (λ a. Q a × R a) m
Returns-Holds Q R none h k = h
Returns-Holds Q R (some a) h k = (h, k)

pub Holds-bind {ℓ κ} :
    {A : Type ℓ} {B : Type κ} (Q : A → Type 0) (R : B → Type 0) (m : Option A) (f : A → Option B)
    → Holds Q m
    → ((a : A) → Q a → Holds R (f a))
    → Holds R (m >>= f)
Holds-bind Q R none f h k = tt
Holds-bind Q R (some a) f h k = k a h

pub Returns-map {ℓ} :
    {A : Type ℓ} (Q R : A → Type 0) (m : Option A)
    → Returns Q m
    → ((a : A) → Q a → R a)
    → Returns R m
Returns-map Q R none h k = h
Returns-map Q R (some a) h k = k a h
