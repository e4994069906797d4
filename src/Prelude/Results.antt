-- ===== src/Prelude/Results.antt =====
-- Code that may throw: an exception is its message.
use mathlib.Core.Path.{◌≡◌, refl}
use mathlib.Core.Logic.{◌≢◌}
use windows_vds.Prelude.Text.{Bytes}

-- `out_of_fuel` marks a loop of the model that was given too little fuel; the source has no
-- such outcome.
pub data Result {ℓ} (A : Type ℓ) : Type ℓ where
  ok : A → Result A
  err : Bytes → Result A
  out_of_fuel : Result A

infixl 5 ◌>>=◌ ◌>>◌
abbrev pub ◌>>=◌ {ℓ κ} : {A : Type ℓ} {B : Type κ} → Result A → (A → Result B) → Result B
out_of_fuel >>= next = out_of_fuel
err message >>= next = err message
ok value >>= next = next value

abbrev pub ◌>>◌ {κ} : {B : Type κ} → Result (Unit {0}) → Result B → Result B
check >> rest = check >>= λ _. rest

-- A chain that returns has a first step that returns.
pub bind-eq-ok {ℓ κ} :
    {A : Type ℓ} {B : Type κ} (first : Result A) (next : A → Result B) {result : B}
    → (first >>= next) ≡ ok result
    → (value : A) × (first ≡ ok value) × (next value ≡ ok result)
bind-eq-ok out_of_fuel next returns = cc
bind-eq-ok (err message) next returns = cc
bind-eq-ok (ok value) next returns = (value, refl, returns)

-- The code returns or throws, and what it returns satisfies `P`.
abbrev pub Ensures {ℓ} : {A : Type ℓ} → (A → Type 0) → Result A → Type 0
Ensures P (ok a) = P a
Ensures P (err e) = Unit
Ensures P out_of_fuel = ⊥

pub Ensures-bind {ℓ κ} :
    {A : Type ℓ} {B : Type κ} (P : A → Type 0) (Q : B → Type 0) (m : Result A) (f : A → Result B)
    → Ensures P m
    → ((a : A) → P a → Ensures Q (f a))
    → Ensures Q (m >>= f)
Ensures-bind P Q (ok a) f h k = k a h
Ensures-bind P Q (err e) f h k = tt
Ensures-bind P Q out_of_fuel f h k = absurd h

pub Ensures-returns {ℓ} :
    {A : Type ℓ} (P : A → Type 0) (m : Result A) → Ensures P m → m ≢ out_of_fuel
Ensures-returns P (ok a) h = cc
Ensures-returns P (err e) h = cc
Ensures-returns P out_of_fuel h = absurd h

pub Ensures-mono {ℓ} :
    {A : Type ℓ} (P Q : A → Type 0) (m : Result A)
    → Ensures P m
    → ((a : A) → P a → Q a)
    → Ensures Q m
Ensures-mono P Q (ok a) h k = k a h
Ensures-mono P Q (err e) h k = tt
Ensures-mono P Q out_of_fuel h k = h

-- The code returns or throws: it does not run on.
abbrev pub Answers {ℓ} : {A : Type ℓ} → Result A → Type 0
Answers m = Ensures (λ _. Unit) m

pub Answers-of_ne {ℓ} : {A : Type ℓ} (m : Result A) → m ≢ out_of_fuel → Answers m
Answers-of_ne (ok a) h = tt
Answers-of_ne (err e) h = tt
Answers-of_ne out_of_fuel h = h refl

pub Answers-bind {ℓ κ} :
    {A : Type ℓ} {B : Type κ} (m : Result A) (f : A → Result B)
    → Answers m
    → ((a : A) → Answers (f a))
    → Answers (m >>= f)
Answers-bind (ok a) f h k = k a
Answers-bind (err e) f h k = tt
Answers-bind out_of_fuel f h k = absurd h
