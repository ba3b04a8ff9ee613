-- ===== src/Run.antt =====
-- The outcome of a piece of C code: a result, or a fault (a null dereference, a read or write
-- outside its buffer, a failed assert), a loop that did not end within its fuel, or the return of an
-- error after a failed completion, behind which the connection is not used again.
use mathlib.Core.Path.{subst}
use comm_networks_workshop.Base.{if◌then◌else◌, ◌≡◌, refl, Bool, true, false, Option, none, some}

pub data Run {ℓ} (A : Type ℓ) : Type ℓ where
  ok : A → Run A
  fault : Run A
  out_of_fuel : Run A
  error_return : Run A

infixl 5 ◌>>=◌ ◌>>◌
abbrev pub ◌>>=◌ {ℓ κ} : {A : Type ℓ} {B : Type κ} → Run A → (A → Run B) → Run B
ok a >>= f = f a
fault >>= f = fault
out_of_fuel >>= f = out_of_fuel
error_return >>= f = error_return

abbrev pub ◌>>◌ {ℓ} : {B : Type ℓ} → Run (Unit {0}) → Run B → Run B
m >> k = m >>= λ _. k

-- `assert(b)`, and a check that an access stays inside its buffer.
abbrev pub require : Bool → Run (Unit {0})
require true = ok tt
require false = fault

-- A read that may leave its buffer.
abbrev pub in_bounds {ℓ} : {A : Type ℓ} → Option A → Run A
in_bounds none = fault
in_bounds (some a) = ok a

pub bind-bind :
    {A B C : Type 0} (m : Run A) (f : A → Run B) (g : B → Run C)
    → ((m >>= f) >>= g) ≡ (m >>= λ a. f a >>= g)
bind-bind (ok a) f g = refl
bind-bind fault f g = refl
bind-bind out_of_fuel f g = refl
bind-bind error_return f g = refl

-- What holds of the result of a run, if it has one.
pub data Ensures {A : Type 0} (P : A → Type 0) : Run A → Type 0 where
  returns : {a : A} → P a → Ensures P (ok a)
  faults : Ensures P fault
  stops : Ensures P out_of_fuel
  quits : Ensures P error_return

module _ {A B : Type 0} {Q : B → Type 0} where
  pub Ensures-bind :
      {P : A → Type 0} {m : Run A} {f : A → Run B}
      → Ensures P m
      → ((a : A) → P a → Ensures Q (f a))
      → Ensures Q (m >>= f)
  Ensures-bind (returns p) k = k _ p
  Ensures-bind faults k = faults
  Ensures-bind stops k = stops
  Ensures-bind quits k = quits

  -- A step that cannot change what is claimed of its result.
  pub Ensures-after :
      (m : Run A) {f : A → Run B} → ((a : A) → Ensures Q (f a)) → Ensures Q (m >>= f)
  Ensures-after (ok a) k = k a
  Ensures-after fault k = faults
  Ensures-after out_of_fuel k = stops
  Ensures-after error_return k = quits

-- A sequence that returns went through its first part.
pub bind-ok :
    {A B : Type 0} (m : Run A) (f : A → Run B) (b : B)
    → (m >>= f) ≡ ok b
    → (a : A) × (m ≡ ok a) × (f a ≡ ok b)
bind-ok (ok a) f b h = (a, refl, h)
bind-ok fault f b h = cc
bind-ok out_of_fuel f b h = cc
bind-ok error_return f b h = cc

pub in_bounds-ok : {A : Type 0} (o : Option A) (a : A) → in_bounds o ≡ ok a → o ≡ some a
in_bounds-ok none a h = cc
in_bounds-ok (some x) a h = cc

-- A choice whose branches both ensure it.
pub if-Ensures :
    {A : Type 0} {P : A → Type 0} (b : Bool) {x y : Run A}
    → Ensures P x
    → Ensures P y
    → Ensures P (if b then x else y)
if-Ensures true p q = p
if-Ensures false p q = q

pub Ensures-weaken :
    {A : Type 0} {P Q : A → Type 0} {m : Run A} → ((a : A) → P a → Q a) → Ensures P m → Ensures Q m
Ensures-weaken k (returns p) = returns (k _ p)
Ensures-weaken k faults = faults
Ensures-weaken k stops = stops
Ensures-weaken k quits = quits

-- The same, where the test is known in its branches.
pub if-Ensures_known :
    {A : Type 0} {P : A → Type 0} (b : Bool) {m n : Run A}
    → (b ≡ true → Ensures P m)
    → (b ≡ false → Ensures P n)
    → Ensures P (if b then m else n)
if-Ensures_known true h k = h refl
if-Ensures_known false h k = k refl

-- What is ensured of a result that is known.
pub Ensures-ok : {A : Type 0} {P : A → Type 0} {m : Run A} {a : A} → Ensures P m → m ≡ ok a → P a
Ensures-ok {P = P} (returns {a = b} p) h = let e : b ≡ _ = cc h in subst P e p
Ensures-ok faults h = cc
Ensures-ok stops h = cc
Ensures-ok quits h = cc
