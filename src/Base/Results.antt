-- ===== src/Base/Results.antt =====
-- What a C++ call can end in: a value, or a stop of the process.
use Prim.Native.Nat.{ℕ}
use mathlib.Core.Bool.{Bool, true, false}
use mathlib.Core.Option.{Option, none, some}
use mathlib.Core.Path.{◌≡◌, refl, subst}
use zlnet.Base.Tests.{if◌then◌else◌}

-- `assertion`: an `assert` failed. `bounds`: a copy left its array. `null`: a null pointer was
-- dereferenced. `dangling`: a freed object was used. `thrown`: a standard exception. `fuel` is no C++
-- outcome: a loop of the model used up its rounds.
pub data Fault : Type 0 where
  assertion bounds null dangling thrown fuel : Fault

pub data Result {ℓ} (A : Type ℓ) : Type ℓ where
  ok : A → Result A
  fault : Fault → Result A

infixl 5 ◌>>=◌ ◌>>◌
abbrev pub ◌>>=◌ {ℓ κ} : {A : Type ℓ} {B : Type κ} → Result A → (A → Result B) → Result B
ok a >>= f = f a
fault e >>= f = fault e

abbrev pub ◌>>◌ {ℓ} : {B : Type ℓ} → Result (Unit {0}) → Result B → Result B
m >> k = m >>= λ _. k

-- `assert(b)`, which the default (Debug) build keeps.
abbrev pub require : Bool → Result (Unit {0})
require true = ok tt
require false = fault assertion

-- A pointer that the code dereferences with no test for null.
abbrev pub deref : Option ℕ → Result ℕ
deref none = fault null
deref (some p) = ok p

-- Inversions, for proofs where the parts stay shut.
pub ok-injective {ℓ} : {A : Type ℓ} {a b : A} → ok a ≡ ok b → a ≡ b
ok-injective h = cc

pub bind_returned {ℓ κ} :
    {X : Type ℓ} {Y : Type κ} {y : Y} (first : Result X) (rest : X → Result Y)
    → (first >>= rest) ≡ ok y
    → (x : X) × (first ≡ ok x) × (rest x ≡ ok y)
bind_returned (fault stop) rest returned = cc
bind_returned (ok x) rest returned = (x, refl, returned)

-- A property of the value that a call returns, if it returns one, and the rules for the ways in which
-- calls are put together.
pub data Ensures {ℓ κ} {A : Type ℓ} (P : A → Type κ) : Result A → Type (ℓ ⊔ κ) where
  returns : {a : A} → P a → Ensures P (ok a)
  stops : (e : Fault) → Ensures P (fault e)

module _ {ℓ κ} {A : Type ℓ} {P : A → Type κ} where
  pub if-Ensures :
      (b : Bool) (x y : Result A) → Ensures P x → Ensures P y → Ensures P (if b then x else y)
  if-Ensures true x y hx hy = hx
  if-Ensures false x y hx hy = hy

pub >>=-Ensures {ℓ κ μ} :
    {A : Type ℓ} {B : Type κ} {Q : A → Type μ} {P : B → Type μ} {m : Result A} (f : A → Result B)
    → Ensures Q m
    → ((a : A) → Q a → Ensures P (f a))
    → Ensures P (m >>= f)
>>=-Ensures f (returns h) k = k _ h
>>=-Ensures f (stops e) k = stops e

pub Ensures-of-eq {ℓ κ} :
    {A : Type ℓ} {P : A → Type κ} (m : Result A) → ((a : A) → m ≡ ok a → P a) → Ensures P m
Ensures-of-eq (ok a) h = returns (h a refl)
Ensures-of-eq (fault e) h = stops e

pub eq-of-Ensures {ℓ κ} :
    {A : Type ℓ} {P : A → Type κ} {m : Result A} {a : A} → Ensures P m → m ≡ ok a → P a
eq-of-Ensures {P = P} (returns h) e = subst P (ok-injective e) h
eq-of-Ensures (stops x) e = cc

pub require-Ensures {ℓ κ} :
    {A : Type ℓ} {P : A → Type κ} (b : Bool) (m : Result A)
    → Ensures P m
    → Ensures P (require b >> m)
require-Ensures true m h = h
require-Ensures false m h = stops assertion

-- Where nothing is known of the value.
pub Ensures-any {ℓ κ} : {A : Type ℓ} (m : Result A) → Ensures (λ _. Unit {κ}) m
Ensures-any (ok a) = returns tt
Ensures-any (fault e) = stops e

pub Ensures-map {ℓ κ} :
    {A : Type ℓ} {Q P : A → Type κ} {m : Result A}
    → ((a : A) → Q a → P a)
    → Ensures Q m
    → Ensures P m
Ensures-map f (returns h) = returns (f _ h)
Ensures-map f (stops e) = stops e
