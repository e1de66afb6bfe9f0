-- ===== src/Base/Outcome.antt =====
-- What a piece of the program ends in: a value, or the way in which the process stops.
use mathlib.Core.Path.{◌≡◌, refl, ap, ◌∙◌, subst}
use mathlib.Core.Bool.{Bool, true, false}
use Prim.Native.Nat.{ℕ}

-- A failed `assert`, an access outside an array, a null pointer dereferenced, a call of `exit`.
pub data Fault : Type 0 where
  assertion out_of_bounds null_pointer : Fault
  exit : ℕ → Fault

pub data Outcome {ℓ} (A : Type ℓ) : Type ℓ where
  ok : A → Outcome A
  fault : Fault → Outcome A

-- `assert(b)`, or another test that stops the process with the fault given.
abbrev pub guard : Bool → Fault → Outcome (Unit {0})
guard true why = ok tt
guard false why = fault why

infixl 5 ◌>>=◌ ◌>>◌
abbrev pub ◌>>=◌ {ℓ κ} : {X : Type ℓ} {Y : Type κ} → Outcome X → (X → Outcome Y) → Outcome Y
ok value >>= next = next value
fault why >>= next = fault why

-- A step that succeeds, and what follows it.
pub >>=-ok {ℓ κ} :
    {A : Type ℓ} {B : Type κ} (m : Outcome A) (f : A → Outcome B) {a : A} {r : Outcome B}
    → m ≡ ok a
    → f a ≡ r
    → (m >>= f) ≡ r
>>=-ok m f step rest = ap (λ x. x >>= f) step ∙ rest

-- A step that stops the process.
pub >>=-fault {ℓ κ} :
    {A : Type ℓ} {B : Type κ} (m : Outcome A) (f : A → Outcome B) {why : Fault}
    → m ≡ fault why
    → (m >>= f) ≡ fault why
>>=-fault m f stop = ap (λ x. x >>= f) stop

abbrev pub ◌>>◌ {ℓ} : {Y : Type ℓ} → Outcome (Unit {0}) → Outcome Y → Outcome Y
first >> later = first >>= λ _. later

-- A run that succeeds has a first step that does.
pub >>=-eq-ok {ℓ κ} :
    {X : Type ℓ} {Y : Type κ} (m : Outcome X) (next : X → Outcome Y) {result : Y}
    → (m >>= next) ≡ ok result
    → (value : X) × (m ≡ ok value) × (next value ≡ ok result)
>>=-eq-ok (ok value) next run = (value, refl, run)
>>=-eq-ok (fault why) next run = cc

-- What holds of the value of a run, if there is one.
abbrev pub After {ℓ κ} : {A : Type ℓ} → (A → Type κ) → Outcome A → Type κ
After P (ok a) = P a
After P (fault why) = Unit

pub After-ok {ℓ κ} :
    {A : Type ℓ} (P : A → Type κ) {m : Outcome A} {a : A} → After P m → m ≡ ok a → P a
After-ok P holds run = subst (After P) run holds

pub After->>= {ℓ ℓ' κ κ'} :
    {A : Type ℓ} {B : Type ℓ'} (Q : A → Type κ) (P : B → Type κ') (m : Outcome A)
    (f : A → Outcome B)
    → After Q m
    → ((a : A) → Q a → After P (f a))
    → After P (m >>= f)
After->>= Q P (ok a) f first rest = rest a first
After->>= Q P (fault why) f first rest = tt

-- A step of which nothing need be known.
pub After-any {ℓ ℓ' κ} :
    {A : Type ℓ} {B : Type ℓ'} (P : B → Type κ) (m : Outcome A) (f : A → Outcome B)
    → ((a : A) → After P (f a))
    → After P (m >>= f)
After-any P (ok a) f rest = rest a
After-any P (fault why) f rest = tt

-- A step that is known to give the value that the rest goes on with.
pub After-eq {ℓ ℓ' κ} :
    {A : Type ℓ} {B : Type ℓ'} (P : B → Type κ) (m : Outcome A) (f : A → Outcome B)
    → ((a : A) → m ≡ ok a → After P (f a))
    → After P (m >>= f)
After-eq P (ok a) f rest = rest a refl
After-eq P (fault why) f rest = tt
