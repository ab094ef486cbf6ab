-- ===== src/Srcmove/Checked.antt =====
-- What a function of srcdiffvisual/srcmove returns or raises.
use src_visual.Common.{ap, refl, ◌≡◌, Bool, true, false, Option, none, some}

pub data Fault : Type 0 where
  value_error assertion_error key_error : Fault

pub data Checked {ℓ} (A : Type ℓ) : Type ℓ where
  fine : A → Checked A
  faulty : Fault → Checked A

infixl 5 ◌>>=◌ ◌>>◌
abbrev pub ◌>>=◌ {ℓ κ} : {A : Type ℓ} {B : Type κ} → Checked A → (A → Checked B) → Checked B
fine a >>= f = f a
faulty e >>= f = faulty e

abbrev pub ◌>>◌ {ℓ} : {B : Type ℓ} → Checked (Unit {0}) → Checked B → Checked B
m >> k = m >>= λ _. k

-- `assert b`, and `if not b: raise ValueError`.
abbrev pub asserted : Bool → Checked (Unit {0})
asserted true = fine tt
asserted false = faulty assertion_error

abbrev pub required : Bool → Checked (Unit {0})
required true = fine tt
required false = faulty value_error

abbrev pub present {ℓ} : {A : Type ℓ} → Fault → Option A → Checked A
present e none = faulty e
present e (some a) = fine a

-- What a value that is returned says of each step.
pub >>=-fine {ℓ κ} :
    {A : Type ℓ} {B : Type κ} (m : Checked A) (f : A → Checked B) {b : B}
    → (m >>= f) ≡ fine b
    → (a : A) × (m ≡ fine a) × (f a ≡ fine b)
>>=-fine (fine a) f h = (a, refl, h)
>>=-fine (faulty e) f h = cc

pub asserted-fine {ℓ} :
    {A : Type ℓ} (b : Bool) (m : Checked A) {a : A}
    → (asserted b >> m) ≡ fine a
    → (b ≡ true) × (m ≡ fine a)
asserted-fine true m h = (refl, h)
asserted-fine false m h = cc

pub required-fine {ℓ} :
    {A : Type ℓ} (b : Bool) (m : Checked A) {a : A}
    → (required b >> m) ≡ fine a
    → (b ≡ true) × (m ≡ fine a)
required-fine true m h = (refl, h)
required-fine false m h = cc

pub fine-injective {ℓ} : {A : Type ℓ} {a b : A} → fine a ≡ fine b → a ≡ b
fine-injective h = cc

pub present-fine {ℓ} :
    {A : Type ℓ} (e : Fault) (o : Option A) {a : A} → present e o ≡ fine a → o ≡ some a
present-fine e none h = cc
present-fine e (some b) h = ap some (fine-injective h)

pub asserted-true : (b : Bool) {a : Unit} → asserted b ≡ fine a → b ≡ true
asserted-true true h = refl
asserted-true false h = cc
