-- ===== src/Base/Tests.antt =====
-- Go's comparisons of unsigned numbers, its conditional, and the chain of calls that may panic.
use Prim.Native.Nat.{ℕ, ◌<◌, compare, Ordering}
use mathlib.Core.Path.{◌≡◌, refl, subst}
use mathlib.Core.Logic.{◌↔◌, ◌⊎◌, inl, inr}
use mathlib.Core.Bool.{not, Bool, true, false}
use mathlib.Core.Option.{Option, none, some, some-injective}
use native.Mathlib.Omega.{arith}

abbrev pub ltb : ℕ → ℕ → Bool
ltb a b = elim (compare a b) [ Ordering.lt ↦ true | _ ↦ false ]

abbrev pub leb : ℕ → ℕ → Bool
leb a b = elim (compare a b) [ Ordering.gt ↦ false | _ ↦ true ]

infix 50 ◌==◌
abbrev pub ◌==◌ : ℕ → ℕ → Bool
a == b = elim (compare a b) [ Ordering.eq ↦ true | _ ↦ false ]

infix 1 if◌then◌else◌
abbrev pub if◌then◌else◌ {ℓ} : {A : Type ℓ} → Bool → A → A → A
if true then x else y = x
if false then x else y = y

pub ltb→lt : (a b : ℕ) → ltb a b ≡ true → a < b
ltb→lt a b h = ground arith

pub lt→ltb : (a b : ℕ) → a < b → ltb a b ≡ true
lt→ltb a b h = ground arith

pub double_negation : (b : Bool) → not b ≡ false → b ≡ true
double_negation true h = refl
double_negation false h = cc

pub ==_iff : (a b : ℕ) → ((a == b) ≡ true) ↔ (a ≡ b)
==_iff a b = ground arith

pub Bool-cases : (b : Bool) → (b ≡ true) ⊎ (b ≡ false)
Bool-cases true = inl refl
Bool-cases false = inr refl

pub Option-cases {ℓ} : {A : Type ℓ} (o : Option A) → (o ≡ none) ⊎ ((a : A) × (o ≡ some a))
Option-cases none = inl refl
Option-cases (some a) = inr (a, refl)

-- `none` is a panic: an index or a slice out of range, or a division by zero.
infixl 5 ◌>>=◌
abbrev pub ◌>>=◌ {ℓ κ} : {A : Type ℓ} {B : Type κ} → Option A → (A → Option B) → Option B
none >>= f = none
some a >>= f = f a

pub >>=-eq-some {ℓ κ} :
    {A : Type ℓ} {B : Type κ} (m : Option A) (f : A → Option B) {b : B}
    → (m >>= f) ≡ some b
    → (a : A) × (m ≡ some a) × (f a ≡ some b)
>>=-eq-some none f h = absurd (grind arith)
>>=-eq-some (some a) f h = (a, refl, h)

-- The call returns, and its result satisfies `P`.
abbrev pub Returns {ℓ} : {A : Type ℓ} → (A → Type 0) → Option A → Type 0
Returns P none = ⊥
Returns P (some a) = P a

pub Returns->>= {ℓ κ} :
    {A : Type ℓ} {B : Type κ} (P : A → Type 0) (Q : B → Type 0) (m : Option A) (f : A → Option B)
    → Returns P m
    → ((a : A) → P a → Returns Q (f a))
    → Returns Q (m >>= f)
Returns->>= P Q none f h k = absurd h
Returns->>= P Q (some a) f h k = k a h

pub Returns-mono {ℓ} :
    {A : Type ℓ} (P Q : A → Type 0) (o : Option A)
    → ((a : A) → P a → Q a)
    → Returns P o
    → Returns Q o
Returns-mono P Q none f h = absurd h
Returns-mono P Q (some a) f h = f a h

pub Returns-some {ℓ} :
    {A : Type ℓ} (P : A → Type 0) (o : Option A) {a : A} → o ≡ some a → Returns P o → P a
Returns-some P none e h = absurd h
Returns-some P (some b) e h = subst P (some-injective b _ e) h

pub Returns-× {ℓ} :
    {A : Type ℓ} (P Q : A → Type 0) (o : Option A)
    → Returns P o
    → Returns Q o
    → Returns (λ a. P a × Q a) o
Returns-× P Q none h k = h
Returns-× P Q (some a) h k = (h, k)

-- A call that returns has what every result of it has.
pub Returns-every {ℓ} :
    {A : Type ℓ} (P Q : A → Type 0) (o : Option A)
    → Returns P o
    → ((a : A) → o ≡ some a → Q a)
    → Returns Q o
Returns-every P Q none h f = h
Returns-every P Q (some a) h f = f a refl

-- A test: what holds on both branches.
pub Returns-branch {ℓ} :
    {A : Type ℓ} (P : A → Type 0) (c : Bool) (x y : Option A)
    → (c ≡ true → Returns P x)
    → (c ≡ false → Returns P y)
    → Returns P (if c then x else y)
Returns-branch P true x y h k = h refl
Returns-branch P false x y h k = k refl

-- If the call returns, its result satisfies `P`.
abbrev pub Every {ℓ} : {A : Type ℓ} → (A → Type 0) → Option A → Type 0
Every P none = Unit
Every P (some a) = P a

pub Every->>= {ℓ κ} :
    {A : Type ℓ} {B : Type κ} (P : B → Type 0) (m : Option A) (f : A → Option B)
    → ((a : A) → m ≡ some a → Every P (f a))
    → Every P (m >>= f)
Every->>= P none f h = tt
Every->>= P (some a) f h = h a refl

pub Every-branch {ℓ} :
    {A : Type ℓ} (P : A → Type 0) (c : Bool) (x y : Option A)
    → (c ≡ true → Every P x)
    → (c ≡ false → Every P y)
    → Every P (if c then x else y)
Every-branch P true x y h k = h refl
Every-branch P false x y h k = k refl

pub Every-some {ℓ} :
    {A : Type ℓ} (P : A → Type 0) (o : Option A) (a : A) → o ≡ some a → Every P o → P a
Every-some P none a e h = cc
Every-some P (some b) a e h = subst P (some-injective b a e) h

pub Every-mono {ℓ} :
    {A : Type ℓ} (P Q : A → Type 0) (o : Option A) → ((a : A) → P a → Q a) → Every P o → Every Q o
Every-mono P Q none f h = tt
Every-mono P Q (some a) f h = f a h
