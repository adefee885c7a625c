-- ===== src/Base/Panics.antt =====
-- Calls that may panic only where a test is true.
use mathlib.Core.Path.{◌≡◌, refl}
use mathlib.Core.Bool.{Bool, true, false, ◌||◌}
use mathlib.Core.Option.{Option, none, some}
use galene.Base.Tests.{Every, ◌>>=◌}

-- The call returns with `P`, or it panics, and then the test is true.
abbrev pub Unless {ℓ} : {A : Type ℓ} → Bool → (A → Type 0) → Option A → Type 0
Unless b P none = b ≡ true
Unless b P (some a) = P a

or-left : (b c : Bool) → b ≡ true → (b || c) ≡ true
or-left true c h = refl
or-left false c h = cc

or-right : (b c : Bool) → c ≡ true → (b || c) ≡ true
or-right true c h = refl
or-right false c h = h

Unless-weaken {ℓ} :
    {A : Type ℓ} (b c : Bool) (P : A → Type 0) (o : Option A) → Unless c P o → Unless (b || c) P o
Unless-weaken b c P none h = or-right b c h
Unless-weaken b c P (some a) h = h

pub Unless->>= {ℓ κ} :
    {A : Type ℓ} {B : Type κ} (b c : Bool) (Q : A → Type 0) (P : B → Type 0) (m : Option A)
    (f : A → Option B)
    → Unless b Q m
    → ((a : A) → Q a → Unless c P (f a))
    → Unless (b || c) P (m >>= f)
Unless->>= b c Q P none f h k = or-left b c h
Unless->>= b c Q P (some a) f h k = Unless-weaken b c P (f a) (k a h)

pub Unless-map {ℓ κ} :
    {A : Type ℓ} {B : Type κ} (b : Bool) (Q : A → Type 0) (P : B → Type 0) (m : Option A)
    (f : A → B)
    → Unless b Q m
    → ((a : A) → Q a → P (f a))
    → Unless b P (m >>= λ a. some (f a))
Unless-map b Q P none f h k = h
Unless-map b Q P (some a) f h k = k a h

pub Unless-Every {ℓ} : {A : Type ℓ} (P : A → Type 0) (o : Option A) → Every P o → Unless true P o
Unless-Every P none h = refl
Unless-Every P (some a) h = h
