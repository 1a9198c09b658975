-- ===== src/Common/Options.antt =====
-- What holds of a result where there is one.
use mathlib.Core.Path.{◌≡◌, refl, ap, subst}
use mathlib.Core.Option.{Option, none, some}
use mathlib.Core.Option

module _ {ℓ κ} {A : Type ℓ} (P : A → Type κ) where
  abbrev pub AllSome : Option A → Type κ
  AllSome none = Unit
  AllSome (some x) = P x

  pub AllSome-elim : {o : Option A} {x : A} → AllSome o → o ≡ some x → P x
  AllSome-elim {o} {x} h e = subst AllSome e h

-- A result is there.
abbrev pub Returns {ℓ} : {A : Type ℓ} → Option A → Type ℓ
Returns {A = A} o = (x : A) × (o ≡ some x)

pub Returns-map {ℓ κ} :
    {A : Type ℓ} {B : Type κ} (f : A → B) (o : Option A) → Returns o → Returns (Option.map f o)
Returns-map f o (x, e) = (f x, ap (Option.map f) e)

-- A map keeps what holds where each step does.
pub AllSome-map {ℓ κ μ ν} :
    {A : Type ℓ} {B : Type κ} (P : A → Type μ) (Q : B → Type ν) (f : A → B) (o : Option A)
    → ((x : A) → P x → Q (f x))
    → AllSome P o
    → AllSome Q (Option.map f o)
AllSome-map P Q f none step h = tt
AllSome-map P Q f (some x) step h = step x h

pub AllSome-intro {ℓ κ} :
    {A : Type ℓ} (P : A → Type κ) (o : Option A) → ((x : A) → o ≡ some x → P x) → AllSome P o
AllSome-intro P none h = tt
AllSome-intro P (some x) h = h x refl

pub AllSome-weaken {ℓ κ μ} :
    {A : Type ℓ} (P : A → Type κ) (Q : A → Type μ) (o : Option A)
    → ((x : A) → P x → Q x)
    → AllSome P o
    → AllSome Q o
AllSome-weaken P Q none step h = tt
AllSome-weaken P Q (some x) step h = step x h
