-- ===== src/Prelude/Results.antt =====
-- What holds of the value of a fallible result, if it has one.
use mathlib.Core.Path.{◌≡◌, refl, subst}
use mathlib.Core.Bool.{Bool, true, false}
use mathlib.Core.Option.{Option, none, some, some-injective}
use dagon_fs.Prelude.Tests.{if◌then◌else◌, ◌>>=◌}

abbrev pub Each {ℓ κ} : {B : Type ℓ} → (B → Type κ) → Option B → Type (ℓ ⊔ κ)
Each {B = B} P o = (q : B) → o ≡ some q → P q

module _ {ℓ κ} {B : Type ℓ} (P : B → Type κ) where
  pub Each-some : (p : B) → P p → Each P (some p)
  Each-some p h q e = subst P (some-injective _ _ e) h

  pub Each-if : (b : Bool) (o r : Option B) → Each P o → Each P r → Each P (if b then o else r)
  Each-if true o r h h' = h
  Each-if false o r h h' = h'

  pub Each-if_eq :
      (b : Bool) (o r : Option B)
      → (b ≡ true → Each P o)
      → (b ≡ false → Each P r)
      → Each P (if b then o else r)
  Each-if_eq true o r h h' = h refl
  Each-if_eq false o r h h' = h' refl

  pub Each-bind {ι} :
      {A : Type ι} (m : Option A) (k : A → Option B)
      → ((a : A) → m ≡ some a → Each P (k a))
      → Each P (m >>= k)
  Each-bind none k h q e = cc
  Each-bind (some a) k h q e = h a refl q e

  pub Each-elim {ι} :
      {A : Type ι} (m : Option A) (r : Option B) (k : A → Option B)
      → Each P r
      → ((a : A) → m ≡ some a → Each P (k a))
      → Each P (elim m [ none ↦ r | some a ↦ k a ])
  Each-elim none r k h h' = h
  Each-elim (some a) r k h h' = h' a refl

-- A value behind a test says that the test holds.
pub tested {ℓ} :
    {A : Type ℓ} (b : Bool) (o : Option A) (x : A) → (if b then o else none) ≡ some x → b ≡ true
tested true o x e = refl
tested false o x e = cc e
