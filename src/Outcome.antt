-- ===== src/Outcome.antt =====
-- Code that may panic. `none` is the panic: the node stops there (it is fail-stop), so nothing
-- after it runs.
use mathlib.Core.Path.{subst}
use rust_kv.Base.{◌≡◌, refl, Bool, true, false, Option, none, some, if◌then◌else◌}

infixl 5 ◌>>=◌
abbrev pub ◌>>=◌ {ℓ κ} : {A : Type ℓ} {B : Type κ} → Option A → (A → Option B) → Option B
none >>= f = none
some a >>= f = f a

-- `assert!(b)`
abbrev pub assert {ℓ} : {A : Type ℓ} → Bool → A → Option A
assert true a = some a
assert false a = none

-- The code returns, and what it returns satisfies `P`.
pub data Returns {ℓ κ} {A : Type ℓ} (P : A → Type κ) : Option A → Type (ℓ ⊔ κ) where
  returns : {a : A} → P a → Returns P (some a)

-- What the code returns, if it does not panic, satisfies `P`.
pub record Ensures {ℓ κ} {A : Type ℓ} (P : A → Type κ) (m : Option A) : Type (ℓ ⊔ κ) where
  pub at : (a : A) → m ≡ some a → P a

module _ {ℓ κ} {A : Type ℓ} {P : A → Type κ} where
  pub Returns-some : (a : A) → P a → Returns P (some a)
  Returns-some a h = returns h

  pub Returns-of_eq : (m : Option A) (a : A) → m ≡ some a → P a → Returns P m
  Returns-of_eq none a e h = cc
  Returns-of_eq (some b) a e h = let p : a ≡ b = cc in returns (subst P p h)

  pub Returns-at : (m : Option A) (a : A) → Returns P m → m ≡ some a → P a
  Returns-at none a h e = elim h [ ]
  Returns-at (some b) a (returns h) e = let p : b ≡ a = cc in subst P p h

  pub Returns-if :
      (b : Bool) (m n : Option A)
      → (b ≡ true → Returns P m)
      → (b ≡ false → Returns P n)
      → Returns P (if b then m else n)
  Returns-if true m n hm hn = hm refl
  Returns-if false m n hm hn = hn refl

  pub Ensures-some : (a : A) → P a → Ensures P (some a)
  Ensures-some a h = record { at = λ b e. let p : a ≡ b = cc in subst P p h }

  pub Ensures-none : Ensures P none
  Ensures-none = record { at = λ b e. cc }

  pub Ensures-if :
      (b : Bool) (m n : Option A)
      → (b ≡ true → Ensures P m)
      → (b ≡ false → Ensures P n)
      → Ensures P (if b then m else n)
  Ensures-if true m n hm hn = hm refl
  Ensures-if false m n hm hn = hn refl

module _ {ℓ κ μ ν} {A : Type ℓ} {B : Type κ} {P : A → Type μ} {Q : B → Type ν} where
  pub Returns-bind :
      {m : Option A} {f : A → Option B}
      → Returns P m
      → ((a : A) → P a → Returns Q (f a))
      → Returns Q (m >>= f)
  Returns-bind (returns {a = a} p) h = h a p

  pub Ensures-bind :
      {m : Option A} {f : A → Option B}
      → Ensures P m
      → ((a : A) → P a → Ensures Q (f a))
      → Ensures Q (m >>= f)
  Ensures-bind {m = none} p h = record { at = λ b e. cc }
  Ensures-bind {m = some a} p h = h a (p.at a refl)

module _ {ℓ κ μ} {A : Type ℓ} {P : A → Type κ} {Q : A → Type μ} where
  -- What returns, and ensures, does both.
  pub Returns-both : {m : Option A} → Returns P m → Ensures Q m → Returns (λ a. P a × Q a) m
  Returns-both (returns {a = a} p) e = returns (p, e.at a refl)

  pub Ensures-map : {m : Option A} → Ensures P m → ((a : A) → P a → Q a) → Ensures Q m
  Ensures-map e h = record { at = λ a q. h a (e.at a q) }

  pub Returns-map : {m : Option A} → Returns P m → ((a : A) → P a → Q a) → Returns Q m
  Returns-map (returns {a = a} p) h = returns (h a p)
