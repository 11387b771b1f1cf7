-- ===== src/Base/Results.antt =====
-- How a call ends: with a value, with an error that the caller propagates by `?`, or with a panic
-- (an index or a slice out of bounds, a failed assertion, an `unwrap` of `None`), or never, which
-- stands for a loop that uses up fuel that is enough for every run that ends.
use Prim.Native.Nat.{ℕ, zero, suc}
use mathlib.Core.Path.{◌≡◌, refl, subst}
use mathlib.Core.Bool.{Bool, true, false}
use mathlib.Core.Option.{Option, none, some}
use mathlib.Core.List.{List, [], ◌∷◌}

pub data Result {ℓ} (A : Type ℓ) : Type ℓ where
  ok : A → Result A
  err : Result A
  panic : Result A
  hang : Result A

infixl 5 ◌>>=◌ ◌>>◌
abbrev pub ◌>>=◌ {ℓ κ} : {A : Type ℓ} {B : Type κ} → Result A → (A → Result B) → Result B
ok a >>= f = f a
err >>= f = err
panic >>= f = panic
hang >>= f = hang

abbrev pub ◌>>◌ {ℓ} : {B : Type ℓ} → Result (Unit {0}) → Result B → Result B
m >> k = m >>= λ _. k

-- The call returns, and its value satisfies `P`.
abbrev pub Returns {ℓ} : {A : Type ℓ} → Result A → (A → Type 0) → Type 0
Returns (ok a) P = P a
Returns err P = ⊥
Returns panic P = ⊥
Returns hang P = ⊥

-- If the call returns, its value satisfies `P`.
abbrev pub Safe {ℓ} : {A : Type ℓ} → Result A → (A → Type 0) → Type 0
Safe (ok a) P = P a
Safe _ P = Unit

-- `xs[i]`
abbrev pub index {ℓ} : {A : Type ℓ} → List A → ℕ → Result A
index [] i = panic
index (x ∷ xs) zero = ok x
index (x ∷ xs) (suc i) = index xs i

-- `o.unwrap()`, and `o.context(…)?`
abbrev pub unwrap {ℓ} : {A : Type ℓ} → Option A → Result A
unwrap none = panic
unwrap (some a) = ok a

abbrev pub context {ℓ} : {A : Type ℓ} → Option A → Result A
context none = err
context (some a) = ok a

-- `assert!`
abbrev pub assert : Bool → Result (Unit {0})
assert true = ok tt
assert false = panic

-- Inversion of a result, and of what is made of an option.
pub ok_injective {ℓ} : {A : Type ℓ} {a b : A} → ok a ≡ ok b → a ≡ b
ok_injective h = cc

pub bind_inv :
    {A B : Type 0} (r : Result A) (f : A → Result B) (b : B)
    → (r >>= f) ≡ ok b
    → (a : A) × (r ≡ ok a) × (f a ≡ ok b)
bind_inv (ok a) f b e = (a, refl, e)
bind_inv err f b e = cc
bind_inv panic f b e = cc
bind_inv hang f b e = cc

pub context_inv :
    {A B : Type 0} (o : Option A) (f : A → B) (b : B)
    → (context o >>= λ a. ok (f a)) ≡ ok b
    → (a : A) × (o ≡ some a) × (f a ≡ b)
context_inv none f b e = cc
context_inv (some a) f b e = (a, refl, ok_injective e)

pub Safe-bind :
    {A B : Type 0} (P : A → Type 0) (Q : B → Type 0) (r : Result A) (f : A → Result B)
    → Safe r P
    → ((a : A) → P a → Safe (f a) Q)
    → Safe (r >>= f) Q
Safe-bind P Q (ok a) f p q = q a p
Safe-bind P Q err f p q = tt
Safe-bind P Q panic f p q = tt
Safe-bind P Q hang f p q = tt

pub Safe-any : {A : Type 0} (r : Result A) → Safe r (λ _. Unit)
Safe-any (ok a) = tt
Safe-any err = tt
Safe-any panic = tt
Safe-any hang = tt

pub Safe-mono :
    {A : Type 0} (P Q : A → Type 0) (r : Result A) → Safe r P → ((a : A) → P a → Q a) → Safe r Q
Safe-mono P Q (ok a) p f = f a p
Safe-mono P Q err p f = tt
Safe-mono P Q panic p f = tt
Safe-mono P Q hang p f = tt

pub Safe-apply : {A : Type 0} (P : A → Type 0) (r : Result A) (a : A) → Safe r P → r ≡ ok a → P a
Safe-apply P (ok b) a p e = subst P (ok_injective e) p
Safe-apply P err a p e = cc
Safe-apply P panic a p e = cc
Safe-apply P hang a p e = cc
