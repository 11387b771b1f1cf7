-- ===== src/Base/Extends.antt =====
-- Lists that begin with another list.
use Prim.Native.Nat.{ℕ, zero, suc, ◌+◌, ◌≤◌, ◌<◌}
use mathlib.Core.Path.{◌≡◌, refl, sym, ap, ◌∙◌}
use mathlib.Core.List.{List, [], ◌∷◌, ◌++◌, append_assoc, append-nil}
use native.Mathlib.Omega.{arith}
use packetry.Base.Lists.{length, get_or, take, drop, length-append}
use packetry.Base.Sorted.{get_or-append_left}

-- `ys` begins with `xs`.
abbrev pub Extends {ℓ} : {A : Type ℓ} → List A → List A → Type ℓ
Extends {A} xs ys = (zs : List A) × (ys ≡ xs ++ zs)

pub Extends-more {ℓ} : {A : Type ℓ} (xs ys l : List A) → Extends xs ys → Extends xs (ys ++ l)
Extends-more xs ys l (zs, e) = (zs ++ l, ap (λ k. k ++ l) e ∙ append_assoc xs zs l)

pub Extends-self {ℓ} : {A : Type ℓ} (xs : List A) → Extends xs xs
Extends-self xs = ([], sym (append-nil xs))

-- One value more.
pub Extends-last {ℓ} : {A : Type ℓ} (xs : List A) (x : A) → Extends xs (xs ++ (x ∷ []))
Extends-last xs x = (x ∷ [], refl)

pub Extends-length : (xs ys : List ℕ) → Extends xs ys → length xs ≤ length ys
Extends-length xs ys (zs, e) = omega (arith, ap length e, length-append xs zs)

-- What stands in the beginning stays.
pub Extends-get_or :
    (xs ys : List ℕ) (i : ℕ) → Extends xs ys → i < length xs → get_or ys i 0 ≡ get_or xs i 0
Extends-get_or xs ys i (zs, e) h = ap (λ l. get_or l i 0) e ∙ get_or-append_left xs zs i h

pub take-append_left : (n : ℕ) (xs ys : List ℕ) → n ≤ length xs → take n (xs ++ ys) ≡ take n xs
take-append_left zero xs ys h = refl
take-append_left (suc n) [] ys h = elim h [ ]
take-append_left (suc n) (x ∷ xs) ys h = ap (λ l. x ∷ l) (take-append_left n xs ys (omega arith))

take-drop-append :
    (n s : ℕ) (xs ys : List ℕ) → s + n ≤ length xs → take n (drop s (xs ++ ys)) ≡ take n (drop s xs)
take-drop-append n zero xs ys h = take-append_left n xs ys (omega arith)
take-drop-append n (suc s) [] ys h = absurd (omega arith)
take-drop-append n (suc s) (x ∷ xs) ys h = take-drop-append n s xs ys (omega arith)

pub Extends-take-drop :
    (n s : ℕ) (xs ys : List ℕ)
    → Extends xs ys
    → s + n ≤ length xs
    → take n (drop s ys) ≡ take n (drop s xs)
Extends-take-drop n s xs ys (zs, e) h = ap (λ l. take n (drop s l)) e ∙ take-drop-append n s xs zs h
