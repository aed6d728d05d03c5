-- ===== src/Prelude/Lists.antt =====
-- Lists measured, indexed and counted by native numbers, and maps as functions on numbers.
use mathlib.Core.Path.{◌≡◌, refl, ap}
use mathlib.Core.List.{List, [], ◌∷◌, ◌++◌}
use mathlib.Core.List.{reverse, reverse-cons}
use Prim.Native.Nat.{ℕ, zero, suc, ◌+◌, ◌-◌, min}
use native.Mathlib.Omega.{arith}
use resctl_demo.Prelude.Tests.{◌==◌, if◌then◌else◌}

module _ {ℓ} {A : Type ℓ} where
  abbrev pub length : List A → ℕ
  length [] = 0
  length (x ∷ xs) = suc (length xs)

  pub length-append : (xs ys : List A) → length (xs ++ ys) ≡ length xs + length ys
  length-append [] ys = omega arith
  length-append (x ∷ xs) ys = omega (arith, length-append xs ys)

  pub length-reverse : (xs : List A) → length (reverse xs) ≡ length xs
  length-reverse [] = refl
  length-reverse (x ∷ xs) =
      omega (
        arith,
        ap length (reverse-cons x xs),
        length-append (reverse xs) (x ∷ []),
        length-reverse xs,
      )

  abbrev pub take : ℕ → List A → List A
  take zero xs = []
  take (suc n) [] = []
  take (suc n) (x ∷ xs) = x ∷ take n xs

  abbrev pub drop : ℕ → List A → List A
  drop zero xs = xs
  drop (suc n) [] = []
  drop (suc n) (x ∷ xs) = drop n xs

  pub take-append-drop : (n : ℕ) (xs : List A) → take n xs ++ drop n xs ≡ xs
  take-append-drop zero xs = refl
  take-append-drop (suc n) [] = refl
  take-append-drop (suc n) (x ∷ xs) = ap (λ r. x ∷ r) (take-append-drop n xs)

  pub length-take : (n : ℕ) (xs : List A) → length (take n xs) ≡ min n (length xs)
  length-take zero xs = omega arith
  length-take (suc n) [] = omega arith
  length-take (suc n) (x ∷ xs) = omega (arith, length-take n xs)

  pub length-drop : (n : ℕ) (xs : List A) → length (drop n xs) ≡ length xs - n
  length-drop zero xs = omega arith
  length-drop (suc n) [] = omega arith
  length-drop (suc n) (x ∷ xs) = omega (arith, length-drop n xs)

-- A predicate on every entry. It computes to a tuple.
abbrev pub All {ℓ κ} : {E : Type ℓ} (P : E → Type κ) → List E → Type κ
All P (e ∷ es) = P e × All P es
All P [] = Unit

abbrev pub count : ℕ → List ℕ → ℕ
count a [] = 0
count a (x ∷ xs) = if x == a then suc (count a xs) else count a xs

pub count-append : (a : ℕ) (xs ys : List ℕ) → count a (xs ++ ys) ≡ count a xs + count a ys
count-append a [] ys = omega arith
count-append a (x ∷ xs) ys = ground (arith, count-append a xs ys)

pub count-reverse : (a : ℕ) (xs : List ℕ) → count a (reverse xs) ≡ count a xs
count-reverse a [] = refl
count-reverse a (x ∷ xs) = ground (
  arith,
  ap (count a) (reverse-cons x xs),
  count-append a (reverse xs) (x ∷ []),
  count-reverse a xs,
)

-- A finite map that is total: `update f k v` is `f` but for `v` at `k`.
abbrev pub update {ℓ} : {A : Type ℓ} → (ℕ → A) → ℕ → A → ℕ → A
update f k v j = if k == j then v else f j

pub All-map {ℓ κ μ} :
    {A : Type ℓ} (P : A → Type κ) (Q : A → Type μ) (xs : List A)
    → ((x : A) → P x → Q x)
    → All P xs
    → All Q xs
All-map P Q [] f h = tt
All-map P Q (x ∷ xs) f h = (f x h.0, All-map P Q xs f h.1)

pub All-append {ℓ κ} :
    {E : Type ℓ} (P : E → Type κ) (left right : List E)
    → All P left
    → All P right
    → All P (left ++ right)
All-append P (e ∷ left) right h k = (h.0, All-append P left right h.1 k)
All-append P [] right h k = k

-- One entry is replaced by another one.
pub All-replace {ℓ κ} :
    {E : Type ℓ} (P : E → Type κ) (left : List E) (e e' : E) (right : List E)
    → (P e → P e')
    → All P (left ++ e ∷ right)
    → All P (left ++ e' ∷ right)
All-replace P [] e e' right f h = (f h.0, h.1)
All-replace P (x ∷ left) e e' right f h = (h.0, All-replace P left e e' right f h.1)
