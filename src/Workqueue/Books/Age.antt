-- ===== src/Workqueue/Books/Age.antt =====
-- The idle list is ordered by age, so what has timed out is at its back.
use resctl_demo.Prelude.{
  ℕ, ◌-◌, ◌≤◌, ◌≡◌, refl, List, [], ◌∷◌, ◌++◌, true, false, arith, ltb, if◌then◌else◌, count,
}
use resctl_demo.Workqueue.{WorkerHandle}
use resctl_demo.Workqueue.Invariant.{Recent}

-- What has not timed out, of workers with the activity times `at`.
abbrev pub fresh_only : (ℕ → ℕ) → ℕ → ℕ → List ℕ → List ℕ
fresh_only at timeout now [] = []
fresh_only at timeout now (x ∷ xs) =
    if ltb (now - at x) timeout
    then x ∷ fresh_only at timeout now xs
    else fresh_only at timeout now xs

pub Recent-last :
    (h : ℕ → WorkerHandle) (bound : ℕ) (xs : List ℕ) (y : ℕ)
    → Recent h bound (xs ++ y ∷ [])
    → (h y).last_active_at ≤ bound
Recent-last h bound [] y r = r.0
Recent-last h bound (x ∷ xs) y r = omega (arith, Recent-last h (h x).last_active_at xs y r.1)

pub Recent-init :
    (h : ℕ → WorkerHandle) (bound : ℕ) (xs : List ℕ) (y : ℕ)
    → Recent h bound (xs ++ y ∷ [])
    → Recent h bound xs
Recent-init h bound [] y r = tt
Recent-init h bound (x ∷ xs) y r = (r.0, Recent-init h (h x).last_active_at xs y r.1)

pub Recent-same :
    (h g : ℕ → WorkerHandle) (bound : ℕ) (xs : List ℕ)
    → ((x : ℕ) → (g x).last_active_at ≡ (h x).last_active_at)
    → Recent h bound xs
    → Recent g bound xs
Recent-same h g bound [] same r = tt
Recent-same h g bound (x ∷ xs) same r =
    (omega (arith, same x), rw (same x) (Recent-same h g _ xs same r.1))

pub fresh_only-same :
    (at at' : ℕ → ℕ) (timeout now : ℕ) (xs : List ℕ)
    → ((x : ℕ) → at' x ≡ at x)
    → fresh_only at' timeout now xs ≡ fresh_only at timeout now xs
fresh_only-same at at' timeout now [] same = refl
fresh_only-same at at' timeout now (x ∷ xs) same =
    ground (arith, same x, fresh_only-same at at' timeout now xs same)

-- With a stale worker at the back, the back goes.
pub fresh_only-stale :
    (at : ℕ → ℕ) (timeout now : ℕ) (xs : List ℕ) (y : ℕ)
    → ltb (now - at y) timeout ≡ false
    → fresh_only at timeout now (xs ++ y ∷ []) ≡ fresh_only at timeout now xs
fresh_only-stale at timeout now [] y h = rw h
fresh_only-stale at timeout now (x ∷ xs) y h =
    ground (arith, fresh_only-stale at timeout now xs y h)

-- With a fresh one there, the list stays whole, since the others are younger.
pub fresh_only-fresh :
    (h : ℕ → WorkerHandle) (timeout now bound : ℕ) (xs : List ℕ) (y : ℕ)
    → Recent h bound (xs ++ y ∷ [])
    → ltb (now - (h y).last_active_at) timeout ≡ true
    → fresh_only (λ x. (h x).last_active_at) timeout now (xs ++ y ∷ []) ≡ xs ++ y ∷ []
fresh_only-fresh h timeout now bound [] y r f = rw f
fresh_only-fresh h timeout now bound (x ∷ xs) y r f = ground (
  arith,
  Recent-last h (h x).last_active_at xs y r.1,
  fresh_only-fresh h timeout now (h x).last_active_at xs y r.1 f,
)

pub count-fresh_only :
    (at : ℕ → ℕ) (timeout now a : ℕ) (xs : List ℕ)
    → count a (fresh_only at timeout now xs) ≤ count a xs
count-fresh_only at timeout now a [] = omega arith
count-fresh_only at timeout now a (x ∷ xs) = ground (arith, count-fresh_only at timeout now a xs)
