-- ===== src/Text/Split.antt =====
-- `str::split` and `str::splitn(2, _)` at one character.
use resctl_demo.Prelude.{
  ℕ, ◌≡◌, refl, List, [], ◌∷◌, ◌++◌, arith, ◌==◌, if◌then◌else◌, count, suc, length,
}

-- The first piece, with one more character before it.
unfoldable pub push_first : ℕ → List (List ℕ) → List (List ℕ)
push_first c [] = (c ∷ []) ∷ []
push_first c (p ∷ ps) = (c ∷ p) ∷ ps

unfoldable pub split : ℕ → List ℕ → List (List ℕ)
unfolding push_first
split sep [] = [] ∷ []
split sep (c ∷ cs) = let rest = split sep cs in if c == sep then [] ∷ rest else push_first c rest

unfoldable pub splitn_two : ℕ → List ℕ → List (List ℕ)
unfolding push_first
splitn_two sep [] = [] ∷ []
splitn_two sep (c ∷ cs) =
    let rest = splitn_two sep cs in if c == sep then [] ∷ cs ∷ [] else push_first c rest

-- A piece without the separator comes out whole.
pub split-append :
    (sep : ℕ) (a rest : List ℕ) → count sep a ≡ 0 → split sep (a ++ sep ∷ rest) ≡ a ∷ split sep rest
unfolding split
split-append sep [] rest h = ground arith
split-append sep (c ∷ a) rest h = ground (arith, split-append sep a rest)

pub split_last : (sep : ℕ) (a : List ℕ) → count sep a ≡ 0 → split sep a ≡ a ∷ []
unfolding split
split_last sep [] h = refl
split_last sep (c ∷ a) h = ground (arith, split_last sep a)

pub splitn_two-append :
    (sep : ℕ) (a rest : List ℕ) → count sep a ≡ 0 → splitn_two sep (a ++ sep ∷ rest) ≡ a ∷ rest ∷ []
unfolding splitn_two
splitn_two-append sep [] rest h = ground arith
splitn_two-append sep (c ∷ a) rest h = ground (arith, splitn_two-append sep a rest)

pub splitn_two_last : (sep : ℕ) (a : List ℕ) → count sep a ≡ 0 → splitn_two sep a ≡ a ∷ []
unfolding splitn_two
splitn_two_last sep [] h = refl
splitn_two_last sep (c ∷ a) h = ground (arith, splitn_two_last sep a)

push_first-append :
    (c n : ℕ) (ps qs : List (List ℕ))
    → length ps ≡ suc n
    → push_first c (ps ++ qs) ≡ push_first c ps ++ qs
unfolding push_first
push_first-append c n [] qs h = absurd (omega arith)
push_first-append c n (p ∷ ps) qs h = refl

-- The pieces of a text are as many as its separators, and one more.
pub length-split : (sep : ℕ) (a : List ℕ) → length (split sep a) ≡ suc (count sep a)
unfolding split push_first
length-split sep [] = refl
length-split sep (c ∷ a) = ground (arith, length-split sep a)

pub split_middle : (sep : ℕ) (a b : List ℕ) → split sep (a ++ sep ∷ b) ≡ split sep a ++ split sep b
unfolding split
split_middle sep [] b = ground arith
split_middle sep (c ∷ a) b = ground (
  arith,
  split_middle sep a b,
  push_first-append c (count sep a) (split sep a) (split sep b) (length-split sep a),
)
