-- ===== src/Workqueue/Map.antt =====
-- The map `workers`, which is the list of its keys, and how often its operations leave a key.
use resctl_demo.Prelude.{
  ℕ, ◌<◌, ◌≡◌, List, [], ◌∷◌, Bool, true, false, arith, ◌==◌, if◌then◌else◌, count,
}

unfoldable pub contains_key : ℕ → List ℕ → Bool
contains_key id [] = false
contains_key id (k ∷ ks) = if k == id then true else contains_key id ks

unfoldable pub remove : ℕ → List ℕ → List ℕ
remove id [] = []
remove id (k ∷ ks) = let rest = remove id ks in if k == id then rest else k ∷ rest

unfoldable pub insert : ℕ → List ℕ → List ℕ
unfolding contains_key
insert id ks = if contains_key id ks then ks else id ∷ ks

pub contains_key-pos : (id : ℕ) (ks : List ℕ) → contains_key id ks ≡ true → 0 < count id ks
unfolding contains_key
contains_key-pos id [] h = cc
contains_key-pos id (k ∷ ks) h = ground (arith, contains_key-pos id ks)

pub pos-contains_key : (id : ℕ) (ks : List ℕ) → 0 < count id ks → contains_key id ks ≡ true
unfolding contains_key
pos-contains_key id [] h = absurd (omega arith)
pos-contains_key id (k ∷ ks) h = ground (arith, pos-contains_key id ks)

pub count-remove :
    (a id : ℕ) (ks : List ℕ) → count a (remove id ks) ≡ (if id == a then 0 else count a ks)
unfolding remove
count-remove a id [] = ground arith
count-remove a id (k ∷ ks) = ground (arith, count-remove a id ks)

pub count-insert :
    (a id : ℕ) (ks : List ℕ)
    → count id ks ≡ 0
    → count a (insert id ks) ≡ (if id == a then 1 else count a ks)
unfolding insert
count-insert a id ks h = ground (arith, contains_key-pos id ks)
