-- ===== src/BTreeMap/Sorted.antt =====
-- The entries are sorted, and a map is determined by what its keys give.
use Prim.Native.Nat.{Ordering}
use resctl_demo.Prelude.{
  ◌≡◌, refl, sym, ap₂, ◌∙◌, subst, List, [], ◌∷◌, ◌++◌, none, some, Bool, true, arith, All, All-map,
  All-replace, if◌then◌else◌, ◌⊎◌, inl, inr, Option-cases,
}
use resctl_demo.Prelude.Order.{Ord, cmp_refl, lt-gt}
use resctl_demo.BTreeMap.{get, insert, remove, is_eq, is_some}

Ordering-cases : (c : Ordering) → (c ≡ Ordering.lt) ⊎ ((c ≡ Ordering.eq) ⊎ (c ≡ Ordering.gt))
Ordering-cases Ordering.lt = inl refl
Ordering-cases Ordering.eq = inr (inl refl)
Ordering-cases Ordering.gt = inr (inr refl)

module _ {ℓ κ} {K : Type ℓ} {V : Type κ} ⦃o : Ord K⦄ where
  -- `k` comes before every key of the map.
  abbrev pub Before : K → List (K × V) → Type 0
  Before k = All (λ e. o.cmp k e.0 ≡ Ordering.lt)

  abbrev pub After : K → List (K × V) → Type 0
  After k = All (λ e. o.cmp e.0 k ≡ Ordering.lt)

  abbrev pub IsSorted : List (K × V) → Type 0
  IsSorted [] = Unit
  IsSorted ((k, v) ∷ m) = Before k m × IsSorted m

  -- A key past all others goes to the end.
  pub insert_last : (k : K) (v : V) (m : List (K × V)) → After k m → insert k v m ≡ m ++ (k, v) ∷ []
  unfolding insert
  insert_last k v [] a = refl
  insert_last k v ((j, w) ∷ m) a = ground (arith, lt-gt j k, insert_last k v m a.1)

  Before-trans : (a b : K) (m : List (K × V)) → o.cmp a b ≡ Ordering.lt → Before b m → Before a m
  Before-trans a b m h = All-map _ _ m (λ e. o.trans a b e.0 h)

  pub get-Before : (k : K) (m : List (K × V)) → Before k m → get k m ≡ none
  unfolding get
  get-Before k [] b = refl
  get-Before k ((j, w) ∷ m) b = ground (arith, get-Before k m b.1)

  Before-insert :
      (a k : K) (v : V) (m : List (K × V))
      → o.cmp a k ≡ Ordering.lt
      → Before a m
      → Before a (insert k v m)
  unfolding insert
  Before-insert a k v [] h b = (h, tt)
  Before-insert a k v ((j, w) ∷ m) h b = ground (arith, Before-insert a k v m h b.1)

  pub insert-IsSorted : (k : K) (v : V) (m : List (K × V)) → IsSorted m → IsSorted (insert k v m)
  unfolding insert
  insert-IsSorted k v [] s = (tt, tt)
  insert-IsSorted k v ((j, w) ∷ m) s = ground (
    arith,
    o.flip k j,
    o.eq_iff k j,
    insert-IsSorted k v m s.1,
    Before-insert j k v m,
    Before-trans k j m,
  )

  pub All-insert {μ} :
      (P : K × V → Type μ) (k : K) (v : V) (m : List (K × V))
      → P (k, v)
      → All P m
      → All P (insert k v m)
  unfolding insert
  All-insert P k v [] h a = (h, tt)
  All-insert P k v ((j, w) ∷ m) h a = elim (Ordering-cases (o.cmp k j)) [
    | inl e ↦ rw (e, All) (h, a)
    | inr (inl e) ↦ rw (e, All) (h, a.1)
    | inr (inr e) ↦ rw (e, All) (a.0, All-insert P k v m h a.1)
  ]

  Before-remove : (a k : K) (m : List (K × V)) → Before a m → Before a (remove k m)
  unfolding remove
  Before-remove a k [] b = tt
  Before-remove a k ((j, w) ∷ m) b = ground (arith, Before-remove a k m b.1)

  pub remove-IsSorted : (k : K) (m : List (K × V)) → IsSorted m → IsSorted (remove k m)
  unfolding remove
  remove-IsSorted k [] s = tt
  remove-IsSorted k ((j, w) ∷ m) s =
      ground (arith, remove-IsSorted k m s.1, Before-remove j k m s.0)

  abbrev SameGets : List (K × V) → List (K × V) → Type (ℓ ⊔ κ)
  SameGets m n = (k : K) → get k m ≡ get k n

  same_head :
      (j i : K) (w u : V) (m n : List (K × V))
      → IsSorted ((j, w) ∷ m)
      → IsSorted ((i, u) ∷ n)
      → SameGets ((j, w) ∷ m) ((i, u) ∷ n)
      → (j ≡ i) × (w ≡ u)
  unfolding get
  same_head j i w u m n s t h = ground (
    arith,
    h j,
    h i,
    cmp_refl j,
    cmp_refl i,
    o.eq_iff j i,
    o.flip j i,
    Before-trans j i n,
    Before-trans i j m,
    get-Before j n,
    get-Before i m,
  )

  same_tail :
      (j : K) (w : V) (m n : List (K × V))
      → Before j m
      → Before j n
      → SameGets ((j, w) ∷ m) ((j, w) ∷ n)
      → SameGets m n
  unfolding get
  same_tail j w m n b c h k = ground (arith, h k, o.eq_iff k j, get-Before j m b, get-Before j n c)

  -- Two sorted maps with the same values at every key are equal.
  pub IsSorted-ext :
      (m n : List (K × V)) → IsSorted m → IsSorted n → ((k : K) → get k m ≡ get k n) → m ≡ n
  unfolding get
  IsSorted-ext [] [] s t h = refl
  IsSorted-ext [] ((i, u) ∷ n) s t h = ground (arith, h i, cmp_refl i)
  IsSorted-ext ((j, w) ∷ m) [] s t h = ground (arith, h j, cmp_refl j)
  IsSorted-ext ((j, w) ∷ m) ((i, u) ∷ n) s t h =
      let (e, f) = same_head j i w u m n s t h in
      let b : Before j n = subst (λ x. Before x n) (sym e) t.0 in
      let g : SameGets ((j, w) ∷ m) ((j, w) ∷ n) =
        λ k. h k ∙ ap₂ (λ x y. get k ((x, y) ∷ n)) (sym e) (sym f) in
      ap₂ (λ x y. x ∷ y) (λ i. (e i, f i)) (IsSorted-ext m n s.1 t.1 (same_tail j w m n s.0 b g))

  Before-middle :
      (a : K) (m : List (K × V)) (k : K) (v : V) (n : List (K × V))
      → Before a (m ++ (k, v) ∷ n)
      → o.cmp a k ≡ Ordering.lt
  Before-middle a [] k v n b = b.0
  Before-middle a (e ∷ m) k v n b = Before-middle a m k v n b.1

  -- What stands before an entry in a sorted map is before it.
  pub IsSorted-middle :
      (m : List (K × V)) (k : K) (v : V) (n : List (K × V)) → IsSorted (m ++ (k, v) ∷ n) → After k m
  IsSorted-middle [] k v n s = tt
  IsSorted-middle ((j, w) ∷ m) k v n s = (Before-middle j m k v n s.0, IsSorted-middle m k v n s.1)

  -- One more entry at the end.
  pub get-snoc :
      (k j : K) (v : V) (m : List (K × V))
      → get k (m ++ (j, v) ∷ [])
        ≡ (if is_some (get k m) then get k m else if is_eq (o.cmp k j) then some v else none)
  unfolding get
  get-snoc k j v [] = refl
  get-snoc k j v ((i, w) ∷ m) = ground (arith, get-snoc k j v m)

  pub IsSorted-replace :
      (m : List (K × V)) (k : K) (v w : V) (n : List (K × V))
      → IsSorted (m ++ (k, v) ∷ n)
      → IsSorted (m ++ (k, w) ∷ n)
  IsSorted-replace [] k v w n s = s
  IsSorted-replace ((j, u) ∷ m) k v w n s =
      (All-replace _ m (k, v) (k, w) n (λ h. h) s.0, IsSorted-replace m k v w n s.1)

  -- What holds of every key that is there, holds of every entry.
  pub All-keys :
      (f : K → Bool) (m : List (K × V))
      → ((k : K) → is_some (get k m) ≡ true → f k ≡ true)
      → All (λ e. f e.0 ≡ true) m
  unfolding get
  All-keys f [] h = tt
  All-keys f ((j, w) ∷ m) h =
      (h j (ground (arith, cmp_refl j)), All-keys f m (λ k g. h k (ground (arith, g))))

  -- An entry is before what all entries are before.
  pub get-After :
      (k j : K) (m : List (K × V)) (v : V) → After j m → get k m ≡ some v → o.cmp k j ≡ Ordering.lt
  unfolding get
  get-After k j [] v a h = cc
  get-After k j ((i, w) ∷ m) v a h = ground (arith, o.eq_iff k i, get-After k j m v a.1)

  pub After-none : (k : K) (m : List (K × V)) → After k m → get k m ≡ none
  After-none k m a = elim (Option-cases (get k m)) [
    | inl e ↦ e
    | inr (v, e) ↦ ground (arith, get-After k k m v a e, cmp_refl k)
  ]
