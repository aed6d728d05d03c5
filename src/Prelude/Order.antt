-- ===== src/Prelude/Order.antt =====
-- A total order, as Rust's `Ord` has it: an interface of one operation and its laws.
use Prim.Native.Nat.{compare, Ordering}
use mathlib.Core.Path.{◌≡◌, refl, ap}
use mathlib.Core.Logic.{◌↔◌}
use native.Mathlib.Omega.{arith}
use Prim.Native.Nat.{ℕ}
use mathlib.Core.Option.{Option, none, some}

pub record Ord {ℓ} (K : Type ℓ) : Type ℓ where
  pub cmp : K → K → Ordering
  pub eq_iff : (a b : K) → (cmp a b ≡ Ordering.eq) ↔ (a ≡ b)
  pub flip : (a b : K) → cmp a b ≡ Ordering.gt → cmp b a ≡ Ordering.lt
  pub trans : (a b c : K) → cmp a b ≡ Ordering.lt → cmp b c ≡ Ordering.lt → cmp a c ≡ Ordering.lt

pub compare-eq_iff : (a b : ℕ) → (compare a b ≡ Ordering.eq) ↔ (a ≡ b)
compare-eq_iff a b = ground arith

pub compare-flip : (a b : ℕ) → compare a b ≡ Ordering.gt → compare b a ≡ Ordering.lt
compare-flip a b h = ground arith

pub compare_trans :
    (a b c : ℕ) → compare a b ≡ Ordering.lt → compare b c ≡ Ordering.lt → compare a c ≡ Ordering.lt
compare_trans a b c h k = ground arith

module _ {ℓ} {K : Type ℓ} ⦃o : Ord K⦄ where
  pub cmp_refl : (a : K) → o.cmp a a ≡ Ordering.eq
  cmp_refl a = (o.eq_iff a a).1 refl

  pub lt-gt : (a b : K) → o.cmp a b ≡ Ordering.lt → o.cmp b a ≡ Ordering.gt
  lt-gt a b h = ground (arith, o.eq_iff b a, o.trans a b a, cmp_refl a)

instance abbrev pub ℕ_ord : Ord ℕ
ℕ_ord = record {
  cmp = compare;
  eq_iff = compare-eq_iff;
  flip = compare-flip;
  trans = compare_trans;
}

-- The first ordering, or else the second one.
abbrev pub or_then : Ordering → Ordering → Ordering
or_then Ordering.eq o = o
or_then Ordering.lt o = Ordering.lt
or_then Ordering.gt o = Ordering.gt

-- Pairs are compared as Rust compares tuples and as it derives `Ord`, the first component first.
module _ {ℓ κ} {A : Type ℓ} {B : Type κ} ⦃a : Ord A⦄ ⦃b : Ord B⦄ where
  unfoldable pub cmp_pair : A × B → A × B → Ordering
  cmp_pair (x, y) (x', y') = or_then (a.cmp x x') (b.cmp y y')

  pub cmp_pair-eq_iff : (p q : A × B) → (cmp_pair p q ≡ Ordering.eq) ↔ (p ≡ q)
  unfolding cmp_pair
  cmp_pair-eq_iff (x, y) (x', y') = ground (arith, a.eq_iff x x', b.eq_iff y y')

  pub cmp_pair-flip : (p q : A × B) → cmp_pair p q ≡ Ordering.gt → cmp_pair q p ≡ Ordering.lt
  unfolding cmp_pair
  cmp_pair-flip (x, y) (x', y') h =
      ground (arith, a.eq_iff x x', a.eq_iff x' x, a.flip x x', b.flip y y')

  pub cmp_pair_trans :
      (p q r : A × B)
      → cmp_pair p q ≡ Ordering.lt
      → cmp_pair q r ≡ Ordering.lt
      → cmp_pair p r ≡ Ordering.lt
  unfolding cmp_pair
  cmp_pair_trans (x, y) (x', y') (x'', y'') h k =
      ground
        (arith, a.eq_iff x x', a.eq_iff x' x'', a.eq_iff x x'', a.trans x x' x'', b.trans y y' y'')

  instance abbrev pub pair_ord : Ord (A × B)
  pair_ord = record {
    cmp = cmp_pair;
    eq_iff = cmp_pair-eq_iff;
    flip = cmp_pair-flip;
    trans = cmp_pair_trans;
  }

-- `None` comes before `Some`.
module _ {ℓ} {A : Type ℓ} ⦃a : Ord A⦄ where
  unfoldable pub cmp_option : Option A → Option A → Ordering
  cmp_option none none = Ordering.eq
  cmp_option none (some y) = Ordering.lt
  cmp_option (some x) none = Ordering.gt
  cmp_option (some x) (some y) = a.cmp x y

  pub cmp_option-eq_iff : (p q : Option A) → (cmp_option p q ≡ Ordering.eq) ↔ (p ≡ q)
  unfolding cmp_option
  cmp_option-eq_iff none none = ground arith
  cmp_option-eq_iff none (some y) = ground arith
  cmp_option-eq_iff (some x) none = ground arith
  cmp_option-eq_iff (some x) (some y) = ground (arith, a.eq_iff x y)

  pub cmp_option-flip :
      (p q : Option A) → cmp_option p q ≡ Ordering.gt → cmp_option q p ≡ Ordering.lt
  unfolding cmp_option
  cmp_option-flip none none h = cc
  cmp_option-flip none (some y) h = cc
  cmp_option-flip (some x) none h = refl
  cmp_option-flip (some x) (some y) h = a.flip x y h

  pub cmp_option_trans :
      (p q r : Option A)
      → cmp_option p q ≡ Ordering.lt
      → cmp_option q r ≡ Ordering.lt
      → cmp_option p r ≡ Ordering.lt
  unfolding cmp_option
  cmp_option_trans none none r h k = cc
  cmp_option_trans none (some y) none h k = cc
  cmp_option_trans none (some y) (some z) h k = refl
  cmp_option_trans (some x) none r h k = cc
  cmp_option_trans (some x) (some y) none h k = cc
  cmp_option_trans (some x) (some y) (some z) h k = a.trans x y z h k

  instance abbrev pub option_ord : Ord (Option A)
  option_ord = record {
    cmp = cmp_option;
    eq_iff = cmp_option-eq_iff;
    flip = cmp_option-flip;
    trans = cmp_option_trans;
  }

-- The order of what is read off by an injective function.
pub ord_by-eq_iff {ℓ κ} :
    {A : Type ℓ} {B : Type κ} ⦃b : Ord B⦄ (f : A → B)
    → ((x y : A) → f x ≡ f y → x ≡ y)
    → (x y : A) → (b.cmp (f x) (f y) ≡ Ordering.eq) ↔ (x ≡ y)
ord_by-eq_iff ⦃b⦄ f inj x y =
    (λ h. inj x y ((b.eq_iff (f x) (f y)).0 h), λ e. (b.eq_iff (f x) (f y)).1 (ap f e))

abbrev pub ord_by {ℓ κ} :
    {A : Type ℓ} {B : Type κ} ⦃b : Ord B⦄ (f : A → B) → ((x y : A) → f x ≡ f y → x ≡ y) → Ord A
ord_by ⦃b⦄ f inj = record {
  cmp = λ x y. b.cmp (f x) (f y);
  eq_iff = ord_by-eq_iff f inj;
  flip = λ x y. b.flip (f x) (f y);
  trans = λ x y z. b.trans (f x) (f y) (f z);
}
