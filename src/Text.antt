-- ===== src/Text.antt =====
-- Rust's strings, as the list of their characters: order, splitting, and what the program uses of
-- them.
pub mod Split
use Prim.Native.Nat.{compare, Ordering}
use Prim.Native.Char.{code}
use Prim.Native.String.{String}
use resctl_demo.Prelude.{ℕ, ◌≡◌, ◌↔◌, refl, ap, List, [], ◌∷◌, arith}
use resctl_demo.Prelude.Order.{Ord, compare-eq_iff, compare-flip, compare_trans}

abbrev pub Text : Type 0
Text = List ℕ

-- The characters of a literal.
abbrev pub text : String → Text
text String.[] = []
text (String.◌∷◌ c s) = code c ∷ text s

-- The order of strings. Rust compares their bytes, which for UTF-8 is the order of the characters.
unfoldable pub cmp_text : Text → Text → Ordering
cmp_text [] [] = Ordering.eq
cmp_text [] (b ∷ bs) = Ordering.lt
cmp_text (a ∷ as') [] = Ordering.gt
cmp_text (a ∷ as') (b ∷ bs) =
    let rest = cmp_text as' bs in elim (compare a b) [ Ordering.eq ↦ rest | o ↦ o ]

cmp_text-eq : (a b : Text) → cmp_text a b ≡ Ordering.eq → a ≡ b
unfolding cmp_text
cmp_text-eq [] [] h = refl
cmp_text-eq [] (b ∷ bs) h = cc
cmp_text-eq (a ∷ s) [] h = cc
cmp_text-eq (a ∷ s) (b ∷ t) h = ground (arith, cmp_text-eq s t)

cmp_text_refl : (a : Text) → cmp_text a a ≡ Ordering.eq
unfolding cmp_text
cmp_text_refl [] = refl
cmp_text_refl (a ∷ s) = ground (arith, cmp_text_refl s)

pub cmp_text-eq_iff : (a b : Text) → (cmp_text a b ≡ Ordering.eq) ↔ (a ≡ b)
cmp_text-eq_iff a b = (cmp_text-eq a b, λ e. rw e (cmp_text_refl b))

pub cmp_text-flip : (a b : Text) → cmp_text a b ≡ Ordering.gt → cmp_text b a ≡ Ordering.lt
unfolding cmp_text
cmp_text-flip [] [] h = cc
cmp_text-flip [] (b ∷ bs) h = cc
cmp_text-flip (a ∷ s) [] h = refl
cmp_text-flip (a ∷ s) (b ∷ t) h = ground (arith, cmp_text-flip s t)

pub cmp_text_trans :
    (a b c : Text)
    → cmp_text a b ≡ Ordering.lt
    → cmp_text b c ≡ Ordering.lt
    → cmp_text a c ≡ Ordering.lt
unfolding cmp_text
cmp_text_trans [] [] c h k = cc
cmp_text_trans [] (b ∷ t) [] h k = cc
cmp_text_trans [] (b ∷ t) (c ∷ u) h k = refl
cmp_text_trans (a ∷ s) [] c h k = cc
cmp_text_trans (a ∷ s) (b ∷ t) [] h k = cc
cmp_text_trans (a ∷ s) (b ∷ t) (c ∷ u) h k = ground (arith, cmp_text_trans s t u)

instance abbrev pub text_ord : Ord Text
text_ord = record {
  cmp = cmp_text;
  eq_iff = cmp_text-eq_iff;
  flip = cmp_text-flip;
  trans = cmp_text_trans;
}
