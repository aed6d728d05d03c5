-- ===== src/JobSpec/Compatible.antt =====
-- Which specs `compatible` accepts.
use mathlib.Core.Logic.{ite}
use resctl_demo.Prelude.{
  ◌≡◌, ◌≢◌, ◌↔◌, refl, sym, ap, ap₂, ◌∙◌, ◌∷◌, arith, Bool, true, false, ◌<◌, length, [],
}
use resctl_demo.Prelude.Outcome.{ok}
use resctl_demo.Text.{Text, text, text_ord, cmp_text-eq_iff}
use resctl_demo.BTreeMap.{get, remove, get-remove}
use resctl_demo.BTreeMap.Sorted.{IsSorted, remove-IsSorted, IsSorted-ext}
use resctl_demo.JobSpec.{
  PropSet, JobProps, JobSpec, JobSpec-discrete, strip, same_stripped, compatible,
}

decided : {P : Type 0} (d : Dec P) → (ok (ite d true false) ≡ ok true) ↔ P
decided (yes p) = (λ e. p, λ q. refl)
decided (no n) = (λ e. cc, λ q. absurd (n q))

abbrev pub AgreeBut : PropSet → PropSet → Type 0
AgreeBut g h = (k : Text) → k ≢ text "apply" → k ≢ text "commit" → get k g ≡ get k h

get-strip :
    (k : Text) (g : PropSet) → k ≢ text "apply" → k ≢ text "commit" → get k (strip g) ≡ get k g
unfolding strip
get-strip k g a c = ground (
  arith,
  get-remove (text "commit") k (remove (text "apply") g),
  get-remove (text "apply") k g,
  cmp_text-eq_iff k (text "commit"),
  cmp_text-eq_iff k (text "apply"),
)

get-strip_same : (k : Text) (g h : PropSet) → AgreeBut g h → get k (strip g) ≡ get k (strip h)
unfolding strip
get-strip_same k g h f = ground (
  arith,
  get-remove (text "commit") k (remove (text "apply") g),
  get-remove (text "apply") k g,
  get-remove (text "commit") k (remove (text "apply") h),
  get-remove (text "apply") k h,
  cmp_text-eq_iff k (text "commit"),
  cmp_text-eq_iff k (text "apply"),
  f k,
)

strip-IsSorted : (g : PropSet) → IsSorted g → IsSorted (strip g)
unfolding strip
strip-IsSorted g s = remove-IsSorted (text "commit") _ (remove-IsSorted (text "apply") g s)

strip_iff : (g h : PropSet) → IsSorted g → IsSorted h → (strip g ≡ strip h) ↔ AgreeBut g h
strip_iff g h s t = (
  λ e k a c. sym (get-strip k g a c) ∙ ap (get k) e ∙ get-strip k h a c,
  λ f.
      IsSorted-ext (strip g) (strip h) (strip-IsSorted g s) (strip-IsSorted h t)
        (λ k. get-strip_same k g h f),
)

-- Specs that differ in nothing but those two settings.
pub record IsSameJob (s t : JobSpec) (g h : PropSet) (rest rest' : JobProps) : Type 0 where
  pub kind : s.kind ≡ t.kind
  pub id : s.id ≡ t.id
  pub passive : s.passive ≡ t.passive
  pub groups : rest ≡ rest'
  pub first : AgreeBut g h

abbrev stripped : JobSpec → PropSet → JobProps → JobSpec
stripped s g rest = record s { props = strip g ∷ rest }

stripped_iff :
    (s t : JobSpec) (g h : PropSet) (rest rest' : JobProps)
    → IsSorted g
    → IsSorted h
    → (stripped s g rest ≡ stripped t h rest') ↔ IsSameJob s t g h rest rest'
stripped_iff s t g h rest rest' sg sh = (
  λ e. record {
    kind = ap (λ x. x.kind) e;
    id = ap (λ x. x.id) e;
    passive = ap (λ x. x.passive) e;
    groups = (let d = ap (λ x. x.props) e in cc);
    first = (strip_iff g h sg sh).0 (let d = ap (λ x. x.props) e in cc);
  },
  λ same.
      (let d = (strip_iff g h sg sh).1 same.first in
        rw (same.kind, same.id, same.passive, same.groups, d) refl),
)

-- Two specs whose first groups are sorted are compatible exactly when their kinds, ids, passive
-- settings and further groups are equal and their first groups agree on every key but `apply` and
-- `commit`.
pub compatible-IsSameJob_iff :
    (s t : JobSpec) (g h : PropSet) (rest rest' : JobProps)
    → s.props ≡ g ∷ rest
    → t.props ≡ h ∷ rest'
    → IsSorted g
    → IsSorted h
    → (compatible s t ≡ ok true) ↔ IsSameJob s t g h rest rest'
unfolding compatible same_stripped
compatible-IsSameJob_iff s t g h rest rest' es et sg sh =
    let (to, from) = decided (JobSpec-discrete (stripped s g rest) (stripped t h rest')) in
    let (to', from') = stripped_iff s t g h rest rest' sg sh in
    let e = ap₂ (λ ps qs. same_stripped s t ps qs) es et in
    (λ yes. to' (to (sym e ∙ yes)), λ same. e ∙ from (from' same))

same_stripped-Returns :
    (s t : JobSpec) (ps qs : JobProps)
    → 0 < length ps
    → 0 < length qs
    → (b : Bool) × (same_stripped s t ps qs ≡ ok b)
unfolding same_stripped
same_stripped-Returns s t [] qs h k = elim h [ ]
same_stripped-Returns s t (g ∷ ps) [] h k = elim k [ ]
same_stripped-Returns s t (g ∷ ps) (h' ∷ qs) h k = (
  ite (JobSpec-discrete (record s { props = strip g ∷ ps }) (record t { props = strip h' ∷ qs }))
      true false,
  refl,
)

-- With a first group in both specs, `compatible` does not panic.
pub compatible-Returns :
    (s t : JobSpec) → 0 < length s.props → 0 < length t.props → (b : Bool) × (compatible s t ≡ ok b)
unfolding compatible
compatible-Returns s t h k = same_stripped-Returns s t s.props t.props h k
