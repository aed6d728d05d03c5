-- ===== src/ReportRing/Window.antt =====
-- What the loop of `ReportRing::update` reads, and how a part of it is read again.
use resctl_demo.Prelude.{
  ℕ, zero, suc, ◌+◌, ◌-◌, ◌*◌, ◌/◌, ◌≤◌, ◌<◌, ◌≡◌, inl, inr, refl, sym, ap, ◌∙◌, List, [], ◌∷◌,
  ◌++◌, Option, arith, Option-cases,
}
use resctl_demo.Prelude.Words.{u64_mod, add64-lt}
use resctl_demo.ReportRing.{ReportRecord, evict, back, load_from, nr_steps, loaded, scan}

div_step : (x c : ℕ) → 0 < c → c ≤ x → x / c ≡ suc ((x - c) / c)
div_step x c p h = grind arith

div_small : (x c : ℕ) → x < c → x / c ≡ 0
div_small x c h = grind arith

nr_steps-in :
    (c from now : ℕ) → 0 < c → from ≤ now → nr_steps c from now ≡ suc (nr_steps c (from + c) now)
unfolding nr_steps
nr_steps-in c from now p h =
    let e : now - (from + c) ≡ now - from - c = omega arith in
    ground (arith, div_step (now - from) c p, div_small (now - from) c, ap (λ x. x / c) e)

nr_steps-out : (c from now : ℕ) → now < from → nr_steps c from now ≡ 0
unfolding nr_steps
nr_steps-out c from now h = ground arith

-- How much of `n` steps is left after `m` of them.
abbrev after : ℕ → ℕ → ℕ
after zero n = n
after (suc m) zero = 0
after (suc m) (suc n) = after m n

module _ {ℓ} {R : Type ℓ} (load : ℕ → Option R) (c : ℕ) where
  -- Everything that can be loaded from one time to another.
  unfoldable pub window : ℕ → ℕ → List (ReportRecord R)
  unfolding scan nr_steps
  window from now = scan load c from (nr_steps c from now)

  window-in :
      (from now : ℕ)
      → 0 < c
      → from ≤ now
      → window from now ≡ loaded from (load from) (window (from + c) now)
  unfolding window scan
  window-in from now p h = ap (scan load c from) (nr_steps-in c from now p h)

  -- The times of a scan are not past a time.
  abbrev pub Fits : ℕ → ℕ → ℕ → Type 0
  Fits now at zero = Unit
  Fits now at (suc n) = (at ≤ now) × Fits now (at + c) n

  load_from_default :
      (d e : ℕ) (rec : ReportRecord R) (ring : List (ReportRecord R))
      → load_from c d (rec ∷ ring) ≡ load_from c e (rec ∷ ring)
  unfolding load_from back
  load_from_default d e rec [] = refl
  load_from_default d e rec (next ∷ ring) = load_from_default d e next ring

  load_from-next :
      (d at now : ℕ) (rep : R) (ring : List (ReportRecord R))
      → at ≤ now
      → now + c < u64_mod
      → load_from c d (record { at = at; rep = rep } ∷ ring) ≡ load_from c (at + c) ring
  unfolding load_from back
  load_from-next d at now rep [] h k = add64-lt at c (omega arith)
  load_from-next d at now rep (next ∷ ring) h k = load_from_default d (at + c) next ring

  resume_none :
      (at now : ℕ) (ring : List (ReportRecord R))
      → ring ++ window (load_from c (at + c) ring) now ≡ window (at + c) now
      → window at now ≡ window (at + c) now
      → ring ++ window (load_from c at ring) now ≡ window at now
  unfolding load_from back
  resume_none at now [] h e = refl
  resume_none at now (rec ∷ ring) h e =
      ap (λ from. (rec ∷ ring) ++ window from now) (load_from_default at (at + c) rec ring)
      ∙ h
      ∙ sym e

  -- To load on from the last record gives what loading from the start would.
  pub resume :
      (n at now : ℕ)
      → 0 < c
      → now + c < u64_mod
      → Fits now at n
      → scan load c at n ++ window (load_from c at (scan load c at n)) now ≡ window at now
  unfolding scan load_from back loaded
  resume zero at now p b fit = refl
  resume (suc n) at now p b fit = elim (Option-cases (load at)) [
    | inl e ↦ rw e (
        resume_none at now (scan load c (at + c) n) (resume n (at + c) now p b fit.1)
          (window-in at now p fit.0 ∙ ap (λ o. loaded at o (window (at + c) now)) e))
    | inr (rep, e) ↦ rw e (
        ap (λ from. record { at = at; rep = rep } ∷ scan load c (at + c) n ++ window from now)
          (load_from-next at at now rep (scan load c (at + c) n) fit.0 b)
        ∙ ap (λ ring. record { at = at; rep = rep } ∷ ring) (resume n (at + c) now p b fit.1)
        ∙ sym (window-in at now p fit.0 ∙ ap (λ o. loaded at o (window (at + c) now)) e))
  ]

  unfoldable pub walk : ℕ → ℕ → ℕ
  walk at zero = at
  walk at (suc m) = walk (at + c) m

  pub walk-mul : (at m : ℕ) → walk at m ≡ at + m * c
  unfolding walk
  walk-mul at zero = omega arith
  walk-mul at (suc m) = omega (arith, walk-mul (at + c) m)

  evict_young : (start at n : ℕ) → start ≤ at → evict start (scan load c at n) ≡ scan load c at n
  unfolding evict scan loaded
  evict_young start at zero h = refl
  evict_young start at (suc n) h = elim (Option-cases (load at)) [
    | inl e ↦ rw e (evict_young start (at + c) n (omega arith))
    | inr (rep, e) ↦ rw e (ground arith)
  ]

  -- To evict up to a later time leaves a scan from there.
  evict-scan :
      (m n at : ℕ)
      → 0 < c
      → evict (walk at m) (scan load c at n) ≡ scan load c (walk at m) (after m n)
  unfolding evict scan loaded walk
  evict-scan zero n at p = evict_young at at n (omega arith)
  evict-scan (suc m) zero at p = refl
  evict-scan (suc m) (suc n) at p = elim (Option-cases (load at)) [
    | inl e ↦ rw e (evict-scan m n (at + c) p)
    | inr (rep, e) ↦ rw e (ground (arith, walk-mul (at + c) m, evict-scan m n (at + c) p))
  ]

  Fits-walk : (now m n at : ℕ) → Fits now at n → Fits now (walk at m) (after m n)
  unfolding walk
  Fits-walk now zero n at fit = fit
  Fits-walk now (suc m) zero at fit = tt
  Fits-walk now (suc m) (suc n) at fit = Fits-walk now m n (at + c) fit.1

  Fits-more : (now later n at : ℕ) → now ≤ later → Fits now at n → Fits later at n
  Fits-more now later zero at h fit = tt
  Fits-more now later (suc n) at h fit =
      (omega (arith, fit.0), Fits-more now later n (at + c) h fit.1)

  pub Fits-window : (now n at : ℕ) → 0 < c → nr_steps c at now ≡ n → Fits now at n
  Fits-window now zero at p e = tt
  Fits-window now (suc n) at p e =
      let fit : at ≤ now = ground (arith, nr_steps-out c at now) in
      (fit, Fits-window now n (at + c) p (omega (arith, nr_steps-in c at now p fit)))

  -- One update of a ring that is a scan.
  pub reload :
      (m n at now : ℕ)
      → 0 < c
      → now + c < u64_mod
      → Fits now at n
      → (let ring = evict (walk at m) (scan load c at n) in
          ring ++ window (load_from c (walk at m) ring) now ≡ window (walk at m) now)
  reload m n at now p b fit =
      rw (evict-scan m n at p) (resume (after m n) (walk at m) now p b (Fits-walk now m n at fit))
