-- ===== src/ReportRing/Update.antt =====
-- A ring that is updated step by step holds what a ring loaded from scratch would.
use native.Mathlib.Nat.{mul_assoc, add-mul}
use resctl_demo.Prelude.{
  ℕ, zero, suc, ◌+◌, ◌-◌, ◌*◌, ◌/◌, ◌≤◌, ◌<◌, ◌≡◌, ◌⊎◌, inl, inr, refl, sym, ap, ap₂, ◌∙◌, [], ◌++◌,
  Option, some, arith,
}
use resctl_demo.Prelude.Outcome.{ok}
use resctl_demo.Prelude.Words.{u64_mod, sub64, sub64-le}
use resctl_demo.Prelude.Rounding.{round-monotone, round_down}
use resctl_demo.ReportRing.{ReportRing, evict, load_from, nr_steps, scan, refresh, update}
use resctl_demo.ReportRing.Window.{window, Fits, Fits-window, walk, walk-mul, reload}

-- How far it is from one start to another, in steps of the cadence.
steps_between :
    (x y t c q : ℕ)
    → t ≡ suc q * c
    → 0 < t
    → x / t ≤ y / t
    → x / t * t + ((y / t - x / t) * suc q) * c ≡ y / t * t
steps_between x y t c q e p h =
    let d : (y / t - x / t) * suc q * c ≡ (y / t - x / t) * t =
      mul_assoc (y / t - x / t) (suc q) c ∙ ap (λ z. (y / t - x / t) * z) (sym e) in
    ap (λ z. x / t * t + z) d
    ∙ sym (add-mul (x / t) (y / t - x / t) t)
    ∙ ap (λ z. z * t) (omega arith)

quotient-monotone : (x y t : ℕ) → 0 < t → x ≤ y → x / t ≤ y / t
quotient-monotone x y t p h = grind arith

module _ {ℓ} {R : Type ℓ} where
  abbrev pub now_of : ReportRing R → ℕ → ℕ
  now_of r time = time / r.cadence * r.cadence

  abbrev pub start_of : ReportRing R → ℕ → ℕ
  start_of r time = sub64 (now_of r time) r.retention / r.tail_cadence * r.tail_cadence

  -- The ring holds the reports from the start for a time on, up to that time.
  abbrev pub IsLoaded : (ℕ → Option R) → ℕ → ReportRing R → Type ℓ
  IsLoaded load time r = r.ring ≡ window load r.cadence (start_of r time) (now_of r time)

  -- The settings fit together, and a time is in range for them.
  pub record InRange (time : ℕ) (r : ReportRing R) : Type 0 where
    pub multiple : ℕ
    pub cadence : 0 < r.cadence
    pub tail_cadence : r.tail_cadence ≡ suc multiple * r.cadence
    pub old : r.retention ≤ now_of r time
    pub small : time + r.cadence < u64_mod

  tail_positive : (time : ℕ) (r : ReportRing R) → InRange time r → 0 < r.tail_cadence
  tail_positive time r h = grind (arith, h.cadence, h.tail_cadence)

  kept_old :
      (before now : ℕ) (r : ReportRing R)
      → InRange before r
      → InRange now r
      → before ≤ now
      → sub64 (now_of r before) r.retention ≤ sub64 (now_of r now) r.retention
  kept_old before now r h k b = omega (
    arith,
    sub64-le (now_of r before) r.retention h.old,
    sub64-le (now_of r now) r.retention k.old,
    h.small,
    k.small,
    round_down before r.cadence,
    round_down now r.cadence,
    k.old,
    h.old,
    round-monotone before now r.cadence h.cadence b,
  )

  start_walk :
      (load : ℕ → Option R) (before now : ℕ) (r : ReportRing R)
      → InRange before r
      → InRange now r
      → before ≤ now
      → (m : ℕ) × (walk load r.cadence (start_of r before) m ≡ start_of r now)
  start_walk load before now r h k b =
      let x = sub64 (now_of r before) r.retention in
      let y = sub64 (now_of r now) r.retention in
      let p = tail_positive before r h in
      let m = (y / r.tail_cadence - x / r.tail_cadence) * suc h.multiple in
      (
        m,
        walk-mul load r.cadence (start_of r before) m
            ∙ steps_between x y r.tail_cadence r.cadence h.multiple h.tail_cadence p
                (quotient-monotone x y r.tail_cadence p (kept_old before now r h k b)),
      )

  Fits-later :
      (load : ℕ → Option R) (c now later n at : ℕ)
      → now ≤ later
      → Fits load c now at n
      → Fits load c later at n
  Fits-later load c now later zero at h fit = tt
  Fits-later load c now later (suc n) at h fit =
      (omega (arith, fit.0), Fits-later load c now later n (at + c) h fit.1)

  -- One refresh of a ring that is a scan.
  refresh-scan :
      (load : ℕ → Option R) (now : ℕ) (r : ReportRing R) (m n at : ℕ)
      → InRange now r
      → walk load r.cadence at m ≡ start_of r now
      → Fits load r.cadence (now_of r now) at n
      → r.ring ≡ scan load r.cadence at n
      → IsLoaded load now (refresh load now r)
  unfolding refresh window
  refresh-scan load now r m n at h w fit e =
      ap₂
        (λ start ring.
          let kept = evict start ring in
          kept ++ window load r.cadence (load_from r.cadence start kept) (now_of r now))
        (sym w) e
      ∙ reload load r.cadence m n at (now_of r now) h.cadence
          (omega (arith, h.small, round_down now r.cadence)) fit
      ∙ ap (λ start. window load r.cadence start (now_of r now)) w

  pub refresh-IsLoaded :
      (load : ℕ → Option R) (before now : ℕ) (r : ReportRing R)
      → InRange before r
      → InRange now r
      → before ≤ now
      → (r.ring ≡ []) ⊎ IsLoaded load before r
      → IsLoaded load now (refresh load now r)
  unfolding window walk scan
  refresh-IsLoaded load before now r h k b (inl e) =
      refresh-scan load now r 0 0 (start_of r now) k refl tt e
  refresh-IsLoaded load before now r h k b (inr e) =
      let (m, w) = start_walk load before now r h k b in
      let n = nr_steps r.cadence (start_of r before) (now_of r before) in
      refresh-scan load now r m n (start_of r before) k w
        (Fits-later load r.cadence (now_of r before) (now_of r now) n (start_of r before)
          (round-monotone before now r.cadence h.cadence b)
          (Fits-window load r.cadence (now_of r before) n (start_of r before) h.cadence refl))
        e

  update-refresh :
      {D : Type 0} (load : D → ℕ → Option R) (dir : D) (now : ℕ) (r : ReportRing R)
      → InRange now r
      → update load (some dir) now r ≡ ok (refresh (load dir) now r)
  unfolding update
  update-refresh load dir now r h = ground (arith, h.cadence, tail_positive now r h)

  -- A ring that is empty, or was loaded up to an earlier time, is after an update just what loading
  -- everything from scratch would give: each report that there is, at the multiples of the cadence
  -- from the start that the retention sets up to now. The files are the same at both times, the
  -- cadence is not zero and divides the one of the tail, the retention does not reach back past
  -- time zero, and no time is near the end of `u64`. The settings stay.
  pub update-IsLoaded :
      {D : Type 0} (load : D → ℕ → Option R) (dir : D) (before now : ℕ) (r : ReportRing R)
      → InRange before r
      → InRange now r
      → before ≤ now
      → (r.ring ≡ []) ⊎ IsLoaded (load dir) before r
      → (s : ReportRing R) × (update load (some dir) now r ≡ ok s)
        × (s ≡ record r { ring = s.ring })
        × IsLoaded (load dir) now s
  unfolding refresh
  update-IsLoaded load dir before now r h k b e = (
    refresh (load dir) now r,
    update-refresh load dir now r k,
    refl,
    refresh-IsLoaded (load dir) before now r h k b e,
  )
