-- ===== src/ReportData/Slots.antt =====
-- What a slot of the data ring is to hold, and that each operation keeps to it.
pub mod Steps
pub mod Records
pub mod Adding
use native.Mathlib.Nat.{mul-le-mul_right}
use resctl_demo.Prelude.{
  Bool-cases, leb, leb→le, ℕ, zero, suc, ◌+◌, ◌-◌, ◌*◌, ◌/◌, ◌%◌, ◌≤◌, ◌<◌, ◌≡◌, ◌⊎◌, inl, inr,
  refl, sym, ap, ◌∙◌, List, [], ◌∷◌, ◌++◌, Option, none, some, Bool, true, false, arith, ◌==◌, ltb,
  length, length-append, if◌then◌else◌, All,
}
use resctl_demo.ReportRing.{ReportRecord}
use resctl_demo.ReportData.{ReportData, ReportDataTip, Callbacks, align_to}

-- A time at which a slot starts.
abbrev pub IsSlot : ℕ → ℕ → Type 0
IsSlot step at = (q : ℕ) × (at ≡ q * step)

pub apart : (step s t : ℕ) → IsSlot step s → IsSlot step t → (s ≤ t) ⊎ (t + step ≤ s)
apart step s t (j, e) (i, f) = elim (Bool-cases (leb j i)) [
  | inl h ↦ inl (omega (arith, mul-le-mul_right step (leb→le j i h)))
  | inr h ↦ let below : suc i ≤ j = ground arith in inr (omega (arith, mul-le-mul_right step below))
]

pub next-IsSlot : (step at : ℕ) → IsSlot step at → IsSlot step (at + step)
next-IsSlot step at (q, e) = (suc q, omega arith)

-- What the ring has for the slot that starts at `s`, when the slot after the ring starts at `t`.
abbrev pub entry {κ} : {T : Type κ} → ℕ → List (Option T) → ℕ → ℕ → Option T
entry step [] t s = none
entry step (v ∷ ring) t s =
    let rest = entry step ring t s in if s + suc (length ring) * step == t then v else rest

pub entry-push {κ} :
    {T : Type κ} (step : ℕ) (ring : List (Option T)) (v : Option T) (t s : ℕ)
    → 0 < step
    → (s ≤ t)
    → entry step (ring ++ v ∷ []) (t + step) s ≡ (if s == t then v else entry step ring t s)
entry-push step [] v t s p h = ground arith
entry-push step (w ∷ ring) v t s p h =
    let e : suc (length (ring ++ v ∷ [])) * step ≡ suc (length ring) * step + step =
      omega (arith, ap (λ n. n * step) (length-append ring (v ∷ []))) in
    let f : step ≤ suc (length ring) * step = omega arith in
    ground (arith, entry-push step ring v t s p h)

module _ {R T : Type 0} (cb : Callbacks R T) (step : ℕ) where
  -- A record that belongs to the slot at `s` is accumulated, another one is not.
  abbrev pub absorb : ℕ → ReportRecord R → T × ℕ → T × ℕ
  absorb s rec (value, nr_samples) =
      if align_to step rec.at == s
      then (cb.acc value (cb.sel rec.rep), suc nr_samples)
      else (value, nr_samples)

  abbrev pub absorb_all : ℕ → List (ReportRecord R) → T × ℕ → T × ℕ
  absorb_all s [] sum = sum
  absorb_all s (rec ∷ recs) sum = absorb_all s recs (absorb s rec sum)

  -- What has been accumulated for a slot in the tip.
  abbrev pub in_tip : ReportDataTip T → ℕ → T × ℕ
  in_tip tip s = if s == tip.at then (tip.value, tip.nr_samples) else (cb.default, 0)

  abbrev pub finished : T × ℕ → Option T
  finished (value, nr_samples) = if ltb 0 nr_samples then some (cb.aggr value nr_samples) else none

  -- What the slot at `s` comes to when the records are added to the data: what the ring has of it,
  -- or else its records, with those in the tip, accumulated in order and then aggregated.
  abbrev pub slot : ReportData T → List (ReportRecord R) → ℕ → Option T
  slot d recs s =
      if ltb s d.tip.at
      then entry step d.data_ring d.tip.at s
      else finished (absorb_all s recs (in_tip d.tip s))

  pub absorb_none :
      (s : ℕ) (recs : List (ReportRecord R)) (sum : T × ℕ)
      → All (λ rec. s < align_to step rec.at) recs
      → absorb_all s recs sum ≡ sum
  absorb_none s [] sum h = refl
  absorb_none s (rec ∷ recs) (value, n) h = ground (arith, absorb_none s recs (value, n) h.1)
