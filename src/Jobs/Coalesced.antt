-- ===== src/Jobs/Coalesced.antt =====
-- What the periods to pack cover, in `do_pack` of resctl-bench/src/main.rs.
use resctl_demo.Prelude.{
  ℕ, ◌≤◌, ◌<◌, ◌≡◌, refl, ◌∙◌, List, [], ◌∷◌, Bool, false, ◌&&◌, ◌||◌, ltb, leb, ◌==◌, arith, All,
  All-map, max, Bool-cases, inl, inr, ltb→lt,
}
use resctl_demo.Jobs.{JobCtx}
use resctl_demo.Jobs.Periods.{
  Period, period_le, collected, insert, sort, extend, push, coalesce, periods,
}

abbrev pub within : ℕ → Period → Bool
within t (start, end) = leb start t && leb t end

-- Whether a time is in one of the periods.
unfoldable pub covers : ℕ → List Period → Bool
covers t [] = false
covers t (p ∷ ps) = within t p || covers t ps

module _ {S V J B : Type 0} where
  -- Whether a job ran at the time.
  unfoldable pub ran_at : ℕ → List (JobCtx S V J B) → Bool
  ran_at t [] = false
  ran_at t (j ∷ js) =
      (ltb j.job_data.period.0 j.job_data.period.1 && within t j.job_data.period) || ran_at t js

  covers-collected : (t : ℕ) (js : List (JobCtx S V J B)) → covers t (collected js) ≡ ran_at t js
  unfolding covers collected ran_at
  covers-collected t [] = refl
  covers-collected t (j ∷ js) = ground (arith, covers-collected t js)

-- Periods that are not empty.
abbrev AreLive : List Period → Type 0
AreLive = All (λ p. p.0 < p.1)

abbrev StartAfter : ℕ → List Period → Type 0
StartAfter t = All (λ p. t ≤ p.0)

abbrev AreOrdered : List Period → Type 0
AreOrdered [] = Unit
AreOrdered (p ∷ ps) = StartAfter p.0 ps × AreOrdered ps

-- No period is empty, and each one ends before the next ones start.
abbrev pub AreSeparated : List Period → Type 0
AreSeparated [] = Unit
AreSeparated (p ∷ ps) = (p.0 < p.1) × All (λ q. p.1 < q.0) ps × AreSeparated ps

covers-insert :
    (t : ℕ) (p : Period) (qs : List Period) → covers t (insert p qs) ≡ (within t p || covers t qs)
unfolding covers insert
covers-insert t p [] = refl
covers-insert t p (q ∷ qs) = ground (arith, covers-insert t p qs)

covers-sort : (t : ℕ) (ps : List Period) → covers t (sort ps) ≡ covers t ps
unfolding covers sort
covers-sort t [] = refl
covers-sort t (p ∷ ps) = ground (arith, covers-insert t p (sort ps), covers-sort t ps)

All-insert :
    (P : Period → Type 0) (p : Period) (qs : List Period) → P p → All P qs → All P (insert p qs)
unfolding insert
All-insert P p [] h a = (h, tt)
All-insert P p (q ∷ qs) h a = elim (Bool-cases (period_le p q)) [
  | inl e ↦ rw e (h, a)
  | inr e ↦ rw e (a.0, All-insert P p qs h a.1)
]

sort-AreLive : (ps : List Period) → AreLive ps → AreLive (sort ps)
unfolding sort
sort-AreLive [] h = tt
sort-AreLive (p ∷ ps) h = All-insert _ p (sort ps) h.0 (sort-AreLive ps h.1)

insert-AreOrdered : (p : Period) (qs : List Period) → AreOrdered qs → AreOrdered (insert p qs)
unfolding insert
insert-AreOrdered p [] h = (tt, tt)
insert-AreOrdered p (q ∷ qs) h = elim (Bool-cases (period_le p q)) [
  | inl e ↦
      (let le : p.0 ≤ q.0 = ground (arith, e) in
        rw e ((le, All-map _ _ qs (λ r g. omega (arith, g, le)) h.0), h))
  | inr e ↦ rw e (All-insert _ p qs (ground (arith, e)) h.0, insert-AreOrdered p qs h.1)
]

sort-AreOrdered : (ps : List Period) → AreOrdered (sort ps)
unfolding sort
sort-AreOrdered [] = tt
sort-AreOrdered (p ∷ ps) = insert-AreOrdered p (sort ps) (sort-AreOrdered ps)

-- A time is in two periods that touch exactly when it is in one of them.
within-max :
    (t start end start' end' : ℕ)
    → start ≤ start'
    → start' ≤ end
    → within t (start, max end end') ≡ (within t (start, end) || within t (start', end'))
within-max t start end start' end' h k = ground arith

-- The periods that are pushed and the one that the loop goes on with cover those before.
covers-push :
    (t : ℕ) (cur per : Period) (b : Bool) (rest : List Period)
    → cur.0 ≤ cur.1
    → cur.0 ≤ per.0
    → per.0 < per.1
    → covers t rest ≡ (within t (extend cur per) || b)
    → covers t (push cur per rest) ≡ ((ltb cur.0 cur.1 && within t cur) || (within t per || b))
unfolding covers push extend
covers-push t (start, end) (start', end') b rest le le' lt h = elim (Bool-cases (start == end)) [
  | inl p ↦ ground (arith, p, h)
  | inr p ↦ (elim (Bool-cases (ltb end start')) [
    | inl q ↦ ground (arith, p, q, h)
    | inr q ↦
        (let m = within-max t start end start' end' le' (ground (arith, q)) in
          ground (arith, p, q, h, m))
  ])
]

extend-live :
    (cur per : Period)
    → cur.0 ≤ cur.1
    → cur.0 ≤ per.0
    → per.0 < per.1
    → (extend cur per).0 < (extend cur per).1
unfolding extend
extend-live (start, end) (start', end') le le' lt = ground arith

extend-StartAfter :
    (cur per : Period) (pers : List Period)
    → StartAfter cur.0 pers
    → StartAfter per.0 pers
    → StartAfter (extend cur per).0 pers
unfolding extend
extend-StartAfter (start, end) (start', end') pers a b = ground arith

-- The loop covers what is left and what it has come to.
covers-coalesce :
    (t : ℕ) (cur : Period) (pers : List Period)
    → cur.0 ≤ cur.1
    → StartAfter cur.0 pers
    → AreOrdered pers
    → AreLive pers
    → covers t (coalesce cur pers) ≡ ((ltb cur.0 cur.1 && within t cur) || covers t pers)
unfolding coalesce covers
covers-coalesce t (start, end) [] le a o l = ground arith
covers-coalesce t cur (per ∷ pers) le a o l =
    let live = extend-live cur per le a.0 l.0 in
    let rest =
      covers-coalesce t (extend cur per) pers (omega arith) (extend-StartAfter cur per pers a.1 o.0)
        o.1 l.1 in
    covers-push t cur per (covers t pers) (coalesce (extend cur per) pers) le a.0 l.0
      (ground (arith, rest, live))

All-push :
    (P : Period → Type 0) (cur per : Period) (rest : List Period)
    → P cur
    → All P rest
    → All P (push cur per rest)
unfolding push
All-push P (start, end) (start', end') rest h a = elim (Bool-cases (start == end)) [
  | inl p ↦ rw p a
  | inr p ↦ (elim (Bool-cases (ltb end start')) [ inl q ↦ rw (p, q) (h, a) | inr q ↦ rw (p, q) a ])
]

le-extend : (n : ℕ) (cur per : Period) → n ≤ cur.0 → n ≤ per.0 → n ≤ (extend cur per).0
unfolding extend
le-extend n (start, end) (start', end') h k = ground arith

push-AreSeparated :
    (cur per : Period) (rest : List Period)
    → cur.0 ≤ cur.1
    → StartAfter (extend cur per).0 rest
    → AreSeparated rest
    → AreSeparated (push cur per rest)
unfolding push extend
push-AreSeparated (start, end) (start', end') rest le a s = elim (Bool-cases (start == end)) [
  | inl p ↦ rw p s
  | inr p ↦ (elim (Bool-cases (ltb end start')) [
    | inl q ↦
        (let b : StartAfter start' rest = rw (p, q) at a in
          rw (p, q)
            (
              ground (arith, p),
              All-map _ _ rest (λ r g. omega (arith, g, ltb→lt end start' q)) b,
              s,
            ))
    | inr q ↦ rw (p, q) s
  ])
]

-- What is pushed starts no earlier than what the loop has come to.
StartAfter-coalesce :
    (n : ℕ) (cur : Period) (pers : List Period)
    → n ≤ cur.0
    → StartAfter n pers
    → StartAfter n (coalesce cur pers)
unfolding coalesce
StartAfter-coalesce n (start, end) [] h a = ground arith
StartAfter-coalesce n cur (per ∷ pers) h a =
    All-push _ cur per (coalesce (extend cur per) pers) h
      (StartAfter-coalesce n (extend cur per) pers (le-extend n cur per h a.0) a.1)

coalesce-AreSeparated :
    (cur : Period) (pers : List Period)
    → cur.0 ≤ cur.1
    → StartAfter cur.0 pers
    → AreOrdered pers
    → AreLive pers
    → AreSeparated (coalesce cur pers)
unfolding coalesce
coalesce-AreSeparated (start, end) [] le a o l = ground arith
coalesce-AreSeparated cur (per ∷ pers) le a o l =
    let live = extend-live cur per le a.0 l.0 in
    let after = extend-StartAfter cur per pers a.1 o.0 in
    push-AreSeparated cur per (coalesce (extend cur per) pers) le
      (StartAfter-coalesce (extend cur per).0 (extend cur per) pers (omega arith) after)
      (coalesce-AreSeparated (extend cur per) pers (omega (arith, live)) after o.1 l.1)

module _ {S V J B : Type 0} where
  collected-AreLive : (js : List (JobCtx S V J B)) → AreLive (collected js)
  unfolding collected
  collected-AreLive [] = tt
  collected-AreLive (j ∷ js) = elim (Bool-cases (ltb j.job_data.period.0 j.job_data.period.1)) [
    | inl p ↦ rw p (ltb→lt _ _ p, collected-AreLive js)
    | inr p ↦ rw p (collected-AreLive js)
  ]

  -- A time is in one of the periods to pack exactly when a job ran at that time, the ends of its
  -- period included. None of the periods is empty, and each ends before the next ones start.
  pub periods-AreSeparated :
      (js : List (JobCtx S V J B))
      → ((t : ℕ) → covers t (periods js) ≡ ran_at t js) × AreSeparated (periods js)
  unfolding periods
  periods-AreSeparated js =
      let pers = sort (collected js) in
      let ordered = sort-AreOrdered (collected js) in
      let live = sort-AreLive (collected js) (collected-AreLive js) in
      let after = All-map _ _ pers (λ p h. omega arith) live in
      (
        λ t.
            covers-coalesce t (0, 0) pers (omega arith) after ordered live
            ∙ covers-sort t (collected js)
            ∙ covers-collected t js,
        coalesce-AreSeparated (0, 0) pers (omega arith) after ordered live,
      )
