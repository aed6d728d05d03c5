-- ===== src/Jobs/Periods.antt =====
-- The periods of the reports to pack: the first part of `do_pack` in resctl-bench/src/main.rs.
use resctl_demo.Prelude.{ℕ, List, [], ◌∷◌, Bool, ◌&&◌, ◌||◌, ltb, leb, ◌==◌, if◌then◌else◌, max}
use resctl_demo.Jobs.{JobCtx}

abbrev pub Period : Type 0
Period = ℕ × ℕ

module _ {S V J B : Type 0} where
  -- The periods of the jobs that have run.
  unfoldable pub collected : List (JobCtx S V J B) → List Period
  collected [] = []
  collected (j ∷ js) =
      let per = j.job_data.period in if ltb per.0 per.1 then per ∷ collected js else collected js

-- The order of pairs.
abbrev pub period_le : Period → Period → Bool
period_le (a, b) (c, d) = ltb a c || (a == c && leb b d)

unfoldable pub insert : Period → List Period → List Period
insert p [] = p ∷ []
insert p (q ∷ qs) = if period_le p q then p ∷ q ∷ qs else q ∷ insert p qs

unfoldable pub sort : List Period → List Period
unfolding insert
sort [] = []
sort (p ∷ ps) = insert p (sort ps)

-- `cur` after the next period.
unfoldable pub extend : Period → Period → Period
extend (start, end) (start', end') =
    if start == end
    then (start', end')
    else if ltb end start'
    then (start', end')
    else (start, max end end')

-- What is pushed before that.
unfoldable pub push : Period → Period → List Period → List Period
push (start, end) (start', end') rest =
    if start == end then rest else if ltb end start' then (start, end) ∷ rest else rest

-- What the loop over the sorted periods pushes when it has come to `cur`.
unfoldable pub coalesce : Period → List Period → List Period
unfolding extend push
coalesce (start, end) [] = if ltb start end then (start, end) ∷ [] else []
coalesce cur (per ∷ pers) = push cur per (coalesce (extend cur per) pers)

module _ {S V J B : Type 0} where
  unfoldable pub periods : List (JobCtx S V J B) → List Period
  unfolding coalesce sort collected
  periods js = coalesce (0, 0) (sort (collected js))
