-- ===== src/Runner/Unwraps.antt =====
-- `check_completions` finds the service that it unwraps.
use resctl_demo.Prelude.{◌≡◌, refl, subst, Option, none, some, Bool, true, false, arith}
use resctl_demo.Prelude.Outcome.{ok}
use resctl_demo.Systemd.{UnitState}
use resctl_demo.Runner.{
  RunnerState, idle, running, bench_hashd, bench_io_cost, Config, Parts, Rd, Answer, try, or_fail,
}
use resctl_demo.Runner.Invariant.{is_some, Fits, IsCoherent, become_idle-IsCoherent}
use resctl_demo.Runner.Completions.{
  update_hashd, update_iocost, finish_hashd, finish_iocost, check_unit, check_svc,
  check_completions_in, check_completions,
}

module _ {W Svc : Type 0} (cfg : Config) (p : Parts W Svc) where
  -- It returns, and leaves data as they should be.
  abbrev pub Returns : (Rd cfg p → Type 0) → Answer cfg p → Type 0
  Returns P a = (t : Option Bool × Rd cfg p) × (a ≡ ok t) × P t.1

  or_fail-Returns :
      (t : Bool × Rd cfg p) (rest : Rd cfg p → Answer cfg p)
      → IsCoherent cfg p t.1
      → ((d : Rd cfg p) → IsCoherent cfg p d → Returns (IsCoherent cfg p) (rest d))
      → Returns (IsCoherent cfg p) (or_fail cfg p t rest)
  or_fail-Returns (true, d) rest h k = k d h
  or_fail-Returns (false, d) rest h k = ((none, d), refl, h)

  update_hashd-IsCoherent :
      (d : Rd cfg p) → IsCoherent cfg p d → IsCoherent cfg p (update_hashd cfg p d).1
  unfolding update_hashd try
  update_hashd-IsCoherent d h = ground (arith, h)

  update_iocost-IsCoherent :
      (d : Rd cfg p) → IsCoherent cfg p d → IsCoherent cfg p (update_iocost cfg p d).1
  unfolding update_iocost try
  update_iocost-IsCoherent d h = ground (arith, h)

  finish_hashd-Returns :
      (d : Rd cfg p) → IsCoherent cfg p d → Returns (IsCoherent cfg p) (finish_hashd cfg p d)
  unfolding finish_hashd try
  finish_hashd-Returns d h =
      or_fail-Returns (update_hashd cfg p d) _ (update_hashd-IsCoherent d h) (λ d h.
        or_fail-Returns (try cfg p p.save_bench d) _ h
          (λ d h. (_, refl, become_idle-IsCoherent cfg p d)))

  finish_iocost-Returns :
      (d : Rd cfg p) → IsCoherent cfg p d → Returns (IsCoherent cfg p) (finish_iocost cfg p d)
  unfolding finish_iocost try
  finish_iocost-Returns d h =
      or_fail-Returns (update_iocost cfg p d) _ (update_iocost-IsCoherent d h) (λ d h.
        or_fail-Returns (try cfg p p.save_bench d) _ h (λ d h.
          or_fail-Returns (try cfg p p.apply_iocost d) _ h
            (λ d h. (_, refl, become_idle-IsCoherent cfg p d))))

  check_unit-Returns :
      (state : UnitState) (finish : Rd cfg p → Answer cfg p) (d : Rd cfg p)
      → IsCoherent cfg p d
      → ((d : Rd cfg p) → IsCoherent cfg p d → Returns (IsCoherent cfg p) (finish d))
      → Returns (IsCoherent cfg p) (check_unit cfg p state finish d)
  unfolding check_unit
  check_unit-Returns UnitState.running finish d h k = (_, refl, h)
  check_unit-Returns UnitState.exited finish d h k = k d h
  check_unit-Returns UnitState.not_found finish d h k = (_, refl, become_idle-IsCoherent cfg p d)
  check_unit-Returns (UnitState.other_active s) finish d h k =
      (_, refl, become_idle-IsCoherent cfg p d)
  check_unit-Returns (UnitState.inactive s) finish d h k = (_, refl, become_idle-IsCoherent cfg p d)
  check_unit-Returns (UnitState.failed s) finish d h k = (_, refl, become_idle-IsCoherent cfg p d)
  check_unit-Returns (UnitState.other s) finish d h k = (_, refl, become_idle-IsCoherent cfg p d)

  refreshed-Returns :
      (state : Option UnitState) (finish : Rd cfg p → Answer cfg p) (d : Rd cfg p)
      → IsCoherent cfg p d
      → ((d : Rd cfg p) → IsCoherent cfg p d → Returns (IsCoherent cfg p) (finish d))
      → Returns
          (IsCoherent cfg p)
          (elim state [ none ↦ ok (none, d) | some state ↦ check_unit cfg p state finish d ])
  refreshed-Returns none finish d h k = ((none, d), refl, h)
  refreshed-Returns (some state) finish d h k = check_unit-Returns state finish d h k

  check_svc-Returns :
      (svc : Option Svc) (finish : Rd cfg p → Answer cfg p) (d : Rd cfg p)
      → is_some svc ≡ true
      → IsCoherent cfg p d
      → ((d : Rd cfg p) → IsCoherent cfg p d → Returns (IsCoherent cfg p) (finish d))
      → Returns (IsCoherent cfg p) (check_svc cfg p svc finish d)
  unfolding check_svc
  check_svc-Returns none finish d e h k = cc
  check_svc-Returns (some svc) finish d e h k =
      refreshed-Returns (p.refresh svc d.parts).0 finish _ h k

  check_in-Returns :
      (s : RunnerState) (d : Rd cfg p)
      → IsCoherent cfg p d
      → d.state ≡ s
      → Returns (IsCoherent cfg p) (check_completions_in cfg p s d)
  unfolding check_completions_in
  check_in-Returns idle d h e = (_, refl, h)
  check_in-Returns running d h e = (_, refl, h)
  check_in-Returns bench_hashd d h e =
      check_svc-Returns d.hashd_svc (finish_hashd cfg p) d
        (subst (λ s. Fits s (is_some d.hashd_svc) (is_some d.iocost_svc)) e h).0 h
        finish_hashd-Returns
  check_in-Returns bench_io_cost d h e =
      check_svc-Returns d.iocost_svc (finish_iocost cfg p) d
        (subst (λ s. Fits s (is_some d.hashd_svc) (is_some d.iocost_svc)) e h).1 h
        finish_iocost-Returns

  -- `check_completions` never panics for want of a service, and keeps the state and the services
  -- together, also when it returns an error.
  pub check_completions-Returns :
      (d : Rd cfg p) → IsCoherent cfg p d → Returns (IsCoherent cfg p) (check_completions cfg p d)
  unfolding check_completions
  check_completions-Returns d h = check_in-Returns d.state d h refl
