-- ===== src/Runner/Due.antt =====
-- Which parts are configured anew by `RunnerData::maybe_reload` of rd-agent/src/cmd.rs.
use resctl_demo.Prelude.{
  ◌≡◌, refl, sym, ◌∙◌, Option, none, some, Bool, true, false, ◌||◌, ◌&&◌, List, [], ◌∷◌, ◌++◌,
  if◌then◌else◌,
}
use resctl_demo.Prelude.Outcome.{Outcome, ok, panicked, ◌>>=◌}
use resctl_demo.Runner.{Config, Parts, Rd, try}
use resctl_demo.Runner.Commands.{or_warn}
use resctl_demo.Runner.Reload.{Reloaded, apply_configs}

-- What is configured from the files.
pub data Part : Type 0 where
  iocost slices oomd : Part

abbrev pub is_anew {ℓ} : {A : Type ℓ} → Option A → Bool
is_anew none = false
is_anew (some a) = true

abbrev only_if : Bool → Part → List Part
only_if true part = part ∷ []
only_if false part = []

-- The parts that are to be configured anew: all of them if that is forced or the results of the
-- benchmarks are anew, or else those whose file is; oomd only if it is enforced.
abbrev pub due : Bool → Bool → Bool → Bool → List Part
due enforced true slice_anew oomd_anew = iocost ∷ slices ∷ only_if enforced oomd
due enforced false slice_anew oomd_anew =
    only_if slice_anew slices ++ only_if (oomd_anew && enforced) oomd

or-false : (b : Bool) → b || false ≡ b
or-false true = refl
or-false false = refl

module _ {W Svc : Type 0} (cfg : Config) (p : Parts W Svc) where
  -- One part is configured. That is warned about if it fails, but for oomd, where it panics.
  abbrev configure : Part → Rd cfg p → Outcome (Rd cfg p)
  configure iocost d = ok (or_warn cfg p p.apply_iocost d)
  configure slices d = ok (or_warn cfg p p.apply_slices d)
  configure oomd d =
      let (success, d) = try cfg p p.apply_oomd d in if success then ok d else panicked

  unfoldable pub configure_all : List Part → Rd cfg p → Outcome (Rd cfg p)
  configure_all [] d = ok d
  configure_all (part ∷ parts) d = configure part d >>= configure_all parts

  if-bind :
      (b : Bool) (d : Rd cfg p)
      → ((if b then ok d else panicked) >>= λ d. ok d) ≡ (if b then ok d else panicked)
  if-bind true d = refl
  if-bind false d = refl

  last_one : (part : Part) (d : Rd cfg p) → configure_all (part ∷ []) d ≡ configure part d
  unfolding configure_all or_warn try
  last_one iocost d = refl
  last_one slices d = refl
  last_one oomd d =
      let (success, w) = p.apply_oomd d.parts in if-bind success (record d { parts = w })

  all_due :
      (enforced s o : Bool) (re : Reloaded) (e : Rd cfg p)
      → cfg.enforce_oomd ≡ enforced
      → re.re_bench ≡ true
      → apply_configs cfg p re e ≡ configure_all (due enforced true s o) e
  unfolding apply_configs configure_all or_warn try
  all_due true s o re e en eb = rw (en, eb) (sym (last_one oomd _))
  all_due false s o re e en eb = rw (en, eb) refl

  some_due :
      (enforced s o : Bool) (re : Reloaded) (e : Rd cfg p)
      → cfg.enforce_oomd ≡ enforced
      → re.re_bench ≡ false
      → re.re_slice ≡ s
      → re.re_oomd ≡ o
      → apply_configs cfg p re e ≡ configure_all (due enforced false s o) e
  unfolding apply_configs configure_all or_warn try
  some_due true true true re e en eb es eo = rw (en, eb, es, eo) (sym (last_one oomd _))
  some_due true false true re e en eb es eo = rw (en, eb, es, eo) (sym (last_one oomd _))
  some_due true true false re e en eb es eo = rw (en, eb, es, eo) refl
  some_due true false false re e en eb es eo = rw (en, eb, es, eo) refl
  some_due false true true re e en eb es eo = rw (en, eb, es, eo) refl
  some_due false true false re e en eb es eo = rw (en, eb, es, eo) refl
  some_due false false true re e en eb es eo = rw (en, eb, es, eo) refl
  some_due false false false re e en eb es eo = rw (en, eb, es, eo) refl

  -- Applying does what is due.
  pub apply_configs-due :
      (b s o f : Bool) (re : Reloaded) (e : Rd cfg p)
      → re.re_bench ≡ b || f
      → re.re_slice ≡ s || f
      → re.re_oomd ≡ o || f
      → apply_configs cfg p re e ≡ configure_all (due cfg.enforce_oomd (b || f) s o) e
  apply_configs-due true s o f re e eb es eo = all_due cfg.enforce_oomd s o re e refl eb
  apply_configs-due false s o true re e eb es eo = all_due cfg.enforce_oomd s o re e refl eb
  apply_configs-due false s o false re e eb es eo =
      some_due cfg.enforce_oomd s o re e refl eb (es ∙ or-false s) (eo ∙ or-false o)
