-- ===== src/Side/Tests.antt =====
-- Side loads and the balloon at concrete inputs, on a machine that counts what is started.
use resctl_demo.Prelude.{ℕ, suc, ◌≡◌, refl, inl, ◌⊎◌, List, [], ◌∷◌, ◌++◌, none, some, true, false}
use resctl_demo.Text.{Text, text, cmp_text}
use resctl_demo.Systemd.{UnitState}
use resctl_demo.Side.{SideOps, SideloadSpec, make_sysload, make_sideload}
use resctl_demo.Side.Reconcile.{
  SideRunner, apply_sysloads, apply_sideloads, IsApplied, IsOrder, apply_sysloads-IsApplied,
  apply_sideloads-IsApplied,
}
use resctl_demo.Side.Balloons.{Balloon, BalloonOps, IsSized, set_size, set_size-IsSized}

abbrev ops : SideOps ℕ ℕ Text
ops = record {
  find_bin = λ bin w. some bin;
  sysload_svc_name = λ name. text "rd-sysload-" ++ name;
  sideload_svc_name = λ name. text "rd-sideload-" ++ name;
  new_svc = λ name args w. (some w, w);
  drop_svc = λ svc w. w;
  new_unit = λ name w. (some name, w);
  prep_sys_dir = λ name w. (some name, w);
  prep_side_dir = λ name w. (some name, w);
  start_svc = λ path svc w. (true, suc w);
  job_path = λ name. name;
  save_job = λ name spec path w. (true, suc w);
}

abbrev defs : List (Text × SideloadSpec)
defs = (text "hog", record { args = text "hog" ∷ []; frozen_exp = 10 }) ∷ []

abbrev runner : SideRunner ℕ Text
runner = record {
  sysloads =
      (text "a", record { scr_path = text "a"; svc = 7 })
      ∷ (text "b", record { scr_path = text "b"; svc = 8 })
      ∷ [];
  sideloads = [];
}

abbrev target : List (Text × Text)
target = (text "b", text "hog") ∷ (text "c", text "hog") ∷ []

abbrev same_order : List Text → List Text
same_order ks = ks

same_order-IsOrder : IsOrder same_order
same_order-IsOrder ks k = refl

applies : (apply_sysloads ops same_order defs target runner 0).0 ≡ true
unfolding apply_sysloads make_sysload cmp_text
applies = refl

applies_side : (apply_sideloads ops same_order defs target runner 0).0 ≡ true
unfolding apply_sideloads make_sideload cmp_text
applies_side = refl

apply_sysloads-IsApplied_example :
    IsApplied target runner.sysloads (apply_sysloads ops same_order defs target runner 0).1.sysloads
apply_sysloads-IsApplied_example =
    apply_sysloads-IsApplied ops same_order defs target runner 0 same_order-IsOrder applies

apply_sideloads-IsApplied_example :
    IsApplied target runner.sideloads
      (apply_sideloads ops same_order defs target runner 0).1.sideloads
apply_sideloads-IsApplied_example =
    apply_sideloads-IsApplied ops same_order defs target runner 0 same_order-IsOrder applies_side

abbrev balloon_ops : BalloonOps ℕ ℕ
balloon_ops = record {
  refresh = λ svc w. (true, UnitState.running, w);
  drop_svc = λ svc w. w;
  stop_old = λ w. w;
  new_svc = λ size w. (some size, w);
  start = λ svc w. (true, suc w);
}

abbrev flat : Balloon ℕ
flat = record { size = 0; svc = none }

set_size-IsSized_example :
    (((set_size balloon_ops 5 flat 0).0 ≡ true)
      × IsSized balloon_ops 5 (set_size balloon_ops 5 flat 0).1)
    ⊎ (((set_size balloon_ops 5 flat 0).0 ≡ false) × ((set_size balloon_ops 5 flat 0).1.svc ≡ none))
set_size-IsSized_example = set_size-IsSized balloon_ops 5 flat 0 (inl refl)
