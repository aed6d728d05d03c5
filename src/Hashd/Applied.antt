-- ===== src/Hashd/Applied.antt =====
-- What `HashdSet::apply` of rd-agent/src/hashd.rs leaves of the two instances.
use resctl_demo.Prelude.{
  ℕ, ◌≡◌, Option, none, Bool, true, false, not, ◌&&◌, ◌||◌, if◌then◌else◌, ◌⊎◌,
}
use resctl_demo.Side.{is_some}
use resctl_demo.Hashd.{Floats, HashdCmd, Hashd, HashdOps}
use resctl_demo.Hashd.Set.{Handler}

-- When the instance was started: one that is to run and did not has been, one that was to end has
-- not, and else it is as before.
abbrev pub IsStarted : Bool → Bool → Option ℕ → Option ℕ → Type 0
IsStarted active running before after =
    (((active && not running) ≡ true) × (is_some after ≡ true))
    ⊎ (((active && not running) ≡ false)
        × (after ≡ (if not active && running then none else before)))

module _ {F Svc : Type 0} where
  -- What is the same of an instance, whatever is applied.
  abbrev IsSame : Hashd F Svc → Hashd F Svc → Type 0
  IsSame h k = (k.name ≡ h.name) × (k.params_path ≡ h.params_path) × (k.path_args ≡ h.path_args)

  pub record IsApplied (cmd : HashdCmd F) (h k : Hashd F Svc) : Type 0 where
    pub runs : is_some k.svc ≡ cmd.active
    pub started : IsStarted cmd.active (is_some h.svc) h.started_at k.started_at
    pub file_max : k.file_max_ratio ≡ cmd.file_max_ratio
    pub same : IsSame h k

  -- Whether it runs and when it was started, and the ratio it is started with.
  abbrev Kept : Hashd F Svc → Hashd F Svc → Type 0
  Kept h k =
      (is_some k.svc ≡ is_some h.svc)
      × (k.started_at ≡ h.started_at)
      × (k.file_max_ratio ≡ h.file_max_ratio)
      × IsSame h k

module _ {F R W Svc : Type 0} (fl : Floats F) (ops : HashdOps W F R Svc) where
  -- A handler makes this relation hold where it succeeds.
  abbrev Makes : (HashdCmd F → Hashd F Svc → Hashd F Svc → Type 0) → Handler fl ops → Type 0
  Makes P f =
      (c : HashdCmd F) (x : F) (h : Hashd F Svc) (w : W)
      → (f c x h w).0 ≡ true
      → P c h (f c x h w).1

  abbrev MakesGone : HashdCmd F → Hashd F Svc → Hashd F Svc → Type 0
  MakesGone c h k =
      (is_some k.svc ≡ (c.active && is_some h.svc))
      × (k.started_at ≡ (if not c.active && is_some h.svc then none else h.started_at))
      × IsSame h k

  abbrev HasArgs : HashdCmd F → Hashd F Svc → Hashd F Svc → Type 0
  HasArgs c h k =
      (is_some k.svc ≡ is_some h.svc)
      × (k.started_at ≡ h.started_at)
      × (k.file_max_ratio ≡ c.file_max_ratio)
      × IsSame h k

  abbrev IsKept : HashdCmd F → Hashd F Svc → Hashd F Svc → Type 0
  IsKept c h k = Kept h k

  abbrev MakesRun : HashdCmd F → Hashd F Svc → Hashd F Svc → Type 0
  MakesRun c h k =
      (is_some k.svc ≡ (c.active || is_some h.svc))
      × ((((c.active && not (is_some h.svc)) ≡ true) × (is_some k.started_at ≡ true))
          ⊎ (((c.active && not (is_some h.svc)) ≡ false) × (k.started_at ≡ h.started_at)))
      × (k.file_max_ratio ≡ h.file_max_ratio)
      × IsSame h k
