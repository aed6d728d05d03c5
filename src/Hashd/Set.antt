-- ===== src/Hashd/Set.antt =====
-- `HashdSet` of rd-agent/src/hashd.rs: its two instances, which every operation handles in order.
use resctl_demo.Prelude.{
  ℕ, List, [], ◌∷◌, ◌++◌, Option, none, some, Bool, true, false, not, ◌&&◌, if◌then◌else◌,
}
use resctl_demo.Text.{Text, text}
use resctl_demo.Systemd.{UnitResCtl}
use resctl_demo.Side.{is_some}
use resctl_demo.Hashd.{Floats, HashdCmd, HashdKnobs, Hashd, HashdOps}
use resctl_demo.Hashd.Params.{weights_to_fracs, update_params}

pub record HashdSet (F Svc : Type 0) : Type 0 where
  pub a : Hashd F Svc
  pub b : Hashd F Svc

-- The commands for the two instances, and their shares.
pub record Cmds (F : Type 0) : Type 0 where
  pub a : HashdCmd F
  pub b : HashdCmd F

module _ {F R W Svc : Type 0} (fl : Floats F) (ops : HashdOps W F R Svc) where
  -- What is done to one instance, with its command and its share: whether it succeeded.
  abbrev pub Handler : Type 0
  Handler = HashdCmd F → F → Hashd F Svc → W → Bool × Hashd F Svc × W

  abbrev pub second :
      HashdCmd F → F → Hashd F Svc → Handler → HashdSet F Svc → W → Bool × HashdSet F Svc × W
  second c x a f set w =
      let (success, b, w) = f c x set.b w in (success, record { a = a; b = b }, w)

  -- A loop over the instances, which ends at the first error.
  unfoldable pub for_both :
      Handler → Cmds F → F × F → HashdSet F Svc → W → Bool × HashdSet F Svc × W
  for_both f cmds fracs set w =
      let (success, a, w) = f cmds.a fracs.0 set.a w in
      elim success [
        | false ↦ (false, record set { a = a }, w)
        | true ↦ second cmds.b fracs.1 a f set w
      ]

  unfoldable pub drop_gone : Option Svc → Hashd F Svc → W → Bool × Hashd F Svc × W
  drop_gone none h w = (true, h, w)
  drop_gone (some svc) h w = (true, record h { svc = none; started_at = none }, ops.drop_svc svc w)

  unfoldable pub handle_goner : Handler
  unfolding drop_gone
  handle_goner cmd frac h w = if cmd.active then (true, h, w) else drop_gone h.svc h w

  unfoldable pub adjust_args : Handler
  adjust_args cmd frac h w = (true, record h { file_max_ratio = cmd.file_max_ratio }, w)

  unfoldable pub adjust_params : HashdKnobs F → Handler
  unfolding update_params
  adjust_params knobs cmd frac h w =
      if fl.eq frac fl.zero then (true, h, w) else update_params fl ops knobs cmd frac h w

  unfoldable pub start_with : Option Svc → Hashd F Svc → W → Bool × Hashd F Svc × W
  start_with none h w = (false, h, w)
  start_with (some svc) h w =
      let (success, svc, w) = ops.start_svc svc w in
      if success
      then (let (at, w) = ops.now w in (true, record h { svc = some svc; started_at = some at }, w))
      else (false, h, ops.drop_svc svc w)

  abbrev pub start_args : ℕ → Hashd F Svc → List Text
  start_args mem_size h =
      h.path_args
      ++ text "--size" ∷ ops.show_num mem_size ∷ text "--file-max" ∷ fl.show h.file_max_ratio ∷ []

  unfoldable pub start : ℕ → Hashd F Svc → W → Bool × Hashd F Svc × W
  unfolding start_with
  start mem_size h w =
      let (svc, w) = ops.new_sys h.name (start_args mem_size h) w in start_with svc h w

  unfoldable pub start_missing : HashdKnobs F → Handler
  unfolding start
  start_missing knobs cmd frac h w =
      if cmd.active && not (is_some h.svc) then start knobs.mem_size h w else (true, h, w)

  unfoldable pub update_resctl : ℕ → F → Svc → Hashd F Svc → W → Bool × Hashd F Svc × W
  update_resctl mem_low frac svc h w =
      let resctl : UnitResCtl = record {
        cpu_weight = some (fl.ceil_mul 100 frac);
        io_weight = some (fl.ceil_mul 100 frac);
        mem_min = none;
        mem_low = some (fl.ceil_mul mem_low frac);
        mem_high = none;
        mem_max = none;
      } in
      let (success, svc, w) = ops.apply_resctl resctl svc w in
      (success, record h { svc = some svc }, w)

  unfoldable pub update_running : ℕ → Handler
  unfolding update_resctl
  update_running mem_low cmd frac h w = elim h.svc [
    | none ↦ (true, h, w)
    | some svc ↦ update_resctl mem_low frac svc h w
  ]

  -- A loop after those before it, if these have succeeded.
  abbrev pub and_then :
      (HashdSet F Svc → W → Bool × HashdSet F Svc × W)
      → Bool × HashdSet F Svc × W
      → Bool × HashdSet F Svc × W
  and_then f (success, set, w) = elim success [ false ↦ (false, set, w) | true ↦ f set w ]

  unfoldable pub apply : Cmds F → HashdKnobs F → ℕ → HashdSet F Svc → W → Bool × HashdSet F Svc × W
  unfolding for_both weights_to_fracs
  apply cmds knobs mem_low set w =
      let fracs = weights_to_fracs fl cmds.a cmds.b in
      let x = for_both handle_goner cmds fracs set w in
      let x = and_then (for_both adjust_args cmds fracs) x in
      let x = and_then (for_both (adjust_params knobs) cmds fracs) x in
      let x = and_then (for_both (start_missing knobs) cmds fracs) x in
      and_then (for_both (update_running mem_low) cmds fracs) x

  pub mark_bench_start : HashdSet F Svc → W → HashdSet F Svc × W
  mark_bench_start set w =
      let (at, w) = ops.now w in (record set { a = record set.a { started_at = some at } }, w)

  pub stop : HashdSet F Svc → W → HashdSet F Svc × W
  unfolding drop_gone
  stop set w =
      let (success, a, w) = drop_gone set.a.svc set.a w in
      let (success, b, w) = drop_gone set.b.svc set.b w in (record { a = a; b = b }, w)
