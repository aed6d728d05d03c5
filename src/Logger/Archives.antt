-- ===== src/Logger/Archives.antt =====
-- Which old logs are kept in rd-hashd/src/logger.rs.
use mathlib.Core.List.{append_assoc, append-nil, Perm}
use resctl_demo.Prelude.{
  ℕ, ◌≡◌, ◌-◌, min, ◌∙◌, inl, inr, refl, sym, ap, subst, arith, List, [], ◌∷◌, ◌++◌, leb, ltb, not,
  ◌||◌, length, length-append, if-both, Bool-cases, if◌then◌else◌,
}
use resctl_demo.Text.{Text, text}
use resctl_demo.Logger.{
  LogWorker, LogOps, stamp_or_zero, expire_old_logs, expire, archive, reopen, rotate, write_line,
  log, run, opened, log_archive_path, found_logs, nr_logs, log_path,
}
use resctl_demo.Logger.Sorted.{IsByTime, sort_logs-IsByTime, sort_logs-perm}

-- The last of all logs are kept, as many as there may be beside the one that is written.
pub record IsKept (all : List Text) (nr : ℕ) (lw : LogWorker) : Type 0 where
  pub nr_is : lw.nr_to_keep ≡ nr
  pub last : (removed : List Text) × (all ≡ removed ++ lw.old_logs)
  pub count : length lw.old_logs ≡ min (length all) (nr - 1)

-- What does not touch the old logs keeps them.
same-IsKept :
    (all : List Text) (nr : ℕ) (a b : LogWorker)
    → IsKept all nr a
    → b.nr_to_keep ≡ a.nr_to_keep
    → b.old_logs ≡ a.old_logs
    → IsKept all nr b
same-IsKept all nr a b h n e = record {
  nr_is = n ∙ h.nr_is;
  last = rw e h.last;
  count = rw e h.count;
}

module _ {W : Type 0} (ops : LogOps W) where
  expire_old_logs-last :
      (nr : ℕ) (logs : List Text) (w : W)
      → (let kept = (expire_old_logs ops nr logs w).0 in
          (removed : List Text) × (logs ≡ removed ++ kept)
          × (length kept ≡ min (length logs) (nr - 1)))
  unfolding expire_old_logs
  expire_old_logs-last nr [] w = ([], refl, omega arith)
  expire_old_logs-last nr (p ∷ ps) w = elim (Bool-cases (leb nr (length (p ∷ ps)))) [
    | inl e ↦
        (let (removed, eq, count) = expire_old_logs-last nr ps (ops.remove_file p w).1 in
          rw e (p ∷ removed, ap (λ l. p ∷ l) eq, ground arith))
    | inr e ↦ rw e ([], refl, ground (arith, e))
  ]

  -- The log that is renamed when a worker rotates, if it is.
  abbrev renamed : LogWorker → W → List Text
  renamed lw w =
      let apath = log_archive_path ops lw.dir_path w in
      if (ops.rename (log_path lw.dir_path) apath w).0 then apath ∷ [] else []

  abbrev rotated : LogWorker → W → List Text
  rotated lw w = if ltb lw.size lw.unit_size || not lw.has_file then [] else renamed lw w

  -- All logs that are renamed while messages are logged, in their order.
  unfoldable pub made : List Text → LogWorker × W → List Text
  made [] s = []
  made (msg ∷ msgs) s = let rest = made msgs (log ops msg s) in rotated s.0 s.1 ++ rest

  -- After one of the old logs and newer ones has been put behind them, the excess is removed.
  expire-IsKept :
      (all more : List Text) (nr : ℕ) (lw a : LogWorker) (w : W)
      → IsKept all nr lw
      → a.nr_to_keep ≡ lw.nr_to_keep
      → a.old_logs ≡ lw.old_logs ++ more
      → IsKept (all ++ more) nr (expire ops (a, w)).0
  expire-IsKept all more nr lw a w h n e =
      let (removed, eq) = h.last in
      let (out, eq', count) = expire_old_logs-last a.nr_to_keep a.old_logs w in
      let kept = (expire_old_logs ops a.nr_to_keep a.old_logs w).0 in
      record {
        nr_is = n ∙ h.nr_is;
        last = (
          removed ++ out,
          ap (λ l. l ++ more) eq
              ∙ append_assoc removed lw.old_logs more
              ∙ ap (λ l. removed ++ l) (sym e ∙ eq')
              ∙ sym (append_assoc removed out kept),
        );
        count = omega (
          arith,
          count,
          ap length e,
          length-append lw.old_logs more,
          length-append all more,
          h.count,
          n ∙ h.nr_is,
        );
      }

  archive-old_logs :
      (lw : LogWorker) (w : W)
      → ((archive ops lw w).0.nr_to_keep ≡ lw.nr_to_keep)
        × ((archive ops lw w).0.old_logs ≡ lw.old_logs ++ renamed lw w)
  unfolding archive
  archive-old_logs lw w =
      elim (Bool-cases
        (ops.rename (log_path lw.dir_path) (log_archive_path ops lw.dir_path w) w).0) [
          | inl e ↦ rw e (refl, refl)
          | inr e ↦ rw e (refl, sym (append-nil lw.old_logs))
        ]

  reopen-IsKept :
      (all : List Text) (nr : ℕ) (s : LogWorker × W)
      → IsKept all nr s.0
      → IsKept all nr (reopen ops s).0
  unfolding reopen
  reopen-IsKept all nr (lw, w) h =
      if-both (IsKept all nr) (ops.create_new (log_path lw.dir_path) w).0 _ _
        (same-IsKept all nr lw _ h refl refl) (same-IsKept all nr lw _ h refl refl)

  rotate-IsKept :
      (all : List Text) (nr : ℕ) (lw : LogWorker) (w : W)
      → IsKept all nr lw
      → IsKept (all ++ rotated lw w) nr (rotate ops lw w).0
  unfolding rotate
  rotate-IsKept all nr lw w h = elim (Bool-cases (ltb lw.size lw.unit_size || not lw.has_file)) [
    | inl e ↦ rw (e, append-nil all) h
    | inr e ↦
        (let (n, old) = archive-old_logs lw w in
          let a = archive ops lw w in
          rw e (
            reopen-IsKept (all ++ renamed lw w) nr (expire ops a)
              (expire-IsKept all (renamed lw w) nr lw a.0 a.1 h n old)))
  ]

  log-IsKept :
      (all : List Text) (nr : ℕ) (msg : Text) (s : LogWorker × W)
      → IsKept all nr s.0
      → IsKept (all ++ rotated s.0 s.1) nr (log ops msg s).0
  unfolding log write_line
  log-IsKept all nr msg (lw, w) h =
      let k = rotate-IsKept all nr lw w h in
      let (a, v) = rotate ops lw w in
      if-both (λ (t : LogWorker × W). IsKept (all ++ rotated lw w) nr t.0) a.has_file _ _
        (same-IsKept (all ++ rotated lw w) nr a _ k refl refl) k

  run-IsKept :
      (msgs all : List Text) (nr : ℕ) (s : LogWorker × W)
      → IsKept all nr s.0
      → IsKept (all ++ made msgs s) nr (run ops msgs s).0
  unfolding run made
  run-IsKept [] all nr s h = rw (append-nil all) h
  run-IsKept (msg ∷ msgs) all nr s h =
      subst (λ l. IsKept l nr (run ops msgs (log ops msg s)).0)
        (append_assoc all (rotated s.0 s.1) (made msgs (log ops msg s)))
        (run-IsKept msgs (all ++ rotated s.0 s.1) nr (log ops msg s) (log-IsKept all nr msg s h))

  module _ (dir : Text) (w : W) where
    -- What the logger comes to that starts in a directory, with the logs that it makes.
    pub record IsRotated (newer : List Text) (most : ℕ) (lw : LogWorker) : Type 0 where
      pub complete : Perm (ops.list_logs (log_path dir ++ text "-") w) (found_logs ops dir w)
      pub by_time :
          IsByTime
            (λ p. stamp_or_zero (ops.stamp (log_path dir ++ text "-") p))
            (found_logs ops dir w)
      pub kept : IsKept (found_logs ops dir w ++ newer) most lw

  -- The logs that a logger starts with are all those of its directory, none of them older than the
  -- one before it. However many messages are then logged, and whatever fails, the old logs are just
  -- the last ones of those it started with, followed by those it has renamed since, in their order:
  -- all of them if there are fewer than there may be logs, or else one less than there may be, and
  -- none if there may be none.
  pub run-IsRotated :
      (dir : Text) (padding unit_size max_size size : ℕ) (w : W) (msgs : List Text)
      → (let s = opened ops dir padding unit_size max_size size w in
          IsRotated dir w (made msgs s) (nr_logs ops unit_size max_size) (run ops msgs s).0)
  unfolding opened
  run-IsRotated dir padding unit_size max_size size w msgs =
      let found = found_logs ops dir w in
      let nr = nr_logs ops unit_size max_size in
      let (removed, eq, count) = expire_old_logs-last nr found w in
      let opened-IsKept : IsKept found nr (opened ops dir padding unit_size max_size size w).0 =
        record { nr_is = refl; last = (removed, eq); count = count } in
      record {
        complete = sort_logs-perm _ (ops.list_logs (log_path dir ++ text "-") w);
        by_time = sort_logs-IsByTime _ (ops.list_logs (log_path dir ++ text "-") w);
        kept =
            run-IsKept msgs found nr (opened ops dir padding unit_size max_size size w)
              opened-IsKept;
      }
