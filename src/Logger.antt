-- ===== src/Logger.antt =====
-- The logger of rd-hashd: `LogWorker` of rd-hashd/src/logger.rs.
--
-- The files are a state `W` with operations that may fail, in `LogOps`. A line is the list of its
-- bytes. The messages of the channel are a list.
pub mod Sorted
pub mod Archives
mod Tests
use Prim.Native.Nat.{Ordering}
use resctl_demo.Prelude.{
  ℕ, zero, suc, ◌==◌, ◌+◌, ◌-◌, ◌/◌, ◌%◌, List, [], ◌∷◌, ◌++◌, Option, none, some, Bool, true,
  false, not, ◌||◌, ltb, leb, length, if◌then◌else◌,
}
use resctl_demo.Prelude.Words.{add64, u64_mod}
use resctl_demo.Prelude.Order.{Ord, ℕ_ord, pair_ord}
use resctl_demo.Prelude.Outcome.{Outcome, ok, panicked}
use resctl_demo.Text.{Text, text}

pub record LogWorker : Type 0 where
  pub dir_path : Text
  pub padding : ℕ
  pub unit_size : ℕ
  pub nr_to_keep : ℕ
  pub has_file : Bool
  pub size : ℕ
  pub old_logs : List Text

pub record LogOps (W : Type 0) : Type 0 where
  -- in microseconds
  pub now : W → ℕ
  pub now_str : W → Text
  pub show_num : ℕ → Text
  pub random : W → ℕ × W
  pub rename : Text → Text → W → Bool × W
  pub remove_file : Text → W → Bool × W
  pub create_new : Text → W → Bool × W
  pub write_all : List ℕ → W → Bool × W
  -- the directory is made and the log opened, which gives its size
  pub open_log : Text → W → Option ℕ × W
  pub list_logs : Text → W → List Text
  -- the seconds and microseconds of a name after the prefix
  pub stamp : Text → Text → Option (ℕ × ℕ)

abbrev pub log_path : Text → Text
log_path dir = dir ++ text "/rd-hashd.log"

-- Names in the order of their times; a name without one is the oldest.
module _ (stamp_of : Text → ℕ × ℕ) where
  unfoldable pub insert_log : Text → List Text → List Text
  insert_log p [] = p ∷ []
  insert_log p (q ∷ qs) =
      let rest = insert_log p qs in
      elim (pair_ord.cmp (stamp_of p) (stamp_of q)) [ Ordering.gt ↦ q ∷ rest | _ ↦ p ∷ q ∷ qs ]

  unfoldable pub sort_logs : List Text → List Text
  unfolding insert_log
  sort_logs [] = []
  sort_logs (p ∷ ps) = insert_log p (sort_logs ps)

abbrev pub stamp_or_zero : Option (ℕ × ℕ) → ℕ × ℕ
stamp_or_zero none = (0, 0)
stamp_or_zero (some s) = s

module _ {W : Type 0} (ops : LogOps W) where
  pub log_archive_path : Text → W → Text
  log_archive_path dir w =
      log_path dir
      ++ text "-"
      ++ ops.show_num (ops.now w / 1000000)
      ++ text "."
      ++ ops.show_num (ops.now w % 1000000)

  -- A file that cannot be removed is forgotten all the same.
  unfoldable pub expire_old_logs : ℕ → List Text → W → List Text × W
  expire_old_logs nr [] w = ([], w)
  expire_old_logs nr (p ∷ ps) w =
      let rest = expire_old_logs nr ps (ops.remove_file p w).1 in
      if leb nr (length (p ∷ ps)) then rest else (p ∷ ps, w)

  abbrev pub expire : LogWorker × W → LogWorker × W
  expire (lw, w) =
      let (logs, w) = expire_old_logs lw.nr_to_keep lw.old_logs w in
      (record lw { old_logs = logs }, w)

  -- How many files there may be, the last one included.
  abbrev pub nr_logs : ℕ → ℕ → ℕ
  nr_logs unit_size max_size = (add64 max_size unit_size + (u64_mod - 1)) % u64_mod / unit_size

  -- The logs of the directory, the oldest first.
  abbrev pub found_logs : Text → W → List Text
  found_logs dir w =
      let prefix = log_path dir ++ text "-" in
      sort_logs (λ p. stamp_or_zero (ops.stamp prefix p)) (ops.list_logs prefix w)

  unfoldable pub opened : Text → ℕ → ℕ → ℕ → ℕ → W → LogWorker × W
  unfolding expire_old_logs
  opened dir padding unit_size max_size size w = expire (
    record {
      dir_path = dir;
      padding = padding;
      unit_size = unit_size;
      nr_to_keep = nr_logs unit_size max_size;
      has_file = true;
      size = size;
      old_logs = found_logs dir w;
    },
    w,
  )

  -- It panics where it divides by zero.
  unfoldable pub new : Text → ℕ → ℕ → ℕ → W → Outcome (Option (LogWorker × W))
  unfolding opened
  new dir padding unit_size max_size w =
      let (res, w) = ops.open_log dir w in
      elim res [
        | none ↦ ok none
        | some size ↦
            if unit_size == 0
            then panicked
            else ok (some (opened dir padding unit_size max_size size w))
      ]

  unfoldable pub archive : LogWorker → W → LogWorker × W
  unfolding log_archive_path
  archive lw w =
      let apath = log_archive_path lw.dir_path w in
      let (renamed, w) = ops.rename (log_path lw.dir_path) apath w in
      (if renamed then record lw { old_logs = lw.old_logs ++ apath ∷ [] } else lw, w)

  unfoldable pub reopen : LogWorker × W → LogWorker × W
  reopen (lw, w) =
      let (created, w) = ops.create_new (log_path lw.dir_path) w in
      (
        if created then record lw { has_file = true; size = 0 } else record lw { has_file = false },
        w,
      )

  unfoldable pub rotate : LogWorker → W → LogWorker × W
  unfolding archive reopen expire_old_logs
  rotate lw w =
      if ltb lw.size lw.unit_size || not lw.has_file
      then (lw, w)
      else reopen (expire (archive lw w))

  -- Random bytes.
  unfoldable pub noise : ℕ → W → List ℕ × W
  noise zero w = ([], w)
  noise (suc n) w = let (b, w) = ops.random w in let (bs, w) = noise n w in (b ∷ bs, w)

  -- The line end moves behind the padding.
  unfoldable pub padded : List ℕ → ℕ → W → List ℕ × W
  unfolding noise
  padded msg min_len w =
      let line_len = length msg + 1 in
      let (bs, w) = noise (min_len - 1 - line_len) w in
      if ltb line_len min_len then (msg ++ b' ' ∷ bs ++ 10 ∷ [], w) else (msg ++ 10 ∷ [], w)

  unfoldable pub write_line : Text → LogWorker × W → LogWorker × W
  unfolding padded
  write_line msg (lw, w) =
      if lw.has_file
      then (let (line, w) = padded (text "[" ++ ops.now_str w ++ text "] " ++ msg) lw.padding w in
          let (written, w) = ops.write_all line w in
          (record lw { has_file = written; size = add64 lw.size (length line) }, w))
      else (lw, w)

  unfoldable pub log : Text → LogWorker × W → LogWorker × W
  unfolding rotate write_line
  log msg (lw, w) = write_line msg (rotate lw w)

  unfoldable pub run : List Text → LogWorker × W → LogWorker × W
  unfolding log
  run [] s = s
  run (msg ∷ msgs) s = run msgs (log msg s)
