-- ===== src/Logger/Tests.antt =====
-- The logger at concrete inputs: the state counts the steps.
use resctl_demo.Prelude.{ℕ, suc, ◌≡◌, refl, List, [], ◌∷◌, some, true, length}
use resctl_demo.Prelude.Order.{cmp_pair}
use resctl_demo.Text.{Text, text}
use resctl_demo.Logger.{LogWorker, LogOps, opened, run, padded, nr_logs, sort_logs}
use resctl_demo.Logger.Archives.{made, IsRotated, run-IsRotated}

abbrev ops : LogOps ℕ
ops = record {
  now = λ w. w;
  now_str = λ w. text "now";
  show_num = λ n. n ∷ [];
  random = λ w. (w, suc w);
  rename = λ old new' w. (true, suc w);
  remove_file = λ p w. (true, suc w);
  create_new = λ p w. (true, w);
  write_all = λ line w. (true, w);
  open_log = λ p w. (some 0, w);
  list_logs = λ p w. text "b" ∷ text "a" ∷ [];
  stamp = λ p name. some (length name, 0);
}

abbrev lines : List Text
lines = text "one" ∷ text "two" ∷ text "three" ∷ []

-- Each line fills a file, of which there may be three.
abbrev after : LogWorker
after = (run ops lines (opened ops [] 0 10 30 0 0)).0

two_old_logs : length after.old_logs ≡ 2
unfolding run opened sort_logs cmp_pair
two_old_logs = refl

-- The padding takes the place of the line end.
padded_line : length (padded ops (text "one") 9 0).0 ≡ 9
unfolding padded
padded_line = refl

run-IsRotated_example :
    (let s = opened ops [] 0 10 30 0 0 in
      IsRotated ops [] 0 (made ops lines s) (nr_logs ops 10 30) (run ops lines s).0)
run-IsRotated_example = run-IsRotated ops [] 0 10 30 0 0 lines
