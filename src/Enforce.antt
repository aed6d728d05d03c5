-- ===== src/Enforce.antt =====
-- What rd-agent enforces: `EnforceConfig` of rd-agent-intf/src/args.rs.
pub mod RoundTrip
mod Tests
use resctl_demo.Prelude.{
  ℕ, List, [], ◌∷◌, ◌++◌, Option, none, some, Bool, true, false, ◌&&◌, ◌||◌, not, ◌==◌,
  if◌then◌else◌,
}
use resctl_demo.Text.{Text, text, cmp_text}
use resctl_demo.Text.Split.{push_first}
use resctl_demo.BTreeMap.{is_eq}

pub record EnforceConfig : Type 0 where
  pub crit_mem_prot : Bool
  pub cpu : Bool
  pub mem : Bool
  pub io : Bool
  pub fs : Bool
  pub oomd : Bool

abbrev pub default : EnforceConfig
default = record { crit_mem_prot = true; cpu = true; mem = true; io = true; fs = true; oomd = true }

abbrev pub all_passive : EnforceConfig
all_passive = record {
  crit_mem_prot = false;
  cpu = false;
  mem = false;
  io = false;
  fs = false;
  oomd = false;
}

abbrev pub crit_mem_prot_only : EnforceConfig
crit_mem_prot_only = record all_passive { crit_mem_prot = true }

abbrev pub same : Text → Text → Bool
same a b = is_eq (cmp_text a b)

-- One entry of a list of what is to be passive.
pub merge_one : Text → EnforceConfig → Option EnforceConfig
merge_one passive c =
    if same passive (text "ALL")
    then some all_passive
    else if same passive (text "all")
    then some crit_mem_prot_only
    else if same passive (text "cpu")
    then some (record c { cpu = false })
    else if same passive (text "mem")
    then some (record c { mem = false })
    else if same passive (text "io")
    then some (record c { io = false })
    else if same passive (text "fs")
    then some (record c { fs = false })
    else if same passive (text "oomd")
    then some (record c { oomd = false })
    else if same passive (text "none")
    then some default
    else if same passive []
    then some c
    else none

-- `split` at a comma or a slash.
pub split_any : Text → List Text
unfolding push_first
split_any [] = [] ∷ []
split_any (c ∷ cs) =
    let rest = split_any cs in if c == b',' || c == b'/' then [] ∷ rest else push_first c rest

pub merge_all : List Text → EnforceConfig → Option EnforceConfig
unfolding merge_one
merge_all [] c = some c
merge_all (p ∷ ps) c = elim (merge_one p c) [ none ↦ none | some c ↦ merge_all ps c ]

pub parse_and_merge : Text → EnforceConfig → Option EnforceConfig
unfolding merge_all split_any
parse_and_merge input c = merge_all (split_any input) c

-- `String::pop`, when its result is not used
pub pop : Text → Text
pop [] = []
pop (c ∷ []) = []
pop (c ∷ d ∷ cs) = c ∷ pop (d ∷ cs)

pub passive_entries : EnforceConfig → Text
passive_entries c =
    (if c.cpu then [] else text "cpu/")
    ++ ((if c.mem then [] else text "mem/")
        ++ ((if c.io then [] else text "io/")
            ++ ((if c.fs then [] else text "fs/") ++ (if c.oomd then [] else text "oomd/"))))

pub to_passive_string : EnforceConfig → Text
unfolding passive_entries pop
to_passive_string c =
    if not c.crit_mem_prot
    then text "ALL"
    else if not c.cpu && not c.mem && not c.io && not c.fs && not c.oomd
    then text "all"
    else pop (passive_entries c)

pub all : EnforceConfig → Bool
all c = c.crit_mem_prot && c.cpu && c.mem && c.io && c.fs && c.oomd
