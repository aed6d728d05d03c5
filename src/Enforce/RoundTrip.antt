-- ===== src/Enforce/RoundTrip.antt =====
-- What is parsed is a configuration that `to_passive_string` of rd-agent-intf/src/args.rs prints in
-- full.
use resctl_demo.Prelude.{
  ◌≡◌, refl, List, [], ◌∷◌, Option, none, some, Bool, not, ◌&&◌, true, false, arith, ◌⊎◌, inl, inr,
  Option-cases, ◌∙◌, subst, sym, if◌then◌else◌,
}
use resctl_demo.Text.{Text, text, cmp_text}
use resctl_demo.Enforce.{
  EnforceConfig, default, all_passive, merge_one, merge_all, split_any, parse_and_merge,
  to_passive_string, same,
}

-- Where the critical memory is not protected, nothing is enforced.
abbrev pub IsValid : EnforceConfig → Type 0
IsValid c = (c.crit_mem_prot ≡ true) ⊎ (c ≡ all_passive)

-- The same of what may have failed.
abbrev StaysValid : Option EnforceConfig → Type 0
StaysValid none = Unit
StaysValid (some c) = IsValid c

StaysValid-if :
    (b : Bool) (x y : Option EnforceConfig)
    → StaysValid x
    → StaysValid y
    → StaysValid (if b then x else y)
StaysValid-if true x y h k = h
StaysValid-if false x y h k = k

less-IsValid :
    (c d : EnforceConfig)
    → d.crit_mem_prot ≡ c.crit_mem_prot
    → (c ≡ all_passive → d ≡ all_passive)
    → IsValid c
    → IsValid d
less-IsValid c d e f (inl p) = inl (e ∙ p)
less-IsValid c d e f (inr p) = inr (f p)

merge_one-StaysValid : (p : Text) (c : EnforceConfig) → IsValid c → StaysValid (merge_one p c)
unfolding merge_one
merge_one-StaysValid p c v =
    let less = λ (d : EnforceConfig). less-IsValid c d in
    StaysValid-if (same p (text "ALL")) _ _ (inr refl) (
      StaysValid-if (same p (text "all")) _ _ (inl refl) (
        StaysValid-if (same p (text "cpu")) _ _ (less _ refl (λ e. rw e refl) v) (
          StaysValid-if (same p (text "mem")) _ _ (less _ refl (λ e. rw e refl) v) (
            StaysValid-if (same p (text "io")) _ _ (less _ refl (λ e. rw e refl) v) (
              StaysValid-if (same p (text "fs")) _ _ (less _ refl (λ e. rw e refl) v) (
                StaysValid-if (same p (text "oomd")) _ _ (less _ refl (λ e. rw e refl) v) (
                  StaysValid-if (same p (text "none")) _ _ (inl refl)
                    (StaysValid-if (same p []) _ _ v tt))))))))

merge_one-IsValid :
    (p : Text) (c d : EnforceConfig) → merge_one p c ≡ some d → IsValid c → IsValid d
merge_one-IsValid p c d e v = subst StaysValid e (merge_one-StaysValid p c v)

merge_all-IsValid :
    (ps : List Text) (c d : EnforceConfig) → merge_all ps c ≡ some d → IsValid c → IsValid d
unfolding merge_all
merge_all-IsValid [] c d e v = ground (arith, v)
merge_all-IsValid (p ∷ ps) c d e v = elim (Option-cases (merge_one p c)) [
  | inl failed ↦ ground (arith, failed, e)
  | inr (c', is) ↦ merge_all-IsValid ps c' d (ground (arith, is, e)) (merge_one-IsValid p c c' is v)
]

pub parse_and_merge-IsValid :
    (input : Text) (c d : EnforceConfig) → parse_and_merge input c ≡ some d → IsValid c → IsValid d
unfolding parse_and_merge
parse_and_merge-IsValid input c d e v = merge_all-IsValid (split_any input) c d e v

-- The configurations with the critical memory protected are checked by evaluation.
every : (Bool → Bool) → Bool
every f = f true && f false

every_sound : (f : Bool → Bool) → every f ≡ true → (b : Bool) → f b ≡ true
unfolding every
every_sound f h true = ground arith
every_sound f h false = ground arith

same_flag : Bool → Bool → Bool
same_flag true b = b
same_flag false b = not b

same_flag-eq : (a b : Bool) → same_flag a b ≡ true → a ≡ b
unfolding same_flag
same_flag-eq true b h = sym h
same_flag-eq false true h = cc
same_flag-eq false false h = refl

abbrev protected : Bool → Bool → Bool → Bool → Bool → EnforceConfig
protected cpu mem io fs oomd = record {
  crit_mem_prot = true;
  cpu = cpu;
  mem = mem;
  io = io;
  fs = fs;
  oomd = oomd;
}

same_config : EnforceConfig → Option EnforceConfig → Bool
unfolding same_flag
same_config c none = false
same_config c (some d) =
    same_flag d.crit_mem_prot c.crit_mem_prot
    && same_flag d.cpu c.cpu
    && same_flag d.mem c.mem
    && same_flag d.io c.io
    && same_flag d.fs c.fs
    && same_flag d.oomd c.oomd

same_config-eq :
    (c : EnforceConfig) (o : Option EnforceConfig) → same_config c o ≡ true → o ≡ some c
unfolding same_config
same_config-eq c none h = cc
same_config-eq c (some d) h = ground (
  arith,
  same_flag-eq d.crit_mem_prot c.crit_mem_prot,
  same_flag-eq d.cpu c.cpu,
  same_flag-eq d.mem c.mem,
  same_flag-eq d.io c.io,
  same_flag-eq d.fs c.fs,
  same_flag-eq d.oomd c.oomd,
)

comes_back : Bool → Bool → Bool → Bool → Bool → Bool
unfolding same_config
comes_back cpu mem io fs oomd =
    let c = protected cpu mem io fs oomd in
    same_config c (parse_and_merge (to_passive_string c) default)

all_come_back :
    every (λ cpu. every (λ mem. every (λ io. every (λ fs. every (comes_back cpu mem io fs)))))
    ≡ true
unfolding every comes_back parse_and_merge to_passive_string merge_one cmp_text
all_come_back = refl

parse-print_protected :
    (cpu mem io fs oomd : Bool)
    → parse_and_merge (to_passive_string (protected cpu mem io fs oomd)) default
      ≡ some (protected cpu mem io fs oomd)
unfolding comes_back
parse-print_protected cpu mem io fs oomd =
    let h = every_sound _ all_come_back cpu in
    let h = every_sound _ h mem in
    let h = every_sound _ h io in
    let h = every_sound _ h fs in same_config-eq _ _ (every_sound _ h oomd)

parse-print_passive : parse_and_merge (to_passive_string all_passive) default ≡ some all_passive
unfolding parse_and_merge to_passive_string merge_one cmp_text
parse-print_passive = refl

-- What is printed of a configuration that is parsed, from any list of entries, parses back to it.
pub print-parse :
    (input : Text) (c : EnforceConfig)
    → parse_and_merge input default ≡ some c
    → parse_and_merge (to_passive_string c) default ≡ some c
print-parse input c e = elim (parse_and_merge-IsValid input default c e (inl refl)) [
  | inl p ↦
      subst
        (λ b.
          (let d : EnforceConfig = record c { crit_mem_prot = b } in
            parse_and_merge (to_passive_string d) default ≡ some d))
        (sym p) (parse-print_protected c.cpu c.mem c.io c.fs c.oomd)
  | inr p ↦
      subst (λ d. parse_and_merge (to_passive_string d) default ≡ some d) (sym p)
        parse-print_passive
]
