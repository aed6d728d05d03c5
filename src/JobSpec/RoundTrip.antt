-- ===== src/JobSpec/RoundTrip.antt =====
-- `parse_job_spec` after `format_job_props`.
use mathlib.Core.List.{append_assoc, append-nil}
use resctl_demo.Prelude.{
  ℕ, ◌+◌, ◌<◌, ◌≡◌, ◌≢◌, refl, sym, ap, ◌∙◌, [], ◌∷◌, ◌++◌, map, none, some, arith, count,
  count-append, length, length-append, All, Bool, true, false, ltb, if◌then◌else◌, subst,
}
use resctl_demo.Text.{Text, text_ord}
use resctl_demo.Text.Split.{split, split-append, split_last, splitn_two-append, splitn_two_last}
use resctl_demo.BTreeMap.{remove_missing}
use resctl_demo.BTreeMap.Sorted.{IsSorted, IsSorted-middle, insert_last}
use resctl_demo.JobSpec.{
  PropSet, JobProps, colon, comma, equals, format_props, format_groups, format_job_props, add_token,
  parse_tokens, parse_propset, add_group, parse_groups, parse_pieces, parse_job_spec, spec_of,
  or_default, id_key, passive_key, pad_two,
}
use resctl_demo.JobSpec.Parsed.{IsGroup}

-- An entry can be read back: no separator in it, and something to see of it.
pub record IsPrintable (e : Text × Text) : Type 0 where
  pub key_colon : count colon e.0 ≡ 0
  pub key_comma : count comma e.0 ≡ 0
  pub key_equals : count equals e.0 ≡ 0
  pub value_colon : count colon e.1 ≡ 0
  pub value_comma : count comma e.1 ≡ 0
  pub shown : 0 < length e.0 + length e.1

abbrev entry : Text × Text → Text
entry (k, v) = k ++ (if ltb 0 (length v) then equals ∷ v else [])

count-entry :
    (c : ℕ) (e : Text × Text)
    → c ≢ equals
    → count c e.0 ≡ 0
    → count c e.1 ≡ 0
    → count c (entry e) ≡ 0
count-entry c (k, []) ne hk hv = omega (arith, count-append c k [])
count-entry c (k, x ∷ v) ne hk hv = ground (arith, count-append c k (equals ∷ x ∷ v))

-- What a token gives to a map whose keys are all smaller.
add_token-entry :
    (e : Text × Text) (m rest : PropSet)
    → IsPrintable e
    → IsSorted (m ++ e ∷ rest)
    → add_token (entry e) m ≡ m ++ e ∷ []
unfolding add_token pad_two
add_token-entry (k, []) m rest p s =
    rw (add_token, append-nil k, splitn_two_last equals k p.key_equals)
      (ground (arith, p.shown, insert_last k [] m (IsSorted-middle m k [] rest s)))
add_token-entry (k, x ∷ v) m rest p s = ground (
  arith,
  splitn_two-append equals k (x ∷ v) p.key_equals,
  length-append k (equals ∷ x ∷ v),
  insert_last k (x ∷ v) m (IsSorted-middle m k (x ∷ v) rest s),
)

parse_tokens-entries :
    (m rest : PropSet)
    → All IsPrintable rest
    → IsSorted (m ++ rest)
    → parse_tokens (map entry rest) m ≡ m ++ rest
unfolding parse_tokens
parse_tokens-entries m [] p s = sym (append-nil m)
parse_tokens-entries m (e ∷ rest) p s =
    ap (parse_tokens (map entry rest)) (add_token-entry e m rest p.0 s)
    ∙ parse_tokens-entries (m ++ e ∷ []) rest p.1
        (subst (λ l. IsSorted l) (sym (append_assoc m (e ∷ []) rest)) s)
    ∙ append_assoc m (e ∷ []) rest

abbrev formatted : Text × Text → PropSet → Text
formatted e m = entry e ++ format_props false m

format_props-first : (e : Text × Text) (m : PropSet) → format_props true (e ∷ m) ≡ formatted e m
unfolding format_props
format_props-first (k, v) m =
    sym (append_assoc k (if ltb 0 (length v) then equals ∷ v else []) (format_props false m))

format_props-next :
    (e : Text × Text) (m : PropSet) → format_props false (e ∷ m) ≡ comma ∷ formatted e m
unfolding format_props
format_props-next (k, v) m =
    ap (λ t. comma ∷ t)
      (sym (append_assoc k (if ltb 0 (length v) then equals ∷ v else []) (format_props false m)))

split-formatted :
    (e : Text × Text) (m : PropSet)
    → All IsPrintable (e ∷ m)
    → split comma (formatted e m) ≡ map entry (e ∷ m)
unfolding format_props
split-formatted e [] p =
    ap (split comma) (append-nil (entry e))
    ∙ split_last comma (entry e)
        (count-entry comma e (λ h. omega arith) p.0.key_comma p.0.value_comma)
split-formatted e (f ∷ m) p =
    ap (λ t. split comma (entry e ++ t)) (format_props-next f m)
    ∙ split-append comma (entry e) (formatted f m)
        (count-entry comma e (λ h. omega arith) p.0.key_comma p.0.value_comma)
    ∙ ap (λ ts. entry e ∷ ts) (split-formatted f m p.1)

parse_propset-format_props :
    (m : PropSet) → All IsPrintable m → IsSorted m → parse_propset (format_props true m) ≡ m
unfolding parse_propset format_props parse_tokens split add_token
parse_propset-format_props [] p s = refl
parse_propset-format_props (e ∷ m) p s =
    ap (λ t. parse_tokens (split comma t) []) (format_props-first e m)
    ∙ ap (λ ts. parse_tokens ts []) (split-formatted e m p)
    ∙ parse_tokens-entries [] (e ∷ m) p s

count-format_props :
    (first : Bool) (m : PropSet) → All IsPrintable m → count colon (format_props first m) ≡ 0
unfolding format_props
count-format_props first [] p = refl
count-format_props true ((k, v) ∷ m) p =
    ap (count colon) (format_props-first (k, v) m)
    ∙ omega (
      arith,
      count-append colon (entry (k, v)) (format_props false m),
      count-entry colon (k, v) (λ h. omega arith) p.0.key_colon p.0.value_colon,
      count-format_props false m p.1,
    )
count-format_props false ((k, v) ∷ m) p =
    ap (count colon) (format_props-next (k, v) m)
    ∙ omega (
      arith,
      count-append colon (entry (k, v)) (format_props false m),
      count-entry colon (k, v) (λ h. omega arith) p.0.key_colon p.0.value_colon,
      count-format_props false m p.1,
    )

-- A group that can be read back.
abbrev pub IsPrintableGroup : PropSet → Type 0
IsPrintableGroup m = All IsPrintable m × IsGroup m

split-format_groups :
    (text : Text) (props : JobProps)
    → count colon text ≡ 0
    → All IsPrintableGroup props
    → split colon (text ++ format_groups false props) ≡ text ∷ map (format_props true) props
unfolding format_groups
split-format_groups text [] h p = ap (split colon) (append-nil text) ∙ split_last colon text h
split-format_groups text (g ∷ props) h p =
    split-append colon text (format_props true g ++ format_groups false props) h
    ∙ ap (λ ts. text ∷ ts)
        (split-format_groups (format_props true g) props (count-format_props true g p.0.0) p.1)

add_group-format_props :
    (g : PropSet) (before : JobProps)
    → IsPrintableGroup g
    → add_group (format_props true g) (record { id = none; passive = none; props = before })
      ≡ record { id = none; passive = none; props = before ++ g ∷ [] }
unfolding add_group
add_group-format_props g before (p, (s, no_id, no_passive)) =
    rw
      (
        parse_propset-format_props g p s,
        remove_missing id_key g no_id,
        remove_missing passive_key g no_passive,
        no_id,
        no_passive,
      )
      refl

parse_groups-format_props :
    (props before : JobProps)
    → All IsPrintableGroup props
    → parse_groups
        (map (format_props true) props)
        (record { id = none; passive = none; props = before })
      ≡ record { id = none; passive = none; props = before ++ props }
unfolding parse_groups
parse_groups-format_props [] before p =
    ap (λ ps. record { id = none; passive = none; props = ps }) (sym (append-nil before))
parse_groups-format_props (g ∷ props) before p =
    ap (parse_groups (map (format_props true) props)) (add_group-format_props g before p.0)
    ∙ parse_groups-format_props props (before ++ g ∷ []) p.1
    ∙ ap (λ ps. record { id = none; passive = none; props = ps })
        (append_assoc before (g ∷ []) props)

-- A kind without a colon, a colon and the formatted properties parse to a spec with that kind, those
-- properties and neither id nor passive setting, when there is a group, each group is sorted by
-- keys and has neither `id` nor `passive`, no key or value has a colon or a comma, no key has an
-- equals sign, and no entry has both its key and its value empty.
pub parse_job_spec-format_job_props :
    (kind : Text) (g : PropSet) (props : JobProps)
    → count colon kind ≡ 0
    → All IsPrintableGroup (g ∷ props)
    → parse_job_spec (kind ++ colon ∷ format_job_props (g ∷ props))
      ≡ some (record { kind = kind; id = none; passive = none; props = g ∷ props })
unfolding parse_job_spec format_job_props parse_pieces spec_of or_default format_groups
parse_job_spec-format_job_props kind g props h p =
    ap parse_pieces (split-format_groups kind (g ∷ props) h p)
    ∙ ap (λ gs. some (spec_of kind gs)) (parse_groups-format_props (g ∷ props) [] p)
