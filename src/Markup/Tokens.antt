-- ===== src/Markup/Tokens.antt =====
-- The tokens of a text, in resctl-demo/src/doc/markup_rd.rs.
use resctl_demo.Prelude.{
  ℕ, suc, zero, ◌≡◌, ◌≤◌, ◌∙◌, refl, ap, arith, List, [], ◌∷◌, ◌++◌, Bool, length, not, ◌&&◌, ◌||◌,
  ◌==◌, if-both,
}
use resctl_demo.Text.{Text}
use resctl_demo.Markup.Styled.{
  span, span_tag, push_char, markup_text_next_tok, tokens, next_is_space,
}

abbrev concat : List (Text × Bool) → Text
concat [] = []
concat ((tok, space) ∷ toks) = tok ++ concat toks

abbrev Joins : Text → Text × Text → Type 0
Joins s (tok, rest) = (tok ++ rest ≡ s) × (length rest ≤ length s)

span-Joins : (p : ℕ → Bool) (s : Text) → Joins s (span p s)
unfolding span
span-Joins p [] = (refl, omega arith)
span-Joins p (c ∷ cs) = let ih = span-Joins p cs in ground (arith, ih)

span_tag-Joins : (s : Text) → Joins s (span_tag s)
unfolding span_tag
span_tag-Joins [] = (refl, omega arith)
span_tag-Joins (c ∷ cs) = let ih = span_tag-Joins cs in ground (arith, ih)

-- A token starts with the first character of the text.
abbrev Takes : ℕ → Text → Text × Text → Type 0
Takes c cs (tok, rest) =
    (tok' : Text) × (tok ≡ c ∷ tok') × (tok' ++ rest ≡ cs) × (length rest ≤ length cs)

push_char-Takes : (c : ℕ) (cs : Text) (p : Text × Text) → Joins cs p → Takes c cs (push_char c p)
push_char-Takes c cs (tok, rest) (e, le) = (tok, refl, e, le)

next_tok-Takes : (c : ℕ) (cs : Text) → Takes c cs (markup_text_next_tok (c ∷ cs))
unfolding markup_text_next_tok
next_tok-Takes c cs =
    if-both (Takes c cs) (c == b'*' || c == b'_') _ _
      (push_char-Takes c cs _ (span-Joins (λ d. d == c) cs))
      (if-both (Takes c cs) (c == b'%') _ _ (push_char-Takes c cs _ (span_tag-Joins cs)) (
        push_char-Takes c cs _
          (span-Joins (λ d. not (d == b'*') && not (d == b'_') && not (d == b'%')) cs)))

concat-tokens_rest :
    (n c : ℕ) (cs : Text) (next : Text × Text)
    → Takes c cs next
    → concat (tokens n next.1) ≡ next.1
    → concat (elim next.0 [ [] ↦ [] | d ∷ ds ↦ (d ∷ ds, next_is_space next.1) ∷ tokens n next.1 ])
      ≡ c ∷ cs
concat-tokens_rest n c cs (tok, rest) (tok', e, j, le) ih =
    rw e (ap (λ t. c ∷ (tok' ++ t)) ih ∙ ap (λ t. c ∷ t) j)

concat-tokens_fuel : (n : ℕ) (s : Text) → length s ≤ n → concat (tokens n s) ≡ s
unfolding tokens markup_text_next_tok
concat-tokens_fuel zero [] h = refl
concat-tokens_fuel zero (c ∷ cs) h = absurd (omega arith)
concat-tokens_fuel (suc n) [] h = refl
concat-tokens_fuel (suc n) (c ∷ cs) h =
    let t = next_tok-Takes c cs in
    concat-tokens_rest n c cs (markup_text_next_tok (c ∷ cs)) t
      (concat-tokens_fuel n (markup_text_next_tok (c ∷ cs)).1 (omega (arith, t)))

-- The tokens that `parse_markup_text` takes are the whole text, in order.
concat-tokens : (s : Text) → concat (tokens (length s) s) ≡ s
concat-tokens s = concat-tokens_fuel (length s) s (omega arith)
