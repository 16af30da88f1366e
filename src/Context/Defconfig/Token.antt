-- ===== src/Context/Defconfig/Token.antt =====
-- What dropping a token does to a command line of the defconfig.
use abk_5_15_backport.Prelude.{
  ℕ, Bool, true, false, List, [], ◌∷◌, ◌++◌, ◌≡◌, refl, ◌∙◌, ap, sym, arith, Bool-cases, inl, inr,
  All, drop, length, is_some, append_assoc,
}
use abk_5_15_backport.Text.{Text, codes, text_eq, join, starts_with, ends_with}
use abk_5_15_backport.Text.Find.{ends_with-append, strip_prefix-append}
use abk_5_15_backport.Text.Words.{words_from, IsWord, words_from-IsWord, words_from-join}
use abk_5_15_backport.Context.Defconfig.{
  is_line, without, cmdline_head, cmdline_tail, but_last, is_cmdline, tokens_of, drop_in_line,
}

without-IsWord : (token : Text) (ts : List Text) → All IsWord ts → All IsWord (without token ts)
unfolding without
without-IsWord token [] h = tt
without-IsWord token (t ∷ ts) (p, h) = elim (Bool-cases (text_eq t token)) [
  | inl e ↦ rw e (without-IsWord token ts h)
  | inr e ↦ rw e (p, without-IsWord token ts h)
]

without-is_line : (token : Text) (ts : List Text) → is_line token (without token ts) ≡ false
unfolding without is_line
without-is_line token [] = refl
without-is_line token (t ∷ ts) = ground (arith, without-is_line token ts)

without-other : (token : Text) (ts : List Text) → is_line token ts ≡ false → without token ts ≡ ts
unfolding without is_line
without-other token [] h = refl
without-other token (t ∷ ts) h = ground (arith, without-other token ts)

but_last-append : (t : Text) (c : ℕ) → but_last (t ++ c ∷ []) ≡ t
unfolding but_last
but_last-append [] c = refl
but_last-append (d ∷ []) c = refl
but_last-append (d ∷ e ∷ t) c = ap (λ r. d ∷ r) (but_last-append (e ∷ t) c)

abbrev cmdline : Text → Text
cmdline t = cmdline_head ++ (t ++ cmdline_tail)

cmdline-is_cmdline : (t : Text) → is_cmdline (cmdline t) ≡ true
unfolding is_cmdline starts_with
cmdline-is_cmdline t = ground (
  arith,
  ap (is_some {A = Text}) (strip_prefix-append cmdline_head (t ++ cmdline_tail)),
  ap (ends_with cmdline_tail) (append_assoc cmdline_head t cmdline_tail),
  ends_with-append cmdline_tail (cmdline_head ++ t),
)

tokens_of-cmdline : (t : Text) → tokens_of (cmdline t) ≡ words_from [] t
unfolding tokens_of
tokens_of-cmdline t =
    ap (λ r. words_from [] (drop (length cmdline_head) (but_last r)))
      (sym (append_assoc cmdline_head t cmdline_tail))
    ∙ ap (λ r. words_from [] (drop (length cmdline_head) r))
        (but_last-append (cmdline_head ++ t) 34)

-- A command line of the defconfig stays one, and its tokens afterwards are those before without the
-- dropped one, which is not among them.
pub drop_in_line-tokens_of :
    (token line : Text)
    → is_cmdline line ≡ true
    → (is_cmdline (drop_in_line token line) ≡ true)
      × (tokens_of (drop_in_line token line) ≡ without token (tokens_of line))
      × (is_line token (tokens_of (drop_in_line token line)) ≡ false)
unfolding drop_in_line
drop_in_line-tokens_of token line c = split_on (is_line token (tokens_of line)) refl
  where
    kept : List Text
    kept = without token (tokens_of line)

    words : words_from [] (join (codes " ") kept) ≡ kept
    words = words_from-join kept (
        without-IsWord token (tokens_of line) (
          unfold tokens_of in
          words_from-IsWord [] (drop (length cmdline_head) (but_last line)) refl))

    split_on :
        (b : Bool)
        → is_line token (tokens_of line) ≡ b
        → (is_cmdline (drop_in_line token line) ≡ true)
          × (tokens_of (drop_in_line token line) ≡ without token (tokens_of line))
          × (is_line token (tokens_of (drop_in_line token line)) ≡ false)
    split_on false e =
        let same : drop_in_line token line ≡ line = rw (c, e, drop_in_line) refl in
        rw same (c, sym (without-other token (tokens_of line) e), e)
    split_on true e =
        let now : drop_in_line token line ≡ cmdline (join (codes " ") kept) =
          rw (c, e, drop_in_line) refl in
        let tokens = tokens_of-cmdline (join (codes " ") kept) ∙ words in
        rw now (
          cmdline-is_cmdline (join (codes " ") kept),
          tokens,
          ap (is_line token) tokens ∙ without-is_line token (tokens_of line),
        )
