-- ===== src/Hunks/Parses.antt =====
-- What the loop of `parse_patch` (tools/hunks.py) makes of a line, one rule for each kind.
use abk_5_15_backport.Prelude.{
  true, false, ℕ, zero, suc, ◌<◌, List, [], ◌∷◌, ◌++◌, Option, some, ◌≡◌, refl, ◌∙◌, ap, sym, arith,
  length, map, All, append_assoc, append-nil, length-append,
}
use mathlib.Core.Path.{subst}
use abk_5_15_backport.Text.{Text, codes, starts_with, strip_prefix, join}
use abk_5_15_backport.Text.Words.{is_space, words_from, words_from-join, HasNoSpace, IsWord}
use abk_5_15_backport.Hunks.{
  Hunk, parsed, diff_head, hunk_head, third, path_of, ends_hunk, note_old, note_new, take_body,
  hunk_of, parse_loop,
}
use abk_5_15_backport.Hunks.Print.{
  Change, kept, removed, added, HunkText, print_change, old_lines, new_lines, diff_line,
}

abbrev pub Stops : List Text → Type 0
Stops [] = Unit
Stops (l ∷ ls) = ends_hunk l ≡ true

take_body-changes :
    (changes : List Change) (old new rest : List Text)
    → Stops rest
    → take_body old new (map print_change changes ++ rest)
      ≡ ((old ++ old_lines changes, new ++ new_lines changes), rest)
unfolding take_body note_old note_new ends_hunk starts_with strip_prefix
take_body-changes [] old new [] s = simp append-nil
take_body-changes [] old new (l ∷ ls) s = simp (s, append-nil)
take_body-changes (kept t ∷ changes) old new rest s =
    take_body-changes changes (old ++ t ∷ []) (new ++ t ∷ []) rest s ∙ simp append_assoc
take_body-changes (removed t ∷ changes) old new rest s =
    take_body-changes changes (old ++ t ∷ []) new rest s ∙ simp append_assoc
take_body-changes (added t ∷ changes) old new rest s =
    take_body-changes changes old (new ++ t ∷ []) rest s ∙ simp append_assoc

-- With any fuel that is enough.
pub record Parses (file_path : Option Text) (hunks : List Hunk) (lines : List Text) (r : List Hunk)
    : Type 0 where
  pub run : (fuel : ℕ) → length lines < fuel → parse_loop fuel file_path hunks lines ≡ parsed r

is_head : (path : Text) → starts_with diff_head (diff_line path) ≡ true
unfolding starts_with strip_prefix join
is_head path = refl

strips : (path : Text) → path_of (codes "a/" ++ path) ≡ path
unfolding path_of
strips path = refl

head_words :
    (path : Text)
    → HasNoSpace path
    → All IsWord (codes "diff" ∷ codes "--git" ∷ (codes "a/" ++ path) ∷ (codes "b/" ++ path) ∷ [])
unfolding is_space
head_words path n = ((cc, refl), ((cc, refl), ((cc, n), ((cc, n), tt))))

head_apart : (l : Text) → starts_with hunk_head l ≡ true → starts_with diff_head l ≡ false
unfolding starts_with strip_prefix
head_apart [] e = absurd (ground arith)
head_apart (c ∷ l) e = ground arith

module _ (file_path : Option Text) (hunks : List Hunk) where
  pub Parses-nil : Parses file_path hunks [] hunks
  unfolding parse_loop
  Parses-nil = record { run = λ fuel h. go fuel h }
    where
      go : (fuel : ℕ) → 0 < fuel → parse_loop fuel file_path hunks [] ≡ parsed hunks
      go zero h = absurd (omega arith)
      go (suc fuel) h = refl

  pub Parses-skip :
      (line : Text) (lines : List Text) (r : List Hunk)
      → starts_with diff_head line ≡ false
      → starts_with hunk_head line ≡ false
      → Parses file_path hunks lines r
      → Parses file_path hunks (line ∷ lines) r
  unfolding parse_loop
  Parses-skip line lines r d e p = record { run = λ fuel h. go fuel h }
    where
      go :
          (fuel : ℕ)
          → suc (length lines) < fuel
          → parse_loop fuel file_path hunks (line ∷ lines) ≡ parsed r
      go zero h = absurd (omega arith)
      go (suc fuel) h = rw (d, e) (p.run fuel (omega arith))

  Parses-diff :
      (line part : Text) (lines : List Text) (r : List Hunk)
      → starts_with diff_head line ≡ true
      → third (words_from [] line) ≡ some part
      → Parses (some (path_of part)) hunks lines r
      → Parses file_path hunks (line ∷ lines) r
  unfolding parse_loop
  Parses-diff line part lines r d e p = record { run = λ fuel h. go fuel h }
    where
      go :
          (fuel : ℕ)
          → suc (length lines) < fuel
          → parse_loop fuel file_path hunks (line ∷ lines) ≡ parsed r
      go zero h = absurd (omega arith)
      go (suc fuel) h = rw (d, e) (p.run fuel (omega arith))

  pub Parses-file :
      (path : Text) (lines : List Text) (r : List Hunk)
      → HasNoSpace path
      → Parses (some path) hunks lines r
      → Parses file_path hunks (diff_line path ∷ lines) r
  Parses-file path lines r n p =
      let parts =
        words_from-join
          (codes "diff" ∷ codes "--git" ∷ (codes "a/" ++ path) ∷ (codes "b/" ++ path) ∷ [])
          (head_words path n) in
      Parses-diff (diff_line path) (codes "a/" ++ path) lines r (is_head path)
        (ap third parts ∙ unfold third in refl)
        (subst (λ q. Parses (some q) hunks lines r) (sym (strips path)) p)

  pub Parses-hunk :
      (h : HunkText) (rest : List Text) (r : List Hunk)
      → starts_with hunk_head h.header ≡ true
      → Stops rest
      → Parses file_path
          (hunks ++ hunk_of file_path h.header (old_lines h.changes, new_lines h.changes) ∷ [])
          rest
          r
      → Parses file_path hunks (h.header ∷ map print_change h.changes ++ rest) r
  unfolding parse_loop
  Parses-hunk h rest r e s p = record { run = λ fuel k. go fuel k }
    where
      lines : List Text
      lines = map print_change h.changes ++ rest

      go :
          (fuel : ℕ)
          → suc (length lines) < fuel
          → parse_loop fuel file_path hunks (h.header ∷ lines) ≡ parsed r
      go zero k = absurd (omega arith)
      go (suc fuel) k =
          rw (head_apart h.header e, e, take_body-changes h.changes [] [] rest s)
            (p.run fuel (omega (arith, length-append (map print_change h.changes) rest)))
