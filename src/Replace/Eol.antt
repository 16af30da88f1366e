-- ===== src/Replace/Eol.antt =====
-- `replace_once` of scripts/abk_common.py: the line ends that a replacement leaves in a file whose
-- lines end in "\r\n".
use abk_5_15_backport.Prelude.{
  Bool, true, false, not, ◌&&◌, ◌||◌, [], ◌∷◌, ◌++◌, none, ◌==◌, ◌≡◌, refl, ◌∙◌, ap, arith, inl,
  inr, Bool-cases, ==_iff, if◌then◌else◌,
}
use abk_5_15_backport.Text.{
  Text, contains, strip_prefix, split_from, split, join, replace_all, replace_first,
}
use abk_5_15_backport.Text.Find.{contains_cases, contains_exists}
use abk_5_15_backport.Text.Parts.{join-head_cons, join-nil_cons, split_from-ne_nil}
use abk_5_15_backport.Replace.{
  lf, crlf, StepStatus, applied, to_lf, to_crlf, has_block, replace_once,
}
use abk_5_15_backport.Replace.Laws.{
  replace_once_eq, Outcome, present, in_lf, in_crlf, missing, replace_once-Outcome,
}

-- The text has a line feed with no carriage return before it, where `prev` says whether the
-- character before the text is one.
abbrev pub bare_from : Bool → Text → Bool
bare_from prev [] = false
bare_from prev (c ∷ t) = ((c == 10) && not prev) || bare_from (c == 13) t

abbrev pub has_bare_lf : Text → Bool
has_bare_lf t = bare_from false t

-- The text, or what stands before an empty one, ends in a carriage return.
abbrev pub ends_in_cr : Bool → Text → Bool
ends_in_cr prev [] = prev
ends_in_cr prev (c ∷ t) = ends_in_cr (c == 13) t

bare_from-append :
    (prev : Bool) (a b : Text)
    → bare_from prev (a ++ b) ≡ (bare_from prev a || bare_from (ends_in_cr prev a) b)
bare_from-append prev [] b = refl
bare_from-append prev (c ∷ a) b = ground (arith, bare_from-append (c == 13) a b)

-- Of what stands before a text, only a carriage return can excuse a line feed of it.
bare_from_any : (prev : Bool) (t : Text) → bare_from true t ≡ true → bare_from prev t ≡ true
bare_from_any prev [] h = absurd (ground arith)
bare_from_any prev (c ∷ t) h = ground arith

-- Every line feed, with a carriage return before it.
abbrev expand : Text → Text
expand [] = []
expand (c ∷ t) = (if c == 10 then crlf else c ∷ []) ++ expand t

join-expand : (t : Text) → join crlf (split_from 0 lf t) ≡ expand t
unfolding split_from
join-expand [] = unfold join in refl
join-expand (c ∷ t) = elim (Bool-cases (c == 10)) [
  | inl e ↦
      let at_lf : c ≡ 10 = (==_iff c 10).0 e in
      rw (at_lf, split_from)
        (unfold strip_prefix in
          join-nil_cons crlf _ (split_from-ne_nil 0 lf t) ∙ ap (λ r. crlf ++ r) (join-expand t))
  | inr e ↦
      let here : strip_prefix lf (c ∷ t) ≡ none = unfold strip_prefix in ground arith in
      rw (here, e, split_from, join-head_cons crlf c _ (split_from-ne_nil 0 lf t))
        (ap (λ r. c ∷ r) (join-expand t))
]

to_crlf-expand : (t : Text) → to_crlf t ≡ expand t
unfolding to_crlf replace_all split
to_crlf-expand t = join-expand t

-- No line feed of the form with carriage returns is bare, and it ends as the block does.
bare_from-expand : (prev : Bool) (t : Text) → bare_from prev (expand t) ≡ false
bare_from-expand prev [] = refl
bare_from-expand prev (c ∷ t) =
    ground (arith, bare_from-expand false t, bare_from-expand (c == 13) t)

ends_in_cr-expand : (prev : Bool) (t : Text) → ends_in_cr prev (expand t) ≡ ends_in_cr prev t
ends_in_cr-expand prev [] = refl
ends_in_cr-expand prev (c ∷ t) = ground (arith, ends_in_cr-expand (c == 13) t)

ends_in_cr_any : (prev : Bool) (t : Text) → ends_in_cr true t ≡ false → ends_in_cr prev t ≡ false
ends_in_cr_any prev [] h = absurd (ground arith)
ends_in_cr_any prev (c ∷ t) h = h

bare_from-false : (prev : Bool) (t : Text) → bare_from false t ≡ false → bare_from prev t ≡ false
bare_from-false true t h = elim (Bool-cases (bare_from true t)) [
  | inl e ↦ absurd (ground (arith, bare_from_any false t e))
  | inr e ↦ e
]
bare_from-false false t h = h

-- The middle of a text is put in the place of another one.
bare_from-middle :
    (a x y b : Text)
    → has_bare_lf (a ++ (x ++ b)) ≡ false
    → ends_in_cr true x ≡ false
    → ((prev : Bool) → bare_from prev y ≡ false)
    → has_bare_lf (a ++ (y ++ b)) ≡ false
bare_from-middle a x y b h e clean =
    let p = ends_in_cr false a in
    ground (
      arith,
      bare_from-append false a (x ++ b),
      bare_from-append p x b,
      bare_from-append false a (y ++ b),
      bare_from-append p y b,
      ends_in_cr_any p x e,
      clean p,
      bare_from-false (ends_in_cr p y) b,
    )

bare_from-inside : (a x b : Text) → bare_from true x ≡ true → has_bare_lf (a ++ (x ++ b)) ≡ true
bare_from-inside a x b h =
    let p = ends_in_cr false a in
    ground (arith, bare_from-append false a (x ++ b), bare_from-append p x b, bare_from_any p x h)

-- Where the old block has a line feed behind its first character that no carriage return precedes,
-- and does not end in a carriage return, a file whose lines all end in "\r\n" stays one: whatever
-- the outcome, no line feed of the result is bare.
pub replace_once-keeps_crlf :
    (text old new : Text)
    → has_bare_lf text ≡ false
    → bare_from true (to_lf old) ≡ true
    → ends_in_cr true (to_lf old) ≡ false
    → has_bare_lf (replace_once text old new).0 ≡ false
unfolding replace_first
replace_once-keeps_crlf text old new h several last = go _ (replace_once-Outcome text old new)
  where
    swapped : has_bare_lf (replace_first text (to_crlf (to_lf old)) (to_crlf (to_lf new))) ≡ false
    swapped = elim (contains_cases (to_crlf (to_lf old)) text) [
      | inl (a, b, e, w) ↦
          rw (e, replace_first)
            (bare_from-middle a (to_crlf (to_lf old)) (to_crlf (to_lf new)) b (rw w h)
              (rw (to_crlf-expand, ends_in_cr-expand) last)
              (λ prev. rw to_crlf-expand (bare_from-expand prev (to_lf new))))
      | inr (e, _) ↦ rw (e, replace_first) h
    ]

    go : (r : Text × StepStatus) → Outcome text old new r → has_bare_lf r.0 ≡ false
    go r (present p e) = rw e h
    go r (in_lf p q e) =
        let (a, b, w) = contains_exists (to_lf old) text q in
        absurd (ground (arith, bare_from-inside a (to_lf old) b several, w))
    go r (in_crlf p q e) = rw e swapped
    go r (missing p q e) = rw e h

-- Where the new block is not in the text and the line feed form of the old block is, as an old
-- block within one line is in any file, a new block that has a line feed behind its first
-- character with no carriage return before it is put in with bare line feeds, even into a file
-- whose lines all end in "\r\n".
pub replace_once-mixes :
    (text old new : Text)
    → has_block text new ≡ false
    → contains (to_lf old) text ≡ true
    → bare_from true (to_lf new) ≡ true
    → ((replace_once text old new).1 ≡ applied) × (has_bare_lf (replace_once text old new).0 ≡ true)
unfolding replace_first
replace_once-mixes text old new p q several =
    rw (replace_once_eq, p, q)
      (
        refl,
        elim (contains_cases (to_lf old) text) [
          | inl (a, b, e, w) ↦ rw (e, replace_first) (bare_from-inside a (to_lf new) b several)
          | inr (_, e) ↦ absurd (ground arith)
        ],
      )
