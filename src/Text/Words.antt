-- ===== src/Text/Words.antt =====
-- `str.split()`: the words of a text.
use abk_5_15_backport.Prelude.{
  ℕ, Bool, true, false, ◌&&◌, ◌||◌, List, [], ◌∷◌, ◌++◌, ◌≡◌, ◌≢◌, refl, ◌∙◌, ap, sym, arith,
  Bool-cases, inl, inr, All, any, append_assoc, append-nil, if◌then◌else◌, leb, ◌==◌,
}
use abk_5_15_backport.Text.{Text, codes, join}

-- The characters that `str.split()` splits at.
unfoldable pub is_space : ℕ → Bool
is_space c =
    (leb 9 c && leb c 13)
    || (leb 28 c && leb c 32)
    || c == 133
    || c == 160
    || c == 5760
    || (leb 8192 c && leb c 8202)
    || c == 8232
    || c == 8233
    || c == 8239
    || c == 8287
    || c == 12288

-- `t.split()`, where `word` holds the characters of the word before the text.
unfoldable pub words_from : Text → Text → List Text
unfolding is_space
words_from [] [] = []
words_from (w ∷ word) [] = (w ∷ word) ∷ []
words_from word (c ∷ t) =
    let next = words_from [] t in
    let longer = words_from (word ++ c ∷ []) t in
    if is_space c then (if is_nil word then next else word ∷ next) else longer
  where
    is_nil : Text → Bool
    is_nil [] = true
    is_nil (c ∷ t) = false

-- A word has a character, and no white space.
abbrev pub HasNoSpace : Text → Type 0
HasNoSpace t = any is_space t ≡ false

abbrev pub IsWord : Text → Type 0
IsWord t = (t ≢ []) × HasNoSpace t

pub any-append_space : (a b : Text) → any is_space (a ++ b) ≡ (any is_space a || any is_space b)
any-append_space [] b = refl
any-append_space (c ∷ a) b = ground (arith, any-append_space a b)

pub words_from-letter :
    (w : Text) (c : ℕ) (t : Text)
    → is_space c ≡ false
    → words_from w (c ∷ t) ≡ words_from (w ++ c ∷ []) t
unfolding words_from
words_from-letter [] c t e = rw e refl
words_from-letter (d ∷ w) c t e = rw e refl

pub words_from-space :
    (w : Text) (c : ℕ) (t : Text)
    → w ≢ []
    → is_space c ≡ true
    → words_from w (c ∷ t) ≡ w ∷ words_from [] t
unfolding words_from
words_from-space [] c t n e = absurd (n refl)
words_from-space (d ∷ w) c t n e = rw e refl

pub words_from-gap :
    (c : ℕ) (t : Text) → is_space c ≡ true → words_from [] (c ∷ t) ≡ words_from [] t
unfolding words_from
words_from-gap c t e = rw e refl

pub words_from-word :
    (w t rest : Text) → HasNoSpace t → words_from w (t ++ rest) ≡ words_from (w ++ t) rest
words_from-word w [] rest h = rw append-nil refl
words_from-word w (c ∷ t) rest h =
    let here : is_space c ≡ false = ground arith in
    let later : any is_space t ≡ false = ground arith in
    words_from-letter w c (t ++ rest) here
    ∙ words_from-word (w ++ c ∷ []) t rest later
    ∙ ap (λ x. words_from x rest) (append_assoc w (c ∷ []) t)

pub append-ne_nil : (w : Text) (c : ℕ) → w ++ c ∷ [] ≢ []
append-ne_nil [] c = cc
append-ne_nil (d ∷ w) c = cc

-- All that a text is split into is words.
pub words_from-IsWord : (w t : Text) → HasNoSpace w → All IsWord (words_from w t)
words_from-IsWord [] [] h = unfold words_from in tt
words_from-IsWord (d ∷ w) [] h = unfold words_from in ((cc, h), tt)
words_from-IsWord [] (c ∷ t) h = elim (Bool-cases (is_space c)) [
  | inl e ↦ rw (words_from-gap c t e) (words_from-IsWord [] t refl)
  | inr e ↦ rw (words_from-letter [] c t e) (words_from-IsWord (c ∷ []) t (ground arith))
]
words_from-IsWord (d ∷ w) (c ∷ t) h = elim (Bool-cases (is_space c)) [
  | inl e ↦ rw (words_from-space (d ∷ w) c t (cc) e) (((cc), h), words_from-IsWord [] t refl)
  | inr e ↦
      rw (words_from-letter (d ∷ w) c t e) (
        words_from-IsWord (d ∷ (w ++ c ∷ [])) t (ground (arith, any-append_space (d ∷ w) (c ∷ []))))
]

-- Words that are joined by one space are split again into the same words.
pub words_from-join : (ts : List Text) → All IsWord ts → words_from [] (join (codes " ") ts) ≡ ts
unfolding join
words_from-join [] h = unfold words_from in refl
words_from-join (t ∷ []) ((n, p), h) =
    ap (words_from []) (sym (append-nil t)) ∙ words_from-word [] t [] p ∙ last t n
  where
    last : (t : Text) → t ≢ [] → words_from t [] ≡ t ∷ []
    last [] n = absurd (n refl)
    last (c ∷ t) n = unfold words_from in refl
words_from-join (t ∷ q ∷ ts) ((n, p), h) =
    words_from-word [] t (codes " " ++ join (codes " ") (q ∷ ts)) p
    ∙ words_from-space t 32 (join (codes " ") (q ∷ ts)) n (unfold is_space in refl)
    ∙ ap (λ r. t ∷ r) (words_from-join (q ∷ ts) h)
