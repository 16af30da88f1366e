-- ===== src/Text/Lines.antt =====
-- `str.splitlines()`, `str.strip()`, and the line ends of a file that is read as text.
use abk_5_15_backport.Prelude.{
  ℕ, Bool, true, false, ◌||◌, ◌&&◌, List, [], ◌∷◌, ◌++◌, ◌≡◌, refl, ◌∙◌, ap, arith, All, any,
  if◌then◌else◌, leb, ◌==◌, append_assoc, append-nil,
}
use abk_5_15_backport.Text.{Text}
use abk_5_15_backport.Text.Words.{is_space}

-- "\r\n" and "\r" become "\n".
unfoldable pub universal_newlines : Text → Text
universal_newlines [] = []
universal_newlines (c ∷ []) = (if c == 13 then 10 else c) ∷ []
universal_newlines (c ∷ d ∷ t) =
    let both = universal_newlines t in
    let one = universal_newlines (d ∷ t) in
    if c == 13 then (if d == 10 then 10 ∷ both else 10 ∷ one) else c ∷ one

-- The characters that end a line for `str.splitlines()`, beside "\r\n" and "\r".
unfoldable pub is_line_end : ℕ → Bool
is_line_end c =
    (leb 10 c && leb c 12) || (leb 28 c && leb c 30) || c == 133 || c == 8232 || c == 8233

-- `line` holds the characters of the line before the text.
unfoldable pub lines_from : Text → Text → List Text
unfolding is_line_end
lines_from [] [] = []
lines_from (l ∷ line) [] = (l ∷ line) ∷ []
lines_from line (c ∷ t) =
    let next = lines_from [] t in
    let longer = lines_from (line ++ c ∷ []) t in if is_line_end c then line ∷ next else longer

unfoldable pub splitlines : Text → List Text
unfolding universal_newlines lines_from
splitlines t = lines_from [] (universal_newlines t)

-- `t.lstrip()`
unfoldable pub strip_left : Text → Text
unfolding is_space
strip_left [] = []
strip_left (c ∷ t) = let rest = strip_left t in if is_space c then rest else c ∷ t

unfoldable pub is_blank : Text → Bool
unfolding is_space
is_blank [] = true
is_blank (c ∷ t) = is_space c && is_blank t

-- `t.rstrip()`
unfoldable pub strip_right : Text → Text
unfolding is_blank
strip_right [] = []
strip_right (c ∷ t) = let rest = strip_right t in if is_blank (c ∷ t) then [] else c ∷ rest

-- `t.strip()`
unfoldable pub strip : Text → Text
unfolding strip_left strip_right
strip t = strip_right (strip_left t)

-- No character of the line ends a line.
abbrev pub HasNoEnd : Text → Type 0
HasNoEnd t = any (λ c. is_line_end c || c == 13) t ≡ false

-- Every line with its line feed.
abbrev pub unlines : List Text → Text
unlines [] = []
unlines (l ∷ ls) = l ++ 10 ∷ unlines ls

lines_from-line :
    (w l t : Text) → HasNoEnd l → lines_from w (l ++ 10 ∷ t) ≡ (w ++ l) ∷ lines_from [] t
unfolding lines_from
lines_from-line [] [] t h = refl
lines_from-line (d ∷ w) [] t h = rw append-nil refl
lines_from-line [] (c ∷ l) t h =
    let here : is_line_end c ≡ false = ground arith in
    let later : HasNoEnd l = ground arith in rw here (lines_from-line (c ∷ []) l t later)
lines_from-line (d ∷ w) (c ∷ l) t h =
    let here : is_line_end c ≡ false = ground arith in
    let later : HasNoEnd l = ground arith in
    rw here (
      lines_from-line (d ∷ w ++ c ∷ []) l t later
      ∙ ap (λ x. (d ∷ x) ∷ lines_from [] t) (append_assoc w (c ∷ []) l))

universal_newlines-line :
    (l t : Text) → HasNoEnd l → universal_newlines (l ++ 10 ∷ t) ≡ l ++ 10 ∷ universal_newlines t
unfolding universal_newlines
universal_newlines-line [] [] h = refl
universal_newlines-line [] (d ∷ t) h = refl
universal_newlines-line (c ∷ []) t h =
    let here : (c == 13) ≡ false = ground arith in
    rw here (ap (λ r. c ∷ r) (universal_newlines-line [] t refl))
universal_newlines-line (c ∷ d ∷ l) t h =
    let here : (c == 13) ≡ false = ground arith in
    let later : HasNoEnd (d ∷ l) = ground arith in
    rw here (ap (λ r. c ∷ r) (universal_newlines-line (d ∷ l) t later))

universal_newlines-unlines :
    (ls : List Text) → All HasNoEnd ls → universal_newlines (unlines ls) ≡ unlines ls
universal_newlines-unlines [] h = unfold universal_newlines in refl
universal_newlines-unlines (l ∷ ls) (p, h) =
    universal_newlines-line l (unlines ls) p
    ∙ ap (λ t. l ++ 10 ∷ t) (universal_newlines-unlines ls h)

lines_from-unlines : (ls : List Text) → All HasNoEnd ls → lines_from [] (unlines ls) ≡ ls
lines_from-unlines [] h = unfold lines_from in refl
lines_from-unlines (l ∷ ls) (p, h) =
    lines_from-line [] l (unlines ls) p ∙ ap (λ r. l ∷ r) (lines_from-unlines ls h)

pub splitlines-unlines : (ls : List Text) → All HasNoEnd ls → splitlines (unlines ls) ≡ ls
unfolding splitlines
splitlines-unlines ls h =
    ap (lines_from []) (universal_newlines-unlines ls h) ∙ lines_from-unlines ls h
