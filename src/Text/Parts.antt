-- ===== src/Text/Parts.antt =====
-- Laws of `split`, `join` and `replace`.
use abk_5_15_backport.Prelude.{
  ℕ, zero, suc, ◌-◌, ◌≡◌, ◌≢◌, refl, ◌∙◌, ap, sym, inl, inr, List, [], ◌∷◌, ◌++◌, some, arith,
  length, Option-cases, drop,
}
use abk_5_15_backport.Text.{Text, strip_prefix, head_cons, split_from, split, join, replace_all}
use abk_5_15_backport.Text.Find.{strip_prefix_sound}

drop-append : (p r : Text) → drop (length p) (p ++ r) ≡ r
drop-append [] r = refl
drop-append (c ∷ p) r = drop-append p r

pub split_from-ne_nil : (k : ℕ) (sep t : Text) → split_from k sep t ≢ []
unfolding split_from
split_from-ne_nil k sep [] = cc
split_from-ne_nil (suc k) sep (c ∷ t) = split_from-ne_nil k sep t
split_from-ne_nil zero sep (c ∷ t) = ground (arith, split_from-ne_nil zero sep t)

pub join-head_cons :
    (sep : Text) (c : ℕ) (ps : List Text) → ps ≢ [] → join sep (head_cons c ps) ≡ c ∷ join sep ps
unfolding join
join-head_cons sep c [] h = absurd (h refl)
join-head_cons sep c (p ∷ []) h = refl
join-head_cons sep c (p ∷ q ∷ ps) h = refl

pub join-nil_cons :
    (sep : Text) (ps : List Text) → ps ≢ [] → join sep ([] ∷ ps) ≡ sep ++ join sep ps
unfolding join
join-nil_cons sep [] h = absurd (h refl)
join-nil_cons sep (p ∷ ps) h = refl

-- The rest of a text behind a separator that it begins with.
drop-strip_prefix :
    (s c : ℕ) (sep t r : Text)
    → strip_prefix (s ∷ sep) (c ∷ t) ≡ some r
    → (drop (length sep) t ≡ r) × ((s ∷ sep) ++ r ≡ c ∷ t)
drop-strip_prefix s c sep t r h =
    let e = strip_prefix_sound (s ∷ sep) (c ∷ t) r h in
    (ap (drop (suc (length sep))) (sym e) ∙ drop-append sep r, e)

join-split_from :
    (s : ℕ) (sep t : Text) (k : ℕ) → join (s ∷ sep) (split_from k (s ∷ sep) t) ≡ drop k t
unfolding split_from
join-split_from s sep [] zero = unfold join in refl
join-split_from s sep [] (suc k) = unfold join in refl
join-split_from s sep (c ∷ t) (suc k) = join-split_from s sep t k
join-split_from s sep (c ∷ t) zero = elim (Option-cases (strip_prefix (s ∷ sep) (c ∷ t))) [
  | inl e ↦
      rw (e, split_from, join-head_cons (s ∷ sep) c _ (split_from-ne_nil 0 (s ∷ sep) t))
        (ap (λ r. c ∷ r) (join-split_from s sep t zero))
  | inr (r, e) ↦
      let (d, whole) = drop-strip_prefix s c sep t r e in
      let n : suc (length sep) - 1 ≡ length sep = omega arith in
      rw
        (
          e,
          split_from,
          n,
          join-nil_cons (s ∷ sep) _ (split_from-ne_nil (length sep) (s ∷ sep) t),
          join-split_from s sep t (length sep),
          d,
        )
        whole
]

-- Joining the parts of a split gives the text back.
pub join-split : (s : ℕ) (sep t : Text) → join (s ∷ sep) (split (s ∷ sep) t) ≡ t
unfolding split
join-split s sep t = join-split_from s sep t zero

pub replace_all_self : (s : ℕ) (sep t : Text) → replace_all t (s ∷ sep) (s ∷ sep) ≡ t
unfolding replace_all
replace_all_self s sep t = join-split s sep t
