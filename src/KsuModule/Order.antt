-- ===== src/KsuModule/Order.antt =====
-- The order of the entries of the archive (scripts/build_ksu_module.py).
use abk_5_15_backport.Prelude.{
  true, false, List, [], ◌∷◌, ◌++◌, ◌≡◌, ◌≢◌, All-append, refl, sym, arith, Bool-cases, inl, inr,
  All,
}
use abk_5_15_backport.Text.{Text}
use abk_5_15_backport.Context.{text_lt}
use abk_5_15_backport.KsuModule.{insert_by, sort_by}

-- The order of texts is not both ways.
text_lt-asym : (s t : Text) → text_lt s t ≡ true → text_lt t s ≡ false
unfolding text_lt
text_lt-asym [] [] h = refl
text_lt-asym [] (d ∷ t) h = refl
text_lt-asym (c ∷ s) [] h = absurd (ground arith)
text_lt-asym (c ∷ s) (d ∷ t) h = ground (arith, text_lt-asym s t)

module _ {A : Type 0} (key : A → Text) where
  -- No element has a smaller key than the one before it.
  abbrev pub IsSorted : List A → Type 0
  IsSorted [] = Unit
  IsSorted (x ∷ []) = Unit
  IsSorted (x ∷ y ∷ ys) = (text_lt (key y) (key x) ≡ false) × IsSorted (y ∷ ys)

  IsSorted-cons :
      (x y : A) (ys : List A)
      → text_lt (key y) (key x) ≡ false
      → IsSorted (y ∷ ys)
      → IsSorted (x ∷ y ∷ ys)
  IsSorted-cons x y ys h k = (h, k)

  insert_by-IsSorted : (e : A) (xs : List A) → IsSorted xs → IsSorted (insert_by key e xs)
  unfolding insert_by
  insert_by-IsSorted e [] h = tt
  insert_by-IsSorted e (f ∷ []) h = elim (Bool-cases (text_lt (key f) (key e))) [
    | inl lt ↦ rw lt (text_lt-asym (key f) (key e) lt, tt)
    | inr ge ↦ rw ge (ge, tt)
  ]
  insert_by-IsSorted e (f ∷ g ∷ xs) (h, hs) = elim (Bool-cases (text_lt (key f) (key e))) [
    | inl lt ↦ rw lt (after (insert_by-IsSorted e (g ∷ xs) hs) (text_lt-asym (key f) (key e) lt))
    | inr ge ↦ rw ge (ge, (h, hs))
  ]
    where
      after :
          IsSorted (insert_by key e (g ∷ xs))
          → text_lt (key e) (key f) ≡ false
          → IsSorted (f ∷ insert_by key e (g ∷ xs))
      after k n = elim (Bool-cases (text_lt (key g) (key e))) [
        | inl lt ↦ rw lt (h, rw lt at k)
        | inr ge ↦ rw ge (n, rw ge at k)
      ]

  pub sort_by-IsSorted : (xs : List A) → IsSorted (sort_by key xs)
  unfolding sort_by
  sort_by-IsSorted [] = tt
  sort_by-IsSorted (x ∷ xs) = insert_by-IsSorted x (sort_by key xs) (sort_by-IsSorted xs)

  -- What holds of all elements still does.
  insert_by-All :
      (P : A → Type 0) (e : A) (xs : List A) → P e → All P xs → All P (insert_by key e xs)
  unfolding insert_by
  insert_by-All P e [] h hs = (h, tt)
  insert_by-All P e (f ∷ xs) h (hf, hs) = elim (Bool-cases (text_lt (key f) (key e))) [
    | inl lt ↦ rw lt (hf, insert_by-All P e xs h hs)
    | inr ge ↦ rw ge (h, (hf, hs))
  ]

  pub sort_by-All : (P : A → Type 0) (xs : List A) → All P xs → All P (sort_by key xs)
  unfolding sort_by
  sort_by-All P [] hs = tt
  sort_by-All P (x ∷ xs) (h, hs) = insert_by-All P x (sort_by key xs) h (sort_by-All P xs hs)

  -- No two elements have one key.
  abbrev pub IsDistinct : List A → Type 0
  IsDistinct [] = Unit
  IsDistinct (x ∷ xs) = All (λ y. key x ≢ key y) xs × IsDistinct xs

  insert_by-IsDistinct :
      (e : A) (xs : List A)
      → All (λ y. key e ≢ key y) xs
      → IsDistinct xs
      → IsDistinct (insert_by key e xs)
  unfolding insert_by
  insert_by-IsDistinct e [] fresh h = (tt, tt)
  insert_by-IsDistinct e (f ∷ xs) (n, fresh) (hf, h) = elim (Bool-cases (text_lt (key f) (key e))) [
    | inl lt ↦ rw lt (
      insert_by-All (λ y. key f ≢ key y) e xs (λ x. n (sym x)) hf,
      insert_by-IsDistinct e xs fresh h,
    )
    | inr ge ↦ rw ge ((n, fresh), (hf, h))
  ]

  pub sort_by-IsDistinct : (xs : List A) → IsDistinct xs → IsDistinct (sort_by key xs)
  unfolding sort_by
  sort_by-IsDistinct [] h = tt
  sort_by-IsDistinct (x ∷ xs) (fresh, h) =
      insert_by-IsDistinct x (sort_by key xs) (sort_by-All (λ y. key x ≢ key y) xs fresh)
        (sort_by-IsDistinct xs h)

  pub IsDistinct-append :
      (xs ys : List A)
      → IsDistinct xs
      → IsDistinct ys
      → All (λ x. All (λ y. key x ≢ key y) ys) xs
      → IsDistinct (xs ++ ys)
  IsDistinct-append [] ys h k apart = k
  IsDistinct-append (x ∷ xs) ys (fresh, h) k (a, apart) =
      (All-append (λ y. key x ≢ key y) xs ys fresh a, IsDistinct-append xs ys h k apart)
