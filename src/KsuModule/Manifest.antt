-- ===== src/KsuModule/Manifest.antt =====
-- What `read_embed_manifest` of scripts/build_ksu_module.py lets into the archive.
use abk_5_15_backport.Prelude.{
  Bool, true, false, not, ◌||◌, List, [], ◌∷◌, Option, none, some, if◌then◌else◌, ◌≡◌, refl, arith,
  All, is_some, Bool-cases, inl, inr,
}
use mathlib.Core.Path.{subst}
use abk_5_15_backport.Text.{Text, codes, starts_with, cut, split, replace_all}
use abk_5_15_backport.Text.Lines.{splitlines, strip}
use abk_5_15_backport.Result.{Result, ok, err, system_exit}
use abk_5_15_backport.Disk.{File}
use abk_5_15_backport.KsuModule.{
  Repository, ModuleSource, Embedded, is_empty, is_in, embed, embed_line, and_then, embed_lines,
  embed_text, find_file, text_of_file, read_embed_manifest,
}

module _ (repository : Repository) where
  -- The target is a path below the archive's root, and the source is a file of the checkout.
  pub record IsSafe (pair : Embedded) : Type 0 where
    pub named : is_empty pair.1 ≡ false
    pub relative : starts_with (codes "/") pair.1 ≡ false
    pub below : is_in (codes "..") (split (codes "/") pair.1) ≡ false
    pub inside : repository.is_inside pair.0 ≡ true
    pub there : is_some (repository.file pair.0) ≡ true

  -- Only the last branch returns a pair.
  tests_passed :
      (a b c d i f : Bool) (x y : Embedded)
      → ◌≡◌ {A = Result Embedded}
          (if a || b
            then err system_exit
            else if c || d
            then err system_exit
            else if not i
            then err system_exit
            else if not f
            then err system_exit
            else ok x)
          (ok y)
      → (b ≡ false) × (c ≡ false) × (d ≡ false) × (i ≡ true) × (f ≡ true) × (x ≡ y)
  tests_passed false false false false true true x y h =
      (refl, refl, refl, refl, refl, ground arith)
  tests_passed true b c d i f x y h = absurd (ground arith)
  tests_passed false true c d i f x y h = absurd (ground arith)
  tests_passed false false true d i f x y h = absurd (ground arith)
  tests_passed false false false true i f x y h = absurd (ground arith)
  tests_passed false false false false false f x y h = absurd (ground arith)
  tests_passed false false false false true false x y h = absurd (ground arith)

  embed-IsSafe :
      (source_text target_text : Text) (pair : Embedded)
      → embed repository source_text target_text ≡ ok pair
      → IsSafe pair
  unfolding embed
  embed-IsSafe source_text target_text pair h =
      let (b, c, d, i, f, same) =
        tests_passed (is_empty source_text) (is_empty target_text)
          (starts_with (codes "/") target_text) (is_in (codes "..") (split (codes "/") target_text))
          (repository.is_inside (repository.resolve source_text))
          (is_some (repository.file (repository.resolve source_text)))
          (repository.resolve source_text, target_text) pair h in
      subst IsSafe same (record { named = b; relative = c; below = d; inside = i; there = f })

  embed_line-IsSafe :
      (line : Text) (pair : Embedded) → embed_line repository line ≡ ok pair → IsSafe pair
  unfolding embed_line
  embed_line-IsSafe line pair h = go (cut (codes "=") line) h
    where
      go :
          (o : Option (Text × Text))
          → ◌≡◌ {A = Result Embedded}
              (elim o [
                | none ↦ err system_exit
                | some (a, b) ↦
                    embed repository (strip a) (replace_all (strip b) (codes "\\") (codes "/"))
              ])
              (ok pair)
          → IsSafe pair
      go none h = absurd (ground arith)
      go (some (a, b)) h = embed-IsSafe (strip a) _ pair h

  and_then-IsSafe :
      (r : Result Embedded) (rest : Result (List Embedded)) (pairs : List Embedded)
      → ((pair : Embedded) → r ≡ ok pair → IsSafe pair)
      → ((more : List Embedded) → rest ≡ ok more → All IsSafe more)
      → and_then repository r rest ≡ ok pairs
      → All IsSafe pairs
  and_then-IsSafe (err e) rest pairs h k x = absurd (ground arith)
  and_then-IsSafe (ok pair) (err e) pairs h k x = absurd (ground arith)
  and_then-IsSafe (ok pair) (ok more) pairs h k x =
      let same : pair ∷ more ≡ pairs = ground arith in
      subst (All IsSafe) same (h pair refl, k more refl)

  embed_lines-IsSafe :
      (lines : List Text) (pairs : List Embedded)
      → embed_lines repository lines ≡ ok pairs
      → All IsSafe pairs
  unfolding embed_lines
  embed_lines-IsSafe [] pairs h = let same : [] ≡ pairs = ground arith in subst (All IsSafe) same tt
  embed_lines-IsSafe (raw ∷ lines) pairs h =
      elim (Bool-cases (is_empty (strip raw) || starts_with (codes "#") (strip raw))) [
        | inl skip ↦ embed_lines-IsSafe lines pairs (rw skip at h)
        | inr line ↦
            and_then-IsSafe (embed_line repository (strip raw)) (embed_lines repository lines) pairs
              (embed_line-IsSafe (strip raw)) (embed_lines-IsSafe lines) (rw line at h)
      ]

-- Where the manifest of embedded files is read without an error, every target in it is a relative
-- path that is not empty and has no ".." among its parts, and every source is a file inside the
-- checkout.
pub read_embed_manifest-IsSafe :
    (repository : Repository) (source : ModuleSource) (pairs : List Embedded)
    → read_embed_manifest repository source ≡ ok pairs
    → All (IsSafe repository) pairs
unfolding read_embed_manifest embed_text
read_embed_manifest-IsSafe repository source pairs h =
    go (find_file (codes "embed.conf") source.files) h
  where
    text_case :
        (r : Result Text) → embed_text repository r ≡ ok pairs → All (IsSafe repository) pairs
    text_case (ok text) h = embed_lines-IsSafe repository (splitlines text) pairs h
    text_case (err e) h = absurd (ground arith)

    go :
        (o : Option File)
        → ◌≡◌ {A = Result (List Embedded)}
            (elim o [
              | none ↦ ok []
              | some f ↦ embed_text repository (text_of_file (codes "embed.conf") f)
            ])
            (ok pairs)
        → All (IsSafe repository) pairs
    go none h = let same : [] ≡ pairs = ground arith in subst (All (IsSafe repository)) same tt
    go (some f) h = text_case (text_of_file (codes "embed.conf") f) h
