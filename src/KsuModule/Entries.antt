-- ===== src/KsuModule/Entries.antt =====
-- The entries that `module_entries` of scripts/build_ksu_module.py gives.
use abk_5_15_backport.Prelude.{
  true, false, List, [], ◌∷◌, ◌++◌, some, ◌≡◌, ◌≢◌, refl, ap, arith, All, All-imp, All-append,
  append_assoc, is_some, Bool-cases, inl, inr, map,
}
use mathlib.Core.Path.{subst}
use abk_5_15_backport.Text.{Text, codes}
use abk_5_15_backport.Text.Find.{text_eq_iff, text_eq_refl}
use abk_5_15_backport.Result.{Result, ok, err, system_exit}
use abk_5_15_backport.Disk.{File, read_bytes}
use abk_5_15_backport.KsuModule.{
  Repository, ModuleSource, Embedded, Entry, is_in, mode_of, and_entry, file_entries, file_name,
  embedded_entries, embedded_of, joined_entries, module_entries, sort_by, find_file,
  read_embed_manifest,
}
use abk_5_15_backport.KsuModule.Order.{
  IsSorted, sort_by-IsSorted, sort_by-All, IsDistinct, sort_by-IsDistinct, IsDistinct-append,
}

abbrev name_of : Entry → Text
name_of e = e.name

-- In the order of their names, no two with one name, and executable if and only if the name ends in
-- ".sh".
pub record IsArchive (entries : List Entry) : Type 0 where
  pub sorted : IsSorted name_of entries
  pub distinct : IsDistinct name_of entries
  pub modes : All (λ (e : Entry). e.mode ≡ mode_of e.name) entries

-- The first entry, and those behind it.
and_entry_ok :
    (name : Text) (r : Result File) (rest : Result (List Entry)) (es : List Entry)
    → and_entry name r rest ≡ ok es
    → (f : File) × (more : List Entry) × (rest ≡ ok more)
      × ((record { name = name; data_of = f; mode = mode_of name } ∷ more) ≡ es)
and_entry_ok name (ok f) (ok more) es h = (f, more, refl, ground arith)
and_entry_ok name (ok f) (err e) es h = absurd (ground arith)
and_entry_ok name (err e) rest es h = absurd (ground arith)

abbrev HasMode : Entry → Type 0
HasMode e = e.mode ≡ mode_of e.name

-- What holds of the names of the files holds of those of the entries.
file_entries-All :
    (Q : Text → Type 0) (files : List (Text × File)) (es : List Entry)
    → file_entries files ≡ ok es
    → All (λ x. Q (file_name x)) files
    → All (λ (e : Entry). Q e.name × HasMode e) es
unfolding file_entries
file_entries-All Q [] es h hs =
    let same : [] ≡ es = ground arith in subst (All (λ (e : Entry). Q e.name × HasMode e)) same tt
file_entries-All Q ((name, f) ∷ files) es h (q, hs) =
    let (g, more, e, same) =
      and_entry_ok name (read_bytes name (some f)) (file_entries files) es h in
    subst (All (λ (e : Entry). Q e.name × HasMode e)) same
      ((q, refl), file_entries-All Q files more e hs)

file_entries-IsDistinct :
    (files : List (Text × File)) (es : List Entry)
    → file_entries files ≡ ok es
    → IsDistinct file_name files
    → IsDistinct name_of es
unfolding file_entries
file_entries-IsDistinct [] es h hs =
    let same : [] ≡ es = ground arith in subst (IsDistinct name_of) same tt
file_entries-IsDistinct ((name, f) ∷ files) es h (fresh, hs) =
    let (g, more, e, same) =
      and_entry_ok name (read_bytes name (some f)) (file_entries files) es h in
    subst (IsDistinct name_of) same (
      All-imp _ _ (λ (x : Entry) k. k.0) more (file_entries-All (λ n. name ≢ n) files more e fresh),
      file_entries-IsDistinct files more e hs,
    )

unseen :
    (target n : Text) (seen : List Text)
    → is_in n (target ∷ seen) ≡ false
    → (target ≢ n) × (is_in n seen ≡ false)
unfolding is_in
unseen target n seen x = (λ e. absurd (ground (arith, (text_eq_iff target n).1 e)), ground arith)

embedded_entries-All :
    (repository : Repository) (seen : List Text) (pairs : List Embedded) (es : List Entry)
    → embedded_entries repository seen pairs ≡ ok es
    → All (λ (e : Entry). (is_in e.name seen ≡ false) × HasMode e) es × IsDistinct name_of es
unfolding embedded_entries
embedded_entries-All repository seen [] es h =
    let same : [] ≡ es = ground arith in
    subst
      (λ l. All (λ (e : Entry). (is_in e.name seen ≡ false) × HasMode e) l × IsDistinct name_of l)
      same (tt, tt)
embedded_entries-All repository seen ((path, target) ∷ pairs) es h =
    elim (Bool-cases (is_in target seen)) [
      | inl taken ↦ absurd (collides (rw taken at h))
      | inr free ↦
          fresh free
            (and_entry_ok target (read_bytes path (repository.file path))
              (embedded_entries repository (target ∷ seen) pairs) es (rw free at h))
            (λ more e. embedded_entries-All repository (target ∷ seen) pairs more e)
    ]
  where
    collides : ◌≡◌ {A = Result (List Entry)} (err system_exit) (ok es) → ⊥
    collides x = absurd (ground arith)

    fresh :
        is_in target seen ≡ false
        → (f : File) × (more : List Entry) × (embedded_entries repository (target ∷ seen) pairs
            ≡ ok more)
          × ((record { name = target; data_of = f; mode = mode_of target } ∷ more) ≡ es)
        → ((more : List Entry)
            → embedded_entries repository (target ∷ seen) pairs ≡ ok more
            → All (λ (e : Entry). (is_in e.name (target ∷ seen) ≡ false) × HasMode e) more
              × IsDistinct name_of more)
        → All (λ (e : Entry). (is_in e.name seen ≡ false) × HasMode e) es × IsDistinct name_of es
    fresh free (f, more, e, same) ih =
        let (hs, d) = ih more e in
        subst
          (λ l.
            All (λ (e : Entry). (is_in e.name seen ≡ false) × HasMode e) l × IsDistinct name_of l)
          same
          (
            (
              (free, refl),
              All-imp _ _ (λ (x : Entry) k. ((unseen target x.name seen k.0).1, k.1)) more hs,
            ),
            (All-imp _ _ (λ (x : Entry) k. (unseen target x.name seen k.0).0) more hs, d),
          )

-- Every file is among the files.
is_in_files :
    (files : List (Text × File)) (before : List Text)
    → All (λ x. is_in (file_name x) (before ++ map file_name files) ≡ true) files
unfolding is_in
is_in_files files before = go files before
  where
    here : (n : Text) (before rest : List Text) → is_in n (before ++ n ∷ rest) ≡ true
    here n [] rest = rw (text_eq_refl n) refl
    here n (b ∷ before) rest = ground (arith, here n before rest)

    go :
        (files : List (Text × File)) (before : List Text)
        → All (λ x. is_in (file_name x) (before ++ map file_name files) ≡ true) files
    go [] before = tt
    go (x ∷ files) before = (
      here (file_name x) before (map file_name files),
      subst (λ l. All (λ y. is_in (file_name y) l ≡ true) files)
          (append_assoc before (file_name x ∷ []) (map file_name files))
          (go files (before ++ file_name x ∷ [])),
    )

apart :
    (names : List Text) (e f : Entry)
    → is_in e.name names ≡ true
    → is_in f.name names ≡ false
    → e.name ≢ f.name
apart names e f h k x = absurd (ground (arith, ap (λ n. is_in n names) x))

joined_entries-IsArchive :
    (repository : Repository) (files : List (Text × File)) (own embedded es : List Entry)
    → IsDistinct file_name files
    → file_entries (sort_by file_name files) ≡ ok own
    → All (λ (e : Entry). (is_in e.name (map file_name files) ≡ false) × HasMode e) embedded
      × IsDistinct name_of embedded
    → sort_by (λ (e : Entry). e.name) (own ++ embedded) ≡ es
    → IsArchive es
joined_entries-IsArchive repository files own embedded es d h (hs, de) same =
    let names = map file_name files in
    let ours =
      file_entries-All (λ n. is_in n names ≡ true) (sort_by file_name files) own h
        (sort_by-All file_name (λ x. is_in (file_name x) names ≡ true) files
          (is_in_files files [])) in
    let ours_distinct =
      file_entries-IsDistinct (sort_by file_name files) own h
        (sort_by-IsDistinct file_name files d) in
    subst IsArchive same (record {
      sorted = sort_by-IsSorted name_of (own ++ embedded);
      distinct = sort_by-IsDistinct name_of (own ++ embedded) (
          IsDistinct-append name_of own embedded ours_distinct de (
            All-imp _ _
              (λ (e : Entry) k. All-imp _ _ (λ (f : Entry) l. apart names e f k.0 l.0) embedded hs)
              own ours));
      modes = sort_by-All name_of HasMode (own ++ embedded) (
          All-append HasMode own embedded (All-imp _ _ (λ (e : Entry) k. k.1) own ours)
            (All-imp _ _ (λ (e : Entry) k. k.1) embedded hs));
    })

-- Where no two files of the module have one path, the entries that are returned stand in the order
-- of their names, no two have one name, the embedded ones included, and each is executable, 0o755,
-- if its name ends in ".sh", and 0o644 if not.
pub module_entries-IsArchive :
    (repository : Repository) (source : ModuleSource) (es : List Entry)
    → IsDistinct file_name source.files
    → module_entries repository source ≡ ok es
    → IsArchive es
unfolding module_entries
module_entries-IsArchive repository source es d h =
    elim (Bool-cases (is_some (find_file (codes "module.prop") source.files))) [
      | inl there ↦
          go (file_entries (sort_by file_name source.files)) (read_embed_manifest repository source)
            refl (rw there at h)
      | inr absent ↦ absurd (refused (rw absent at h))
    ]
  where
    refused : ◌≡◌ {A = Result (List Entry)} (err system_exit) (ok es) → ⊥
    refused x = absurd (ground arith)

    both :
        (a : List Entry) (ps : List Embedded) (r : Result (List Entry))
        → file_entries (sort_by file_name source.files) ≡ ok a
        → embedded_entries repository (map file_name source.files) ps ≡ r
        → joined_entries repository (ok a) r ≡ ok es
        → IsArchive es
    both a ps (ok b) e f x =
        joined_entries-IsArchive repository source.files a b es d e
          (embedded_entries-All repository (map file_name source.files) ps b f) (ground arith)
    both a ps (err y) e f x = absurd (ground arith)

    go :
        (own : Result (List Entry)) (pairs : Result (List Embedded))
        → file_entries (sort_by file_name source.files) ≡ own
        → joined_entries repository own (embedded_of repository (map file_name source.files) pairs)
          ≡ ok es
        → IsArchive es
    go (err y) pairs e x = absurd (ground arith)
    go (ok a) (err y) e x = absurd (unfold embedded_of in ground arith)
    go (ok a) (ok ps) e x =
        both a ps (embedded_entries repository (map file_name source.files) ps) e refl
          (unfold embedded_of in x)
