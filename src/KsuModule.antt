-- ===== src/KsuModule.antt =====
-- scripts/build_ksu_module.py: the properties of a module, the manifest of the files that are embedded
-- from the repository, and the entries of the archive. The paths and files of the checkout, which
-- pathlib gives, are a parameter; the zip format is a library's.
pub mod Manifest
pub mod Order
pub mod Entries
use abk_5_15_backport.Prelude.{
  Bool, true, false, not, ◌&&◌, ◌||◌, ℕ, List, [], ◌∷◌, ◌++◌, Option, none, some, if◌then◌else◌,
  drop, is_some, map,
}
use abk_5_15_backport.Text.{
  Text, codes, text_eq, contains, starts_with, ends_with, cut, split, replace_all,
}
use abk_5_15_backport.Text.Lines.{splitlines, strip}
use abk_5_15_backport.Result.{Result, ok, err, system_exit, unicode_error}
use abk_5_15_backport.Disk.{FilePath, File, utf8, binary, unreadable, read_bytes, decode}
use abk_5_15_backport.Context.{text_lt}

-- `(REPOSITORY / source_text).resolve()`, `is_relative_to(REPOSITORY)`, and the files there.
pub record Repository : Type 0 where
  pub resolve : Text → FilePath
  pub is_inside : FilePath → Bool
  pub file : FilePath → Option File

-- A module's directory: its name, and its files by their paths below it.
pub record ModuleSource : Type 0 where
  pub name : Text
  pub files : List (Text × File)

unfoldable pub find_file : Text → List (Text × File) → Option File
unfolding text_eq
find_file name [] = none
find_file name ((n, f) ∷ files) =
    let rest = find_file name files in if text_eq n name then some f else rest

-- The first line that begins with "id=".
unfoldable pub id_of : List Text → Result Text
unfolding starts_with strip
id_of [] = err system_exit
id_of (line ∷ lines) =
    let rest = id_of lines in
    if starts_with (codes "id=") line then ok (strip (drop 3 line)) else rest

unfoldable pub text_of_file : Text → File → Result Text
unfolding read_bytes decode
text_of_file name f = decode name (read_bytes name (some f))

unfoldable pub id_in : Result Text → Result Text
unfolding id_of splitlines
id_in (ok text) = id_of (splitlines text)
id_in (err e) = err e

unfoldable pub read_module_id : ModuleSource → Result Text
unfolding find_file text_of_file id_in
read_module_id source = elim (find_file (codes "module.prop") source.files) [
  | none ↦ err system_exit
  | some f ↦ id_in (text_of_file (codes "module.prop") f)
]

unfoldable pub is_in : Text → List Text → Bool
unfolding text_eq
is_in name [] = false
is_in name (n ∷ names) = text_eq n name || is_in name names

abbrev pub Embedded : Type 0
Embedded = FilePath × Text

abbrev pub is_empty : Text → Bool
is_empty [] = true
is_empty (c ∷ t) = false

module _ (repository : Repository) where
  -- The tests on the two sides of a line.
  unfoldable pub embed : Text → Text → Result Embedded
  unfolding starts_with split is_in
  embed source_text target_text =
      if is_empty source_text || is_empty target_text
      then err system_exit
      else if starts_with (codes "/") target_text
          || is_in (codes "..") (split (codes "/") target_text)
      then err system_exit
      else if not (repository.is_inside (repository.resolve source_text))
      then err system_exit
      else if not (is_some (repository.file (repository.resolve source_text)))
      then err system_exit
      else ok (repository.resolve source_text, target_text)

  -- A line that is neither blank nor a comment.
  unfoldable pub embed_line : Text → Result Embedded
  unfolding cut strip replace_all embed
  embed_line line = elim (cut (codes "=") line) [
    | none ↦ err system_exit
    | some (source_text, target_text) ↦
        embed (strip source_text) (replace_all (strip target_text) (codes "\\") (codes "/"))
  ]

  abbrev pub and_then : Result Embedded → Result (List Embedded) → Result (List Embedded)
  and_then (ok pair) (ok pairs) = ok (pair ∷ pairs)
  and_then (ok pair) (err e) = err e
  and_then (err e) rest = err e

  unfoldable pub embed_lines : List Text → Result (List Embedded)
  unfolding strip starts_with embed_line
  embed_lines [] = ok []
  embed_lines (raw ∷ lines) =
      let rest = embed_lines lines in
      let line = strip raw in
      if is_empty line || starts_with (codes "#") line
      then rest
      else and_then (embed_line line) rest

  unfoldable pub embed_text : Result Text → Result (List Embedded)
  unfolding splitlines embed_lines
  embed_text (ok text) = embed_lines (splitlines text)
  embed_text (err e) = err e

  unfoldable pub read_embed_manifest : ModuleSource → Result (List Embedded)
  unfolding find_file text_of_file embed_text
  read_embed_manifest source = elim (find_file (codes "embed.conf") source.files) [
    | none ↦ ok []
    | some f ↦ embed_text (text_of_file (codes "embed.conf") f)
  ]

pub record Entry : Type 0 where
  pub name : Text
  pub data_of : File
  pub mode : ℕ

-- 0o755 and 0o644
unfoldable pub mode_of : Text → ℕ
unfolding ends_with
mode_of name = if ends_with (codes ".sh") name then 493 else 420

-- Python's sort is stable: an element comes before those behind it with the same key.
module _ {A : Type 0} (key : A → Text) where
  unfoldable pub insert_by : A → List A → List A
  unfolding text_lt
  insert_by e [] = e ∷ []
  insert_by e (f ∷ entries) =
      let rest = insert_by e entries in
      if text_lt (key f) (key e) then f ∷ rest else e ∷ f ∷ entries

  unfoldable pub sort_by : List A → List A
  unfolding insert_by
  sort_by [] = []
  sort_by (e ∷ entries) = insert_by e (sort_by entries)

abbrev pub and_entry : Text → Result File → Result (List Entry) → Result (List Entry)
and_entry name (ok f) (ok entries) =
    ok (record { name = name; data_of = f; mode = mode_of name } ∷ entries)
and_entry name (ok f) (err e) = err e
and_entry name (err e) rest = err e

-- The module's own files.
unfoldable pub file_entries : List (Text × File) → Result (List Entry)
unfolding read_bytes
file_entries [] = ok []
file_entries ((name, f) ∷ files) = and_entry name (read_bytes name (some f)) (file_entries files)

abbrev pub file_name : Text × File → Text
file_name (name, f) = name

module _ (repository : Repository) where
  -- The embedded files, none of which may have the name of a file before it.
  unfoldable pub embedded_entries : List Text → List Embedded → Result (List Entry)
  unfolding is_in read_bytes
  embedded_entries seen [] = ok []
  embedded_entries seen ((path, target) ∷ pairs) =
      let rest = embedded_entries (target ∷ seen) pairs in
      if is_in target seen
      then err system_exit
      else and_entry target (read_bytes path (repository.file path)) rest

  abbrev pub joined_entries : Result (List Entry) → Result (List Entry) → Result (List Entry)
  joined_entries (ok own) (ok embedded) = ok (sort_by (λ (e : Entry). e.name) (own ++ embedded))
  joined_entries (ok own) (err e) = err e
  joined_entries (err e) rest = err e

  unfoldable pub embedded_of : List Text → Result (List Embedded) → Result (List Entry)
  unfolding embedded_entries
  embedded_of seen (ok pairs) = embedded_entries seen pairs
  embedded_of seen (err e) = err e

  unfoldable pub module_entries : ModuleSource → Result (List Entry)
  unfolding find_file sort_by file_entries embedded_of read_embed_manifest
  module_entries source =
      if is_some (find_file (codes "module.prop") source.files)
      then joined_entries (file_entries (sort_by file_name source.files))
          (embedded_of (map file_name source.files) (read_embed_manifest repository source))
      else err system_exit

  abbrev if_named : ModuleSource → Result Text → Result (List Entry) → Result (List Entry)
  if_named source (ok id) entries = if text_eq source.name id then entries else err system_exit
  if_named source (err e) entries = err e

  -- The entries that are written, with the directory named as the module's id.
  unfoldable pub build : ModuleSource → Result (List Entry)
  unfolding read_module_id module_entries text_eq
  build source = if_named source (read_module_id source) (module_entries source)
