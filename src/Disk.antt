-- ===== src/Disk.antt =====
-- The kernel tree on disk, and `read_text` and `write_text` of scripts/abk_common.py over it.
-- A file holds the UTF-8 encoding of a text, or bytes that are none, or it cannot be read.
-- `locked` says which paths the system refuses to open for writing.
pub mod Laws
use abk_5_15_backport.Prelude.{
  Bool, true, false, ℕ, List, ◌++◌, Option, none, some, if◌then◌else◌, is_some,
}
use abk_5_15_backport.Text.{Text, codes, text_eq}
use abk_5_15_backport.Result.{
  Error, file_not_found, os_error, unicode_error, Result, ok, err, Exec, ◌>>=◌, ◌>>◌, pure, raise,
  continue,
}

abbrev pub FilePath : Type 0
FilePath = Text

pub data File : Type 0 where
  utf8 : Text → File
  binary : List ℕ → File
  unreadable : File

pub record Disk : Type 0 where
  pub file : FilePath → Option File
  pub locked : FilePath → Bool

abbrev pub backup_suffix : Text
backup_suffix = codes ".abk-orig"

unfoldable pub backup_path : FilePath → FilePath
backup_path p = p ++ backup_suffix

unfoldable pub update {ℓ} :
    {A : Type ℓ} → (FilePath → Option A) → FilePath → A → FilePath → Option A
unfolding text_eq
update f p a q = if text_eq p q then some a else f q

-- `path.read_bytes()`
unfoldable pub read_bytes : FilePath → Option File → Result File
read_bytes p none = err (file_not_found p)
read_bytes p (some unreadable) = err (os_error p)
read_bytes p (some (utf8 t)) = ok (utf8 t)
read_bytes p (some (binary bs)) = ok (binary bs)

-- `.decode("utf-8")`
unfoldable pub decode : FilePath → Result File → Result Text
decode p (ok (utf8 t)) = ok t
decode p (ok _) = err (unicode_error p)
decode p (err e) = err e

unfoldable pub read_text : Disk → FilePath → Result Text
unfolding read_bytes decode
read_text d p = decode p (read_bytes p (d.file p))

-- `path.write_bytes(…)`
unfoldable pub write_bytes : FilePath → File → Exec Disk (Unit {0})
unfolding update
write_bytes p f d =
    if d.locked p then (err (os_error p), d) else (ok tt, record d { file = update d.file p f })

-- `backup_path.write_bytes(target.read_bytes())`
unfoldable pub copy_to : FilePath → Result File → Exec Disk (Unit {0})
unfolding write_bytes
copy_to p (ok f) = write_bytes p f
copy_to p (err e) = raise e

-- The snapshot is taken once.
unfoldable pub snapshot : FilePath → Exec Disk (Unit {0})
unfolding backup_path copy_to read_bytes
snapshot p d =
    if is_some (d.file (backup_path p))
    then (ok tt, d)
    else copy_to (backup_path p) (read_bytes p (d.file p)) d

unfoldable pub write_text : FilePath → Text → Bool → Exec Disk (Unit {0})
unfolding snapshot write_bytes
write_text p text backup d =
    if backup
    then (if is_some (d.file p)
        then (do snapshot p; write_bytes p (utf8 text)) d
        else (err (file_not_found p), d))
    else write_bytes p (utf8 text) d
