-- ===== src/Rollback.antt =====
-- scripts/abk_rollback.sh: every snapshot that `find` lists is copied back over its file, or, where
-- it is the mark of a file that a module created, its file is deleted. The list that `find` gives
-- is an argument, the exit codes are `ok` and an exception, and the printing is not modelled.
pub mod Suffix
pub mod Reached
pub mod PutBack
pub mod Restores
pub mod Child
use abk_5_15_backport.Prelude.{
  Bool, true, false, ℕ, zero, suc, List, [], ◌∷◌, ◌==◌, Option, none, some, if◌then◌else◌,
}
use abk_5_15_backport.Text.{Text, codes, block, text_eq}
use abk_5_15_backport.Result.{system_exit, Result, ok, err, Exec, ◌>>=◌, ◌>>◌, pure, raise}
use abk_5_15_backport.Disk.{
  FilePath, File, utf8, binary, unreadable, Disk, backup_suffix, read_bytes, copy_to,
}

-- `${p%suffix}`
unfoldable pub strip_suffix : Text → Text → Text
unfolding text_eq
strip_suffix suffix [] = []
strip_suffix suffix (c ∷ p) =
    let rest = strip_suffix suffix p in if text_eq suffix (c ∷ p) then [] else c ∷ rest

unfoldable pub original_of : FilePath → FilePath
unfolding strip_suffix
original_of backup = strip_suffix backup_suffix backup

abbrev pub new_file_sentinel : Text
new_file_sentinel =
    block ("sailboat_moon_kmsg: new file created by " ∷ "the module; delete on rollback" ∷ [])

-- `$(head -n 1 …)`: the shell drops the zero bytes.
unfoldable pub first_line : Text → Text
first_line [] = []
first_line (c ∷ t) =
    let rest = first_line t in if c == 10 then [] else if c == 0 then rest else c ∷ rest

-- The sentinel is in ASCII, where a code point is its byte.
unfoldable pub is_new_file : Option File → Bool
unfolding first_line text_eq
is_new_file none = false
is_new_file (some unreadable) = false
is_new_file (some (utf8 t)) = text_eq (first_line t) new_file_sentinel
is_new_file (some (binary bytes)) = text_eq (first_line bytes) new_file_sentinel

-- `rm -f`
unfoldable pub remove : FilePath → Exec Disk (Unit {0})
unfolding text_eq
remove p d = (ok tt, record d { file = λ q. if text_eq p q then none else d.file q })

-- The contents that `cp -a` of one file over another leaves; modes and times are not modelled.
unfoldable pub copy : FilePath → FilePath → Exec Disk (Unit {0})
unfolding read_bytes copy_to
copy source target d = copy_to target (read_bytes source (d.file source)) d

unfoldable pub delete_created : Text → FilePath → Exec Disk (Unit {0})
unfolding text_eq remove original_of
delete_created mode backup =
    if text_eq mode (codes "--list")
    then pure tt
    else if text_eq mode (codes "--apply")
    then remove (original_of backup) >> remove backup
    else raise system_exit

unfoldable pub restore : Text → FilePath → Exec Disk (Unit {0})
unfolding text_eq remove copy original_of
restore mode backup =
    if text_eq mode (codes "--list")
    then pure tt
    else if text_eq mode (codes "--apply")
    then copy backup (original_of backup) >> remove backup
    else raise system_exit

unfoldable pub roll_back_one : Text → FilePath → Exec Disk (Unit {0})
unfolding is_new_file delete_created restore
roll_back_one mode backup d =
    if is_new_file (d.file backup) then delete_created mode backup d else restore mode backup d

-- The loop over the snapshots; the first failure ends the script.
unfoldable pub roll_back : Text → List FilePath → Exec Disk (Unit {0})
unfolding roll_back_one
roll_back mode [] = pure tt
roll_back mode (backup ∷ backups) = do roll_back_one mode backup; roll_back mode backups
