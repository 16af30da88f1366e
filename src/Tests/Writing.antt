-- ===== src/Tests/Writing.antt =====
-- Reads and writes on the small tree.
use abk_5_15_backport.Prelude.{true, ◌≡◌, ◌≢◌, refl, arith, some}
use abk_5_15_backport.Text.{codes, text_eq}
use abk_5_15_backport.Result.{os_error, ok, err}
use abk_5_15_backport.Disk.{
  backup_path, utf8, update, write_bytes, copy_to, snapshot, read_bytes, write_text,
}
use abk_5_15_backport.Disk.Laws.{write_text_keeps, write_text_frame}
use abk_5_15_backport.Context.Failures.{write_failed}
use abk_5_15_backport.Context.{Context, text_lt, add_path, mark_dirty, read, written, write}
use abk_5_15_backport.Context.Laws.{tree, Reads, read-Reads, tree-write}
use abk_5_15_backport.Context.Coherent.{IsCoherent, write-IsCoherent}
use abk_5_15_backport.Tests.{file_a, small_disk, only_a, small, small-IsSound, old_text, new_text}

ne : backup_path file_a ≢ file_a
unfolding backup_path
ne x = absurd (ground arith)

other : backup_path file_a ≢ codes "b"
unfolding backup_path
other x = absurd (ground arith)

wrote : (write file_a new_text small).0 ≡ ok tt
unfolding text_eq backup_path update write_bytes copy_to snapshot read_bytes write_text text_lt
    add_path mark_dirty written write only_a
wrote = refl

there : small_disk.file file_a ≡ some (utf8 old_text)
unfolding only_a text_eq
there = refl

tree-write_example :
    tree (write file_a new_text small).1 file_a ≡ update (tree small) file_a new_text file_a
tree-write_example = tree-write file_a file_a new_text small ne wrote

write-IsCoherent_example : IsCoherent (write file_a new_text small).1
write-IsCoherent_example = write-IsCoherent file_a new_text small small-IsSound.coherent wrote

read-Reads_example : Reads small (read file_a small).1
read-Reads_example = read-Reads file_a small

write_text_frame_example :
    (write_text file_a new_text true small_disk).1.file (codes "b") ≡ small_disk.file (codes "b")
write_text_frame_example =
    write_text_frame file_a (codes "b") new_text small_disk (λ x. ground arith) other

write_text_keeps_example :
    (write_text (codes "b") new_text true small_disk).1.file file_a ≡ some (utf8 old_text)
write_text_keeps_example =
    write_text_keeps (codes "b") file_a new_text small_disk (utf8 old_text) (λ x. ground arith)
      there

-- The tree with every path locked.
abbrev locked : Context
locked = record small { disk = record { file = only_a; locked = λ p. true } }

raised : (write file_a new_text locked).0 ≡ err (os_error (backup_path file_a))
unfolding text_eq backup_path update write_bytes copy_to snapshot read_bytes write_text text_lt
    add_path mark_dirty written write only_a
raised = refl

write_failed_example :
    ((write file_a new_text locked).1.disk.file file_a ≡ locked.disk.file file_a)
    × ((write file_a new_text locked).1.dirty ≡ locked.dirty)
    × ((read file_a (write file_a new_text locked).1).0 ≡ ok new_text)
write_failed_example = write_failed file_a new_text locked (os_error (backup_path file_a)) raised
