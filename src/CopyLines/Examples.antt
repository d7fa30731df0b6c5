-- ===== src/CopyLines/Examples.antt =====
-- internal/storage/copyline.go: tests and witnesses for two copies of one group and one of another.
use fa.Prelude.{◌≡◌, ◌≢◌, ◌↔◌, refl, true, false, List, [], ◌∷◌, All}
use fa.Prelude.Int.{negsuc}
use fa.Prelude.Text.{Text}
use fa.CopyLines.{
  CopyLine, fits_text, fits_id, matches, finish_line, add_copy_line, done_copy_line,
  load_copy_lines, unknown, in_progress, success, failure, status_loop, status_of,
  copy_line_process,
}
use fa.CopyLines.Progress.{IsCompleted, HasNotFailed, is_failure, copy_line_process-IsCompleted}

abbrev a : Text
a = b'a' ∷ []

abbrev b : Text
b = b'b' ∷ []

abbrev g : Text
g = b'g' ∷ []

abbrev k : Text
k = b'k' ∷ []

abbrev started : List CopyLine
started =
    add_copy_line b (negsuc 0) g (negsuc 0) k
      (add_copy_line b (negsuc 0) a (negsuc 0) g (add_copy_line a (negsuc 0) k (negsuc 0) g []))

abbrev one_done : List CopyLine
one_done = done_copy_line a (negsuc 0) k (negsuc 0) true g [] started

in_progress_after_one : copy_line_process g one_done ≡ in_progress
unfolding copy_line_process status_of status_loop load_copy_lines done_copy_line matches fits_text
    fits_id finish_line add_copy_line
in_progress_after_one = refl

failure_after_two :
    copy_line_process g (done_copy_line b (negsuc 0) a (negsuc 0) false g k one_done) ≡ failure k
unfolding copy_line_process status_of status_loop load_copy_lines done_copy_line matches fits_text
    fits_id finish_line add_copy_line
failure_after_two = refl

some_lines : load_copy_lines g one_done ≢ []
unfolding load_copy_lines done_copy_line matches fits_text fits_id finish_line add_copy_line
some_lines same = cc

copy_line_process-IsCompleted_example :
    ((copy_line_process g one_done ≡ success) ↔ All IsCompleted (load_copy_lines g one_done))
    × ((is_failure (copy_line_process g one_done) ≡ false)
        ↔ All HasNotFailed (load_copy_lines g one_done))
    × (copy_line_process g one_done ≢ unknown)
copy_line_process-IsCompleted_example = copy_line_process-IsCompleted g one_done refl some_lines
