-- ===== src/CopyLines.antt =====
-- internal/storage/copyline.go: the records of copies in progress, and web/routers/file.go:
-- copyLineProcess, which reports on a group of them. A condition of gorm on a struct passes over the
-- fields that are zero, and so does an update by one.
pub mod Progress
mod Examples
use fa.Prelude.{Bool, true, false, not, filter, ◌&&◌, ◌||◌, List, [], ◌∷◌, ◌++◌, map, if◌then◌else◌}
use fa.Prelude.Int.{ℤ, pos, eq_ℤ}
use fa.Prelude.Text.{Text, eq_text}

pub data UploadState : Type 0 where
  running : UploadState
  completed : UploadState
  failed : UploadState

pub record CopyLine : Type 0 where
  pub src_path : Text
  pub src_id : ℤ
  pub dst_path : Text
  pub dst_id : ℤ
  pub state : UploadState
  pub group : Text
  pub extra : Text

-- One field of a condition: a zero value asks for nothing.
unfoldable pub fits_text : (want has : Text) → Bool
fits_text want has = eq_text want [] || eq_text want has

unfoldable pub fits_id : (want has : ℤ) → Bool
fits_id want has = eq_ℤ want (pos 0) || eq_ℤ want has

unfoldable pub matches :
    (src : Text) → (src_id : ℤ) → (dst : Text) → (dst_id : ℤ) → (group : Text) → CopyLine → Bool
unfolding fits_text fits_id
matches src src_id dst dst_id group line =
    fits_text src line.src_path
    && fits_id src_id line.src_id
    && fits_text dst line.dst_path
    && fits_id dst_id line.dst_id
    && fits_text group line.group

-- AddCopyLineG
unfoldable pub add_copy_line :
    (src : Text)
    → (src_id : ℤ) → (dst : Text) → (dst_id : ℤ) → (group : Text) → List CopyLine
    → List CopyLine
add_copy_line src src_id dst dst_id group lines =
    lines
    ++ (record {
      src_path = src;
      src_id = src_id;
      dst_path = dst;
      dst_id = dst_id;
      state = running;
      group = group;
      extra = [];
    }
        ∷ [])

-- DoneCopyLineG
unfoldable pub finish_line : (success : Bool) → (extra : Text) → CopyLine → CopyLine
finish_line success extra line = record line {
  state = if success then completed else failed;
  extra = if eq_text extra [] then line.extra else extra;
}

unfoldable pub done_copy_line :
    (src : Text)
    → (src_id : ℤ) → (dst : Text) → (dst_id : ℤ) → (success : Bool) → (group extra : Text)
    → List CopyLine
    → List CopyLine
unfolding matches finish_line
done_copy_line src src_id dst dst_id success group extra lines =
    map
      (λ line.
        if matches src src_id dst dst_id group line then finish_line success extra line else line)
      lines

-- AddCopyLine and DoneCopyLine, which give no group: the condition then fits the lines of every group.
unfoldable pub add_plain_line :
    (src : Text) → (src_id : ℤ) → (dst : Text) → (dst_id : ℤ) → List CopyLine → List CopyLine
unfolding add_copy_line
add_plain_line src src_id dst dst_id = add_copy_line src src_id dst dst_id []

unfoldable pub done_plain_line :
    (src : Text)
    → (src_id : ℤ) → (dst : Text) → (dst_id : ℤ) → (success : Bool) → List CopyLine
    → List CopyLine
unfolding matches
done_plain_line src src_id dst dst_id success lines =
    map
      (λ line.
        if matches src src_id dst dst_id [] line
        then record line { state = if success then completed else failed }
        else line)
      lines

-- LoadCopyLines
unfoldable pub load_plain_lines :
    (src : Text) → (src_id : ℤ) → (dst : Text) → (dst_id : ℤ) → List CopyLine → List CopyLine
unfolding matches filter
load_plain_lines src src_id dst dst_id = filter (matches src src_id dst dst_id [])

-- LoadCopyLinesByG
unfoldable pub load_copy_lines : (group : Text) → List CopyLine → List CopyLine
unfolding fits_text
load_copy_lines group [] = []
load_copy_lines group (line ∷ lines) =
    let rest = load_copy_lines group lines in
    if fits_text group line.group then line ∷ rest else rest

abbrev pub is_completed : UploadState → Bool
is_completed completed = true
is_completed _ = false

abbrev pub is_failed : UploadState → Bool
is_failed failed = true
is_failed _ = false

abbrev pub is_under_way : UploadState → Bool
is_under_way running = true
is_under_way _ = false

-- ScavengeCopyLine, whose times are arguments: which lines were made more than 12 hours ago, and which
-- were changed more than 6 hours ago. A line is deleted if the handler, which is told whether the copy
-- is done, has no error. The second query follows the deletions of the first.
module _ (made_long_ago changed_long_ago : CopyLine → Bool) (handle : CopyLine → Bool → Bool) where
  unfoldable pub is_stuck : CopyLine → Bool
  is_stuck line = made_long_ago line && is_under_way line.state && handle line false

  unfoldable pub is_over : CopyLine → Bool
  is_over line =
      changed_long_ago line
      && not (is_under_way line.state)
      && handle line (is_completed line.state)

  unfoldable pub scavenge_copy_line : List CopyLine → List CopyLine
  unfolding is_stuck is_over filter
  scavenge_copy_line lines =
      filter (λ line. not (is_over line)) (filter (λ line. not (is_stuck line)) lines)

pub data Status : Type 0 where
  unknown : Status
  in_progress : Status
  success : Status
  failure : (extra : Text) → Status

-- The loop of copyLineProcess, which breaks at the first failed line, and the tests that follow it.
unfoldable pub status_loop : (so_far : Bool) → List CopyLine → Status
status_loop so_far [] = if so_far then success else in_progress
status_loop so_far (line ∷ lines) =
    let rest = status_loop (so_far && is_completed line.state) lines in
    if is_failed line.state then failure line.extra else rest

unfoldable pub status_of : List CopyLine → Status
unfolding status_loop
status_of [] = unknown
status_of (line ∷ rest) = status_loop true (line ∷ rest)

unfoldable pub copy_line_process : (id : Text) → List CopyLine → Status
unfolding load_copy_lines status_of
copy_line_process id lines = if eq_text id [] then unknown else status_of (load_copy_lines id lines)
