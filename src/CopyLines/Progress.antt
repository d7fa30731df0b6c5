-- ===== src/CopyLines/Progress.antt =====
-- web/routers/file.go and internal/storage/copyline.go: what copyLineProcess says of a group.
use fa.Prelude.{
  ◌≡◌, ◌≢◌, ◌↔◌, refl, sym, ◌∙◌, inl, inr, Bool, true, false, not, filter, if◌then◌else◌, ◌&&◌,
  List, [], ◌∷◌, All, Bool-cases, arith,
}
use fa.Prelude.Int.{ℤ}
use fa.Prelude.Text.{Text, eq_text, eq_text_refl, eq_text_sound}
use fa.CopyLines.{
  UploadState, running, completed, failed, CopyLine, fits_text, matches, done_copy_line,
  load_copy_lines, is_under_way, is_stuck, is_over, scavenge_copy_line, is_completed, is_failed,
  Status, unknown, success, failure, status_loop, status_of, copy_line_process,
}

abbrev pub IsCompleted : CopyLine → Type 0
IsCompleted line = line.state ≡ completed

abbrev pub HasNotFailed : CopyLine → Type 0
HasNotFailed line = is_failed line.state ≡ false

status_loop-false : (lines : List CopyLine) → status_loop false lines ≢ success
unfolding status_loop
status_loop-false [] same = cc
status_loop-false (line ∷ lines) same = elim (Bool-cases (is_failed line.state)) [
  | inl bad ↦ absurd (ground (arith, status_loop-false lines))
  | inr good ↦ absurd (ground (arith, status_loop-false lines))
]

status_loop-IsCompleted :
    (lines : List CopyLine) → (status_loop true lines ≡ success) ↔ All IsCompleted lines
unfolding status_loop
status_loop-IsCompleted [] = (λ same. tt, λ all. refl)
status_loop-IsCompleted (line ∷ lines) = from (status_loop-IsCompleted lines) line.state refl
  where
    from :
        ((status_loop true lines ≡ success) ↔ All IsCompleted lines)
        → (st : UploadState) → line.state ≡ st
        → (status_loop true (line ∷ lines) ≡ success) ↔ All IsCompleted (line ∷ lines)
    from rest completed same = rw same (λ h. (refl, rest.0 h), λ all. rest.1 (all.1))
    from rest running same =
        rw same (λ h. absurd (status_loop-false lines h), λ all. let no_such = all.0 in absurd cc)
    from rest failed same = rw same (λ h. absurd cc, λ all. let no_such = all.0 in absurd cc)

abbrev pub is_failure : Status → Bool
is_failure (failure e) = true
is_failure _ = false

status_loop-HasNotFailed :
    (so_far : Bool) (lines : List CopyLine)
    → (is_failure (status_loop so_far lines) ≡ false) ↔ All HasNotFailed lines
unfolding status_loop
status_loop-HasNotFailed true [] = (λ h. tt, λ h. refl)
status_loop-HasNotFailed false [] = (λ h. tt, λ h. refl)
status_loop-HasNotFailed so_far (line ∷ lines) = elim (Bool-cases (is_failed line.state)) [
  | inl bad ↦ rw bad (λ h. absurd cc, λ all. let no_such = all.0 in absurd cc)
  | inr good ↦
      let rest = status_loop-HasNotFailed (so_far && is_completed line.state) lines in
      rw good (λ h. (refl, rest.0 h), λ all. rest.1 (all.1))
]

status_loop-known : (so_far : Bool) (lines : List CopyLine) → status_loop so_far lines ≢ unknown
unfolding status_loop
status_loop-known true [] same = cc
status_loop-known false [] same = cc
status_loop-known so_far (line ∷ lines) same =
    absurd (ground (arith, status_loop-known (so_far && is_completed line.state) lines))

-- What copyLineProcess says of a group that has lines: success exactly when every line is done, a
-- failure exactly when some line has failed, and of neither that it is in progress.
pub copy_line_process-IsCompleted :
    (id : Text) (lines : List CopyLine)
    → eq_text id [] ≡ false
    → load_copy_lines id lines ≢ []
    → ((copy_line_process id lines ≡ success) ↔ All IsCompleted (load_copy_lines id lines))
      × ((is_failure (copy_line_process id lines) ≡ false)
          ↔ All HasNotFailed (load_copy_lines id lines))
      × (copy_line_process id lines ≢ unknown)
unfolding copy_line_process status_of
copy_line_process-IsCompleted id lines named some_lines =
    rw (copy_line_process, named) (from (load_copy_lines id lines) some_lines)
  where
    from :
        (ls : List CopyLine)
        → ls ≢ []
        → ((status_of ls ≡ success) ↔ All IsCompleted ls)
          × ((is_failure (status_of ls) ≡ false) ↔ All HasNotFailed ls)
          × (status_of ls ≢ unknown)
    from [] some_ = absurd (some_ refl)
    from (l ∷ ls) some_ = (
      status_loop-IsCompleted (l ∷ ls),
      status_loop-HasNotFailed true (l ∷ ls),
      status_loop-known true (l ∷ ls),
    )

other_group :
    (src : Text) (src_id : ℤ) (dst : Text) (dst_id : ℤ) (group other : Text) (line : CopyLine)
    → eq_text group [] ≡ false
    → eq_text other [] ≡ false
    → eq_text group other ≡ false
    → matches src src_id dst dst_id group line ≡ true
    → fits_text other line.group ≡ false
unfolding matches fits_text
other_group src src_id dst dst_id group other line g o apart here =
    let mine : eq_text group line.group ≡ true = ground arith in
    let same = eq_text_sound group line.group mine in
    elim (Bool-cases (eq_text other line.group)) [
      | inl theirs ↦
          let theirs_same = eq_text_sound other line.group theirs in
          let both : eq_text group other ≡ true =
            rw (same ∙ sym theirs_same) (eq_text_refl other) in
          absurd cc
      | inr none_ ↦ rw (o, none_) refl
    ]

-- The end of one copy of a group leaves the lines of every other group as they were; neither group
-- is the empty one.
pub done_copy_line-load_copy_lines :
    (src : Text) (src_id : ℤ) (dst : Text) (dst_id : ℤ) (done_ : Bool) (group extra other : Text)
    (lines : List CopyLine)
    → eq_text group [] ≡ false
    → eq_text other [] ≡ false
    → eq_text group other ≡ false
    → load_copy_lines other (done_copy_line src src_id dst dst_id done_ group extra lines)
      ≡ load_copy_lines other lines
unfolding done_copy_line load_copy_lines
done_copy_line-load_copy_lines src src_id dst dst_id done_ group extra other [] g o apart = refl
done_copy_line-load_copy_lines src src_id dst dst_id done_ group extra other (line ∷ lines) g o
      apart =
    let rest =
      done_copy_line-load_copy_lines src src_id dst dst_id done_ group extra other lines g o
        apart in
    elim (Bool-cases (matches src src_id dst dst_id group line)) [
      | inr elsewhere ↦ rw (elsewhere, rest) refl
      | inl here ↦ rw (here, other_group src src_id dst dst_id group other line g o apart here) rest
    ]

module _ (made_long_ago changed_long_ago : CopyLine → Bool) (handle : CopyLine → Bool → Bool) where
  -- What scavenging keeps of a line by its state.
  unfoldable is_kept : CopyLine → Bool
  is_kept line =
      if is_under_way line.state
      then not (made_long_ago line && handle line false)
      else not (changed_long_ago line && handle line (is_completed line.state))

  -- The two queries and deletions of ScavengeCopyLine come to one pass: a running line goes if it was
  -- made 12 hours ago and the handler has no error, an ended one if it was changed 6 hours ago and the
  -- handler has no error; the others stay as they are, in their order.
  scavenge_copy_line-is_kept :
      (lines : List CopyLine)
      → scavenge_copy_line made_long_ago changed_long_ago handle lines ≡ filter is_kept lines
  unfolding scavenge_copy_line filter is_kept is_stuck is_over
  scavenge_copy_line-is_kept [] = refl
  scavenge_copy_line-is_kept (line ∷ lines) =
      let rest = scavenge_copy_line-is_kept lines in
      elim (Bool-cases (is_under_way line.state)) [
        | inl runs ↦ elim (Bool-cases (made_long_ago line && handle line false)) [
          | inl goes ↦ ground (arith, rest)
          | inr stays ↦ ground (arith, rest)
        ]
        | inr ended ↦ ground (arith, rest)
      ]
