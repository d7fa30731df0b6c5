-- ===== src/Sessions/Deletion.antt =====
-- internal/storage/upload.go: what a deletion by key takes.
use fa.Prelude.{
  ◌≡◌, ◌⊎◌, refl, Bool, true, false, not, ◌&&◌, Bool-cases, inl, inr, List, [], ◌∷◌, All, filter,
  if◌then◌else◌, arith,
}
use fa.Prelude.Text.{Text, eq_text, eq_text_refl, eq_text_sound, has_prefix}
use fa.Sessions.{
  UploadRow, Sessions, drop_parts, drop_upload, destroy_rows, destroy_upload_by_key,
  do_clean_upload,
}
use fa.Sessions.Orphans.{is_known}

eq_text-apart : (a b : Text) → eq_text a b ≡ false → eq_text b a ≡ false
eq_text-apart a b h = elim (Bool-cases (eq_text b a)) [
  | inr apart ↦ apart
  | inl same ↦
      let this : b ≡ a = eq_text_sound b a same in
      let that : eq_text a b ≡ true = rw this (eq_text_refl a) in cc
]

-- Not matched, or of a token that is still to be dropped.
abbrev Pending : (Text → Text → Bool) → Text → List UploadRow → UploadRow → Type 0
Pending like key ups row = (like row.key key && not (is_known row.token ups)) ≡ false

drop-Pending :
    (like : Text → Text → Bool) (key : Text) (up : UploadRow) (ups rows : List UploadRow)
    → All (Pending like key (up ∷ ups)) rows
    → All (Pending like key ups) (drop_upload up.token rows)
unfolding drop_upload filter is_known
drop-Pending like key up ups [] h = tt
drop-Pending like key up ups (row ∷ rows) h =
    tested (eq_text row.token up.token)
      (λ apart. ground (arith, h.0, eq_text-apart row.token up.token apart))
      (drop-Pending like key up ups rows h.1)
  where
    tested :
        (b : Bool)
        → (b ≡ false → Pending like key ups row)
        → All (Pending like key ups) (drop_upload up.token rows)
        → All
            (Pending like key ups)
            (if not b then row ∷ drop_upload up.token rows else drop_upload up.token rows)
    tested true keeps rest = rest
    tested false keeps rest = (keeps refl, rest)

destroy_rows-Pending :
    (like : Text → Text → Bool) (key : Text) (ups : List UploadRow) (s : Sessions)
    → All (Pending like key ups) s.uploads
    → All (Pending like key []) (destroy_rows ups s).uploads
unfolding destroy_rows
destroy_rows-Pending like key [] s h = h
destroy_rows-Pending like key (up ∷ ups) s h =
    destroy_rows-Pending like key ups
      (record s { uploads = drop_upload up.token s.uploads; parts = drop_parts up.token s.parts })
      (drop-Pending like key up ups s.uploads h)

Pending-cons :
    (like : Text → Text → Bool) (key : Text) (up : UploadRow) (ups rows : List UploadRow)
    → All (Pending like key ups) rows
    → All (Pending like key (up ∷ ups)) rows
unfolding is_known
Pending-cons like key up ups [] h = tt
Pending-cons like key up ups (row ∷ rows) h =
    (ground (arith, h.0), Pending-cons like key up ups rows h.1)

matched-Pending :
    (like : Text → Text → Bool) (key : Text) (rows : List UploadRow)
    → All (Pending like key (filter (λ row. like row.key key) rows)) rows
unfolding filter is_known
matched-Pending like key [] = tt
matched-Pending like key (row ∷ rows) =
    tested (like row.key key) refl (matched-Pending like key rows)
  where
    tested :
        (b : Bool)
        → like row.key key ≡ b
        → All (Pending like key (filter (λ r. like r.key key) rows)) rows
        → Pending like key
            (if b
              then row ∷ filter (λ r. like r.key key) rows
              else filter (λ r. like r.key key) rows)
            row
          × All
              (Pending like key (
                if b
                then row ∷ filter (λ r. like r.key key) rows
                else filter (λ r. like r.key key) rows))
              rows
    tested true is rest =
        (ground (arith, is, eq_text_refl row.token), Pending-cons like key row _ rows rest)
    tested false is rest = (rw is refl, rest)

unmatched :
    (like : Text → Text → Bool) (key : Text)
    → ((s pattern_ : Text) → has_prefix s pattern_ ≡ true → like s pattern_ ≡ true)
    → (rows : List UploadRow) → All (Pending like key []) rows
    → All (λ row. has_prefix row.key key ≡ false) rows
unfolding is_known
unmatched like key law [] h = tt
unmatched like key law (row ∷ rows) h =
    (none_left (Bool-cases (has_prefix row.key key)), unmatched like key law rows h.1)
  where
    none_left :
        ((has_prefix row.key key ≡ true) ⊎ (has_prefix row.key key ≡ false))
        → has_prefix row.key key ≡ false
    none_left (inr apart) = apart
    none_left (inl there) = ground (arith, law row.key key there, h.0)

-- With a LIKE that matches at least the keys that begin with the text, the deletion of a directory's
-- uploads leaves no upload whose key begins with the directory's path, also where the path goes on
-- within the same name, so that the upload is not in the directory.
pub do_clean_upload-prefix :
    (like : Text → Text → Bool) (path : Text) (s : Sessions)
    → ((t p : Text) → has_prefix t p ≡ true → like t p ≡ true)
    → All (λ row. has_prefix row.key path ≡ false) (do_clean_upload like path s).uploads
unfolding do_clean_upload destroy_upload_by_key
do_clean_upload-prefix like path s law = unmatched like path law _ (
    destroy_rows-Pending like path (filter (λ row. like row.key path) s.uploads) s
      (matched-Pending like path s.uploads))
