-- ===== src/Sessions/Orphans.antt =====
-- internal/storage/upload.go: every part belongs to an upload.
use fa.Prelude.{
  ℕ, ◌≡◌, refl, ap, ◌∙◌, Bool, true, false, not, ◌&&◌, ◌||◌, ◌==◌, Option, none, some, Bool-cases,
  inl, inr, List, [], ◌∷◌, ◌++◌, All, All-filter, filter, first, if◌then◌else◌, arith,
}
use fa.Prelude.Int.{ℤ, ltb_ℤ, ◌-ℤ◌}
use fa.Prelude.Text.{Text, eq_text, eq_text_refl, eq_text_sound}
use fa.Upload.{Part}
use fa.Sessions.{
  UploadRow, PartRow, Sessions, find_key, find_token, resume_upload, create_upload, init_found,
  init_upload, drop_parts, drop_upload, destroy_found, destroy_upload_by_token, destroy_rows,
  destroy_upload_by_key, is_done, one_day, do_clean_upload, clean, scavenge_upload, upsert_part,
  record_found, upload_part_row, Operation, inits, uploads_part, destroys_by_token, destroys_by_key,
  cleans, scavenges, apply, apply_all,
}

-- The token is that of some row.
unfoldable pub is_known : Text → List UploadRow → Bool
is_known token [] = false
is_known token (row ∷ rows) = eq_text row.token token || is_known token rows

-- Every part belongs to an upload of the table.
abbrev pub NoOrphans : Sessions → Type 0
NoOrphans s = All (λ p. is_known p.token s.uploads ≡ true) s.parts

is_known-drop :
    (token dropped : Text) (rows : List UploadRow)
    → eq_text token dropped ≡ false
    → is_known token rows ≡ true
    → is_known token (drop_upload dropped rows) ≡ true
unfolding is_known drop_upload filter
is_known-drop token dropped [] other h = h
is_known-drop token dropped (row ∷ rows) other h = elim (Bool-cases (eq_text row.token token)) [
  | inl same ↦
      let kept : eq_text row.token dropped ≡ false =
        ap (λ t. eq_text t dropped) (eq_text_sound row.token token same) ∙ other in
      rw kept (rw same refl)
  | inr differs ↦
      let rest : is_known token rows ≡ true = ground (arith, h, differs) in
      ground (arith, is_known-drop token dropped rows other rest)
]

drop-parts :
    (dropped : Text) (rows : List UploadRow) (parts : List PartRow)
    → All (λ p. is_known p.token rows ≡ true) parts
    → All (λ p. is_known p.token (drop_upload dropped rows) ≡ true) (drop_parts dropped parts)
unfolding drop_parts filter
drop-parts dropped rows [] h = tt
drop-parts dropped rows (p ∷ ps) h =
    kept (eq_text p.token dropped) (is_known-drop p.token dropped rows) h.0
      (drop-parts dropped rows ps h.1)
  where
    kept :
        (b : Bool)
        → (b ≡ false
            → is_known p.token rows ≡ true
            → is_known p.token (drop_upload dropped rows) ≡ true)
        → is_known p.token rows ≡ true
        → All (λ q. is_known q.token (drop_upload dropped rows) ≡ true) (drop_parts dropped ps)
        → All
            (λ q. is_known q.token (drop_upload dropped rows) ≡ true)
            (if not b then p ∷ drop_parts dropped ps else drop_parts dropped ps)
    kept true keeps known rest = rest
    kept false keeps known rest = (keeps refl known, rest)

destroy_rows-NoOrphans :
    (ups : List UploadRow) (s : Sessions) → NoOrphans s → NoOrphans (destroy_rows ups s)
unfolding destroy_rows
destroy_rows-NoOrphans [] s h = h
destroy_rows-NoOrphans (up ∷ ups) s h =
    destroy_rows-NoOrphans ups
      (record s { uploads = drop_upload up.token s.uploads; parts = drop_parts up.token s.parts })
      (drop-parts up.token s.uploads s.parts h)

is_known-snoc :
    (token : Text) (rows : List UploadRow) (row : UploadRow)
    → is_known token rows ≡ true
    → is_known token (rows ++ (row ∷ [])) ≡ true
unfolding is_known
is_known-snoc token [] row h = cc
is_known-snoc token (x ∷ xs) row h = ground (arith, h, is_known-snoc token xs row)

All-is_known-snoc :
    (parts : List PartRow) (rows : List UploadRow) (row : UploadRow)
    → All (λ p. is_known p.token rows ≡ true) parts
    → All (λ p. is_known p.token (rows ++ (row ∷ [])) ≡ true) parts
All-is_known-snoc [] rows row h = tt
All-is_known-snoc (p ∷ ps) rows row h =
    (is_known-snoc p.token rows row h.0, All-is_known-snoc ps rows row h.1)

init_found-NoOrphans :
    (o : Option UploadRow) (key : Text) (size chunk_size : ℕ) (storage_id : ℤ) (token : Text)
    (now : ℤ) (s : Sessions)
    → NoOrphans s
    → NoOrphans (init_found o key size chunk_size storage_id token now s).0
unfolding init_found resume_upload create_upload
init_found-NoOrphans (some up) key size chunk_size storage_id token now s h = h
init_found-NoOrphans none key size chunk_size storage_id token now s h =
    All-is_known-snoc s.parts s.uploads _ h

destroy_found-NoOrphans :
    (o : Option UploadRow) (token : Text) (s : Sessions)
    → find_token token s.uploads ≡ o
    → NoOrphans s
    → NoOrphans (destroy_found o token s).0
unfolding destroy_found drop_parts
destroy_found-NoOrphans (some up) token s e h = drop-parts token s.uploads s.parts h
destroy_found-NoOrphans none token s e h =
    All-filter (λ p. is_known p.token s.uploads ≡ true) (λ row. not (eq_text row.token token))
      s.parts h

upsert_part-known :
    (token : Text) (part : Part) (rows : List UploadRow) (parts : List PartRow)
    → is_known token rows ≡ true
    → All (λ p. is_known p.token rows ≡ true) parts
    → All (λ p. is_known p.token rows ≡ true) (upsert_part token part parts)
unfolding upsert_part
upsert_part-known token part rows [] k h = (k, tt)
upsert_part-known token part rows (p ∷ ps) k h =
    placed (eq_text p.token token && (p.part.idx == part.idx))
      (upsert_part-known token part rows ps k h.1)
  where
    placed :
        (b : Bool)
        → All (λ q. is_known q.token rows ≡ true) (upsert_part token part ps)
        → All
            (λ q. is_known q.token rows ≡ true)
            (if b then record p { part = part } ∷ ps else p ∷ upsert_part token part ps)
    placed true rest = h
    placed false rest = (h.0, rest)

find_key-is_known :
    (key : Text) (rows : List UploadRow) (up : UploadRow)
    → find_key key rows ≡ some up
    → is_known up.token rows ≡ true
unfolding find_key first is_known
find_key-is_known key [] up h = cc
find_key-is_known key (x ∷ xs) up h = elim (Bool-cases (eq_text x.key key)) [
  | inl same ↦
      let this : x ≡ up = ground (arith, h, same) in rw this (rw (eq_text_refl up.token) refl)
  | inr other ↦
      let later : first (λ row. eq_text row.key key) xs ≡ some up = ground (arith, h, other) in
      ground (arith, find_key-is_known key xs up later)
]

record_found-NoOrphans :
    (o : Option UploadRow) (key : Text) (part : Part) (s : Sessions)
    → find_key key s.uploads ≡ o
    → NoOrphans s
    → NoOrphans (record_found o part s).0
unfolding record_found
record_found-NoOrphans none key part s e h = h
record_found-NoOrphans (some up) key part s e h =
    upsert_part-known up.token part s.uploads s.parts (find_key-is_known key s.uploads up e) h

apply-NoOrphans :
    (like : Text → Text → Bool) (o : Operation) (s : Sessions)
    → NoOrphans s
    → NoOrphans (apply like o s)
unfolding apply init_upload upload_part_row destroy_upload_by_token do_clean_upload
    destroy_upload_by_key clean scavenge_upload
apply-NoOrphans like (inits key size chunk_size storage_id token now) s h =
    init_found-NoOrphans (find_key key s.uploads) key size chunk_size storage_id token now s h
apply-NoOrphans like (uploads_part key part) s h =
    record_found-NoOrphans (find_key key s.uploads) key part s refl h
apply-NoOrphans like (destroys_by_token token) s h =
    destroy_found-NoOrphans (find_token token s.uploads) token s refl h
apply-NoOrphans like (destroys_by_key key) s h =
    destroy_rows-NoOrphans (filter (λ row. like row.key key) s.uploads) s h
apply-NoOrphans like cleans s h =
    destroy_rows-NoOrphans (filter (λ row. is_done row.state) s.uploads) s h
apply-NoOrphans like (scavenges now) s h =
    destroy_rows-NoOrphans (filter (λ row. ltb_ℤ row.created_at (now -ℤ one_day)) s.uploads) s h

-- Through any sequence of the calls that change the table, every recorded part belongs to an upload
-- that is there.
pub apply_all-NoOrphans :
    (like : Text → Text → Bool) (os : List Operation) (s : Sessions)
    → All (λ p. is_known p.token s.uploads ≡ true) s.parts
    → All (λ p. is_known p.token (apply_all like os s).uploads ≡ true) (apply_all like os s).parts
unfolding apply_all
apply_all-NoOrphans like [] s h = h
apply_all-NoOrphans like (o ∷ os) s h =
    apply_all-NoOrphans like os (apply like o s) (apply-NoOrphans like o s h)
