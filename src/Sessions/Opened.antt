-- ===== src/Sessions/Opened.antt =====
-- web/routers/uploader.go: what initMultipartUpload leaves in the table.
use mathlib.Core.Path.{subst}
use fa.Prelude.{
  ℕ, ◌*◌, ◌%◌, ◌^◌, ◌≡◌, refl, ap, ◌∙◌, Bool, true, false, not, Option, none, some, Option-cases,
  Bool-cases, inl, inr, List, [], ◌∷◌, ◌++◌, filter, first, if◌then◌else◌, arith,
}
use fa.Prelude.Int.{ℤ, pos}
use fa.Prelude.Text.{Text, eq_text, eq_text_refl, eq_text_sound}
use fa.Sessions.{
  UploadRow, Sessions, find_key, find_token, is_corrupted, resume_upload, create_upload, init_found,
  init_upload, drop_upload, remove_file, destroy_found, destroy_upload_by_token, SessionError,
  part_up_corrupted, answer_existed, answer_init, init_multipart_upload,
}

-- The column of keys is unique.
abbrev pub KeysUnique : List UploadRow → Type 0
KeysUnique [] = Unit
KeysUnique (row ∷ rows) = (find_key row.key rows ≡ none) × KeysUnique rows

module _ {A : Type 0} (p : A → Bool) where
  first-test : (q : Bool) (x : A) (o : Option A) → (if q then some x else o) ≡ none → o ≡ none
  first-test true x o h = cc
  first-test false x o h = h

  first-filter : (q : A → Bool) (xs : List A) → first p xs ≡ none → first p (filter q xs) ≡ none
  unfolding first filter
  first-filter q [] h = refl
  first-filter q (x ∷ xs) h = ground (arith, h, first-filter q xs)

  first-snoc :
      (xs : List A) (x : A) → first p xs ≡ none → p x ≡ true → first p (xs ++ (x ∷ [])) ≡ some x
  unfolding first
  first-snoc [] x h is = rw is refl
  first-snoc (y ∷ ys) x h is = ground (arith, h, is, first-snoc ys x)

  first-holds : (xs : List A) (x : A) → first p xs ≡ some x → p x ≡ true
  unfolding first
  first-holds [] x h = cc
  first-holds (y ∷ ys) x h = ground (arith, h, first-holds ys x)

  -- What one test finds first, another finds too if it holds there.
  first-other :
      (q : A → Bool) (xs : List A) (u : A)
      → first p xs ≡ some u
      → q u ≡ true
      → (v : A) × (first q xs ≡ some v)
  unfolding first
  first-other q [] u h is = cc
  first-other q (x ∷ xs) u h is = by_tests (p x) (q x) (λ e. ap q e ∙ is) (first-other q xs u) h
    where
      by_tests :
          (b c : Bool)
          → (x ≡ u → c ≡ true)
          → (first p xs ≡ some u → q u ≡ true → (v : A) × (first q xs ≡ some v))
          → (if b then some x else first p xs) ≡ some u
          → (v : A) × ((if c then some x else first q xs) ≡ some v)
      by_tests b true e rest h = (x, refl)
      by_tests false false e rest h = rest h is
      by_tests true false e rest h = let same : x ≡ u = cc in let bad : false ≡ true = e same in cc

-- The first row of a key is the only one, so that without it the key is not found.
drop_upload-find_key :
    (key : Text) (rows : List UploadRow) (up : UploadRow)
    → KeysUnique rows
    → find_key key rows ≡ some up
    → find_key key (drop_upload up.token rows) ≡ none
unfolding find_key drop_upload first filter
drop_upload-find_key key [] up unique h = cc
drop_upload-find_key key (x ∷ xs) up unique h = elim (Bool-cases (eq_text x.key key)) [
  | inr other ↦ ground (arith, other, drop_upload-find_key key xs up unique.1)
  | inl same ↦
      let this : x ≡ up = ground (arith, h, same) in
      let dropped : eq_text x.token up.token ≡ true = rw this (eq_text_refl up.token) in
      let none_left : first (λ row. eq_text row.key key) xs ≡ none =
        subst (λ k. first (λ row. eq_text row.key k) xs ≡ none) (eq_text_sound x.key key same)
          unique.0 in
      let still =
        first-filter (λ row. eq_text row.key key) (λ row. not (eq_text row.token up.token)) xs
          none_left in
      rw dropped still
]

-- The key's upload has the asked sizes and the token of the answer.
abbrev pub IsOpen : Text → ℕ → ℕ → Text → Sessions → Type 0
IsOpen key size bytes token s =
    (up : UploadRow) × (find_key key s.uploads ≡ some up)
    × (up.token ≡ token)
    × (up.size ≡ size)
    × (up.chunk_size ≡ bytes)

create_upload-IsOpen :
    (key : Text) (size bytes : ℕ) (storage_id : ℤ) (token : Text) (now : ℤ) (s : Sessions)
    → find_key key s.uploads ≡ none
    → IsOpen key size bytes token (create_upload key size bytes storage_id token now s).0
unfolding create_upload find_key
create_upload-IsOpen key size bytes storage_id token now s h =
    (_, first-snoc (λ row. eq_text row.key key) s.uploads _ h (eq_text_refl key), refl, refl, refl)

found_token :
    (key : Text) (rows : List UploadRow) (up : UploadRow)
    → find_key key rows ≡ some up
    → (found : UploadRow) × (find_token up.token rows ≡ some found)
unfolding find_key find_token
found_token key rows up h =
    first-other (λ row. eq_text row.key key) (λ row. eq_text row.token up.token) rows up h
      (eq_text_refl up.token)

destroy-find_key :
    (key : Text) (up : UploadRow) (s : Sessions)
    → KeysUnique s.uploads
    → find_key key s.uploads ≡ some up
    → find_key key (destroy_upload_by_token up.token s).0.uploads ≡ none
unfolding destroy_upload_by_token destroy_found
destroy-find_key key up s unique h =
    let (found, there) = found_token key s.uploads up h in rw there (by_found found)
  where
    by_found :
        (found : UploadRow) → find_key key (destroy_found (some found) up.token s).0.uploads ≡ none
    by_found found = drop_upload-find_key key s.uploads up unique h

module _ (key : Text) (size bytes : ℕ) (storage_id : ℤ) (now : ℤ) where
  init_upload-IsOpen :
      (token : Text) (s : Sessions)
      → find_key key s.uploads ≡ none
      → (IsOpen key size bytes token (init_upload key size bytes storage_id token now s).0)
        × ((init_upload key size bytes storage_id token now s).1.token ≡ token)
        × ((init_upload key size bytes storage_id token now s).1.existed ≡ false)
  unfolding init_upload init_found create_upload
  init_upload-IsOpen token s h =
      rw h (create_upload-IsOpen key size bytes storage_id token now s h, refl, refl)

  -- The upload that is resumed has the asked sizes.
  resumed :
      (up : UploadRow) (s : Sessions)
      → is_corrupted size bytes up s.files ≡ false
      → (up.size ≡ size) × (up.chunk_size ≡ bytes)
  unfolding is_corrupted
  resumed up s h = ground arith

  answer_existed-IsOpen :
      (e : Option SessionError) (up : UploadRow) (again : Text) (s : Sessions)
      → KeysUnique s.uploads
      → find_key key s.uploads ≡ some up
      → (e ≡ none → (up.size ≡ size) × (up.chunk_size ≡ bytes))
      → IsOpen key size bytes
          (answer_existed e key size bytes storage_id up.token again now s).1.token
          (answer_existed e key size bytes storage_id up.token again now s).0
  unfolding answer_existed
  answer_existed-IsOpen none up again s unique h sizes =
      (up, h, refl, (sizes refl).0, (sizes refl).1)
  answer_existed-IsOpen (some e) up again s unique h sizes =
      let destroyed = (destroy_upload_by_token up.token s).0 in
      let v = record destroyed { files = remove_file key destroyed.files } in
      let (opened, named, _) = init_upload-IsOpen again v (destroy-find_key key up s unique h) in
      rw named opened

module _ (key : Text) (size chunk_size : ℕ) (storage_id : ℤ) (token again : Text) (now : ℤ)
    (s : Sessions) where
  abbrev bytes : ℕ
  bytes = chunk_size * 1048576 % 2 ^ 64

  multipart-new :
      find_key key s.uploads ≡ none
      → init_multipart_upload key size chunk_size storage_id token again now s ≡ (
          let r = create_upload key size bytes storage_id token now s in
          (r.0, record { code = pos 2001; token = r.1.token; parts = [] }))
  unfolding init_multipart_upload answer_init init_upload init_found create_upload
  multipart-new h =
      ap
        (λ o.
          answer_init key size bytes storage_id again now
            (init_found o key size bytes storage_id token now s))
        h

  multipart-existed :
      (up : UploadRow)
      → find_key key s.uploads ≡ some up
      → init_multipart_upload key size chunk_size storage_id token again now s
        ≡ answer_existed
            (if is_corrupted size bytes up s.files then some part_up_corrupted else none)
            key
            size
            bytes
            storage_id
            up.token
            again
            now
            s
  unfolding init_multipart_upload answer_init init_upload init_found resume_upload
  multipart-existed up h =
      ap
        (λ o.
          answer_init key size bytes storage_id again now
            (init_found o key size bytes storage_id token now s))
        h

-- initMultipartUpload on a table whose keys are unique: whether it begins an upload, resumes one or
-- replaces one, the key's upload afterwards has the size and the chunk size of the request, and its
-- token is the one that the client is given.
pub init_multipart_upload-IsOpen :
    (key : Text) (size chunk_size : ℕ) (storage_id : ℤ) (token again : Text) (now : ℤ)
    (s : Sessions)
    → KeysUnique s.uploads
    → (up : UploadRow) × (find_key key
          (init_multipart_upload key size chunk_size storage_id token again now s).0.uploads
        ≡ some up)
      × (up.token
          ≡ (init_multipart_upload key size chunk_size storage_id token again now s).1.token)
      × (up.size ≡ size)
      × (up.chunk_size ≡ chunk_size * 1048576 % 2 ^ 64)
unfolding create_upload
init_multipart_upload-IsOpen key size chunk_size storage_id token again now s unique =
    let bytes_ = chunk_size * 1048576 % 2 ^ 64 in
    elim (Option-cases (find_key key s.uploads)) [
      | inl missing ↦
          rw (multipart-new key size chunk_size storage_id token again now s missing)
            (create_upload-IsOpen key size bytes_ storage_id token now s missing)
      | inr (up, there) ↦
          let corrupt = is_corrupted size bytes_ up s.files in
          rw (multipart-existed key size chunk_size storage_id token again now s up there) (
            answer_existed-IsOpen key size bytes_ storage_id now
              (if corrupt then some part_up_corrupted else none) up again s unique there
              (λ none_. resumed key size bytes_ storage_id now up s (no_error corrupt none_)))
    ]
  where
    no_error : (b : Bool) → ((if b then some part_up_corrupted else none) ≡ none) → b ≡ false
    no_error true h = cc
    no_error false h = refl
