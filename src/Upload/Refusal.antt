-- ===== src/Upload/Refusal.antt =====
-- web/routers/uploader.go: a part whose body does not have the digest that the request names.
use native.Mathlib.Nat.{mod-eq_of_lt}
use fa.Prelude.{
  ℕ, ◌+◌, ◌*◌, ◌%◌, ◌^◌, ◌<◌, ◌≡◌, ◌≢◌, inl, inr, false, some, List, length, get_elem?, leb, arith,
  Bool-cases,
}
use fa.Cipher.Sequential.{intact}
use fa.Upload.{
  write_at, Upload, Part, fail, part_corrupted, Codec, Database, Store, file_of, upload_part,
  check_part, complete_multipart,
}
use fa.Upload.Writes.{write_at-inside}
use fa.Prelude.Text.{eq_text, eq_text_sound}

module _ (c : Codec) (database : Database) where
  refused : Store c database → ℕ → List ℕ → Store c database
  refused s offset body = record s { tmp = some (write_at offset body (file_of c database s.tmp)) }

  upload_part-refused :
      (s : Store c database) (up : Upload) (p : Part) (body : List ℕ)
      → database.find_token up.token s.db ≡ some up
      → up.chunk_size * p.idx < 2 ^ 63
      → c.digest.hex (c.digest.md5 body) ≢ p.etag
      → upload_part c database s up.token p (intact body)
        ≡ (refused s (up.chunk_size * p.idx) body, fail part_corrupted)
  unfolding upload_part check_part refused
  upload_part-refused s up p body known h differ =
      elim (Bool-cases (eq_text (c.digest.hex (c.digest.md5 body)) p.etag)) [
        | inl same ↦ absurd (differ (eq_text_sound _ _ same))
        | inr other ↦
            let offset : (up.chunk_size * p.idx) % 2 ^ 64 ≡ up.chunk_size * p.idx =
              mod-eq_of_lt (omega arith) in
            let low : leb (2 ^ 63) (up.chunk_size * p.idx) ≡ false = ground arith in
            rw (upload_part, known, offset, low, check_part, other)
      ]

  -- The completion does not look at the file's content.
  complete_multipart-refused :
      (s : Store c database) (offset : ℕ) (body key : List ℕ) (named : List Part)
      → (complete_multipart c database (refused s offset body) key named).1
        ≡ (complete_multipart c database s key named).1
  unfolding complete_multipart refused
  complete_multipart-refused s offset body key named = ground arith

-- A part that is refused because its body has another digest than the request names has replaced the
-- bytes at its offset in the temporary file all the same, and the completion of the upload answers
-- what it answered before. The upload is known, and the offset is less than 2 ^ 63.
pub upload_part-overwrites :
    (c : Codec) (database : Database) (s : Store c database) (up : Upload) (p : Part)
    (body key : List ℕ) (named : List Part)
    → database.find_token up.token s.db ≡ some up
    → up.chunk_size * p.idx < 2 ^ 63
    → c.digest.hex (c.digest.md5 body) ≢ p.etag
    → (r : Store c database) × (upload_part c database s up.token p (intact body)
        ≡ (r, fail part_corrupted))
      × ((q : ℕ)
          → q < length body
          → get_elem? (file_of c database r.tmp) (up.chunk_size * p.idx + q) ≡ get_elem? body q)
      × ((complete_multipart c database r key named).1
          ≡ (complete_multipart c database s key named).1)
unfolding file_of refused
upload_part-overwrites c database s up p body key named known h differ = (
  refused c database s (up.chunk_size * p.idx) body,
  upload_part-refused c database s up p body known h differ,
  λ q k. write_at-inside (up.chunk_size * p.idx) q body (file_of c database s.tmp) k,
  complete_multipart-refused c database s (up.chunk_size * p.idx) body key named,
)
