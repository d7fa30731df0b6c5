-- ===== src/Upload/Completion.antt =====
-- internal/storage/upload.go and web/routers/uploader.go: completing a multipart upload.
use mathlib.Core.List.{Perm, map}
use fa.Prelude.{
  ℕ, suc, ◌<◌, ◌≡◌, refl, sym, ap, ◌∙◌, inl, inr, true, false, some, List, [], ◌∷◌, length,
  length-map, length-drop, drop, All, ltb, leb, arith, Bool-cases, ◌≢◌, append-nil,
}
use fa.Prelude.Text.{eq_text, eq_text_refl, eq_text_sound}
use fa.Prelude.Sorting.{sort_by, sort_by-perm, sort_by-map, length-perm, IsJob}
use fa.Cipher.{Digest, copy, md5_single, sum, Md5Chunk, chunk_digest, spawn, joined, md5_by_chunk}
use fa.Cipher.Chunks.{chunks, pieces, hashes, etag}
use fa.Cipher.Sequential.{intact, md5_by_chunk-etag}
use fa.Cipher.Concurrent.{chunks-cut, sort_by-spawn, spawn-IsJob, spawn-pieces}
use fa.Upload.{
  Part, done, Upload, complete_part_failed, ok, fail, Codec, Database, decode_all, expected,
  client_md5, complete_part, Store, rename_tmp, complete_multipart,
}

-- The parts of a file, as an upload of its chunks records them.
abbrev pub part_of : Digest → Md5Chunk → Part
part_of d c = record { idx = c.idx; etag = d.hex c.md5 }

abbrev pub sent : Digest → ℕ → ℕ → List ℕ → List Part
sent d chunk fuel content = map (part_of d) (spawn d content (length content) chunk fuel 0)

Part-set : IsSet (List Part)
Part-set = hlevel

All-parts :
    (d : Digest) (job : ℕ → Md5Chunk) (cs : List Md5Chunk)
    → All (IsJob (λ c. c.idx) job) cs
    → All (IsJob (λ p. p.idx) (λ i. part_of d (job i))) (map (part_of d) cs)
All-parts d job [] h = tt
All-parts d job (c ∷ cs) h = (ap (part_of d) h.0, All-parts d job cs h.1)

-- In whatever order the parts come, they are sorted into the order of the file.
sort_by-sent :
    (d : Digest) (chunk fuel : ℕ) (content : List ℕ) (ps : List Part)
    → Perm ps (sent d chunk fuel content)
    → sort_by (λ p. p.idx) ps ≡ sent d chunk fuel content
sort_by-sent d chunk fuel content ps perm =
    let job = chunk_digest d content (length content) chunk in
    sort_by-perm (λ p. p.idx) (λ i. part_of d (job i)) Part-set perm
      (All-parts d job _ (spawn-IsJob d content (length content) chunk fuel 0))
    ∙ sort_by-map (part_of d) (λ c. c.idx) (λ p. p.idx) (λ c. refl)
        (spawn d content (length content) chunk fuel 0)
    ∙ ap (map (part_of d)) (sort_by-spawn d content (length content) chunk fuel 0)

decode_all-parts :
    (c : Codec) (cs : List Md5Chunk) → decode_all c (map (part_of c.digest) cs) ≡ some (joined cs)
unfolding decode_all joined
decode_all-parts c [] = refl
decode_all-parts c (x ∷ cs) = rw (c.decode-hex x.md5, decode_all-parts c cs)

expected-many :
    (c : Codec) (e : List ℕ) (ps : List Part)
    → 1 < length ps
    → expected c e ps ≡ some (c.digest.numbered e (length ps))
unfolding expected
expected-many c e [] h = absurd (omega arith)
expected-many c e (p ∷ []) h = absurd (omega arith)
expected-many c e (p ∷ q ∷ ps) h = refl

chunks-many :
    (n c : ℕ) (xs : List ℕ) → 0 < c → c < length xs → 1 < length (chunks (suc (suc n)) c xs)
chunks-many n c xs p h =
    rw
      (
        chunks-cut (suc n) c xs (omega arith),
        chunks-cut n c (drop c xs) (omega (arith, length-drop c xs)),
      )
      (omega arith)

pieces-many : (c : ℕ) (xs : List ℕ) → 0 < c → c < length xs → 1 < length (pieces c xs)
unfolding pieces
pieces-many c [] p h = absurd (omega arith)
pieces-many c (x ∷ []) p h = absurd (omega arith)
pieces-many c (x ∷ y ∷ xs) p h = chunks-many (length xs) c (x ∷ y ∷ xs) p h

-- The digest of a file of several chunks.
abbrev chunked : Digest → ℕ → List ℕ → List ℕ
chunked d chunk content =
    d.numbered (d.hex (d.md5 (hashes d (pieces chunk content)))) (length (pieces chunk content))

-- What an upload of a file in several chunks records.
module _ (c : Codec) (content : List ℕ) (chunk fuel : ℕ) (p : 0 < chunk)
    (several : chunk < length content) (f : length content < fuel) where
  length-sent : length (sent c.digest chunk fuel content) ≡ length (pieces chunk content)
  length-sent =
      length-map (spawn c.digest content (length content) chunk fuel 0) (part_of c.digest)
      ∙ (spawn-pieces c.digest content chunk fuel p f).1

  decode_all-sent :
      decode_all c (sent c.digest chunk fuel content)
      ≡ some (hashes c.digest (pieces chunk content))
  decode_all-sent =
      decode_all-parts c (spawn c.digest content (length content) chunk fuel 0)
      ∙ ap some (spawn-pieces c.digest content chunk fuel p f).0

  client_md5-sent :
      (ps : List Part)
      → Perm ps (sent c.digest chunk fuel content)
      → client_md5 c ps ≡ ok (chunked c.digest chunk content)
  unfolding client_md5 md5_single copy
  client_md5-sent ps perm =
      let count = length-perm perm ∙ length-sent in
      let many : ltb 1 (length ps) ≡ true =
        ground (arith, pieces-many chunk content p several, count) in
      rw
        (client_md5, sort_by-sent c.digest chunk fuel content ps perm, decode_all-sent, many, count)

  complete_part-sent :
      (database : Database) (s : database.Db) (key : List ℕ) (up : Upload)
      → database.find_key key s ≡ some up
      → Perm (database.parts up.token s) (sent c.digest chunk fuel content)
      → complete_part c database s key (chunked c.digest chunk content)
        ≡ ok (database.save (record up { md5 = chunked c.digest chunk content; state = done }) s)
  unfolding complete_part md5_single copy
  complete_part-sent database s key up found perm =
      let many : 1 < length (sent c.digest chunk fuel content) =
        omega (arith, pieces-many chunk content p several, length-sent) in
      rw (
        complete_part,
        found,
        sort_by-sent c.digest chunk fuel content (database.parts up.token s) perm,
        decode_all-sent,
        sort_by-sent c.digest chunk fuel content (database.parts up.token s) perm,
        expected-many c (c.digest.hex (c.digest.md5 (hashes c.digest (pieces chunk content))))
            (sent c.digest chunk fuel content) many,
        length-sent,
        eq_text_refl (chunked c.digest chunk content),
      )

-- When the table holds the digests of the chunks of a file, in any order, and the request names them,
-- in any order too, the completion succeeds, saves the upload as done with the digest that MD5ByChunk
-- computes of the whole file, answers it, and moves the temporary file to its place. The file has
-- more than one chunk.
pub complete_multipart-etag :
    (c : Codec) (database : Database) (s : Store c database) (key : List ℕ) (up : Upload)
    (content : List ℕ) (chunk fuel : ℕ) (named : List Part)
    → 0 < chunk
    → chunk < length content
    → length content < fuel
    → database.find_key key s.db ≡ some up
    → Perm (database.parts up.token s.db) (sent c.digest chunk fuel content)
    → Perm named (sent c.digest chunk fuel content)
    → (e : List ℕ) × (md5_by_chunk c.digest fuel (intact content) (length content) chunk ≡ sum e)
      × (complete_multipart c database s key named ≡ (
        rename_tmp c database
            (record s { db = database.save (record up { md5 = e; state = done }) s.db }),
        ok e,
      ))
unfolding complete_multipart etag
complete_multipart-etag c database s key up content chunk fuel named p several f found kept perm =
    let large : leb (length content) chunk ≡ false = ground arith in
    (
      chunked c.digest chunk content,
      md5_by_chunk-etag c.digest chunk fuel content p f ∙ rw large,
      rw (
        complete_multipart,
        found,
        client_md5-sent c content chunk fuel p several f named perm,
        complete_part-sent c content chunk fuel p several f database s.db key up found kept,
      ),
    )

sort_by-single : (p : Part) → sort_by (λ p. p.idx) (p ∷ []) ≡ p ∷ []
unfolding sort_by
sort_by-single p = refl

module _ (c : Codec) (i : ℕ) (b : List ℕ) where
  abbrev only : Part
  only = record { idx = i; etag = c.digest.hex b }

  decode_all-single : decode_all c (sort_by (λ p. p.idx) (only ∷ [])) ≡ some b
  unfolding decode_all
  decode_all-single = rw (sort_by-single only, c.decode-hex b, append-nil b)

  client_md5-single : client_md5 c (only ∷ []) ≡ ok (c.digest.hex (c.digest.md5 b))
  unfolding client_md5 md5_single copy
  client_md5-single = rw (client_md5, decode_all-single)

  complete_part-single :
      (database : Database) (s : database.Db) (key actual : List ℕ) (up : Upload)
      → database.find_key key s ≡ some up
      → database.parts up.token s ≡ only ∷ []
      → c.digest.hex b ≢ actual
      → complete_part c database s key actual ≡ fail complete_part_failed
  unfolding complete_part expected
  complete_part-single database s key actual up found parts differ =
      elim (Bool-cases (eq_text (c.digest.hex b) actual)) [
        | inl same ↦ absurd (differ (eq_text_sound _ _ same))
        | inr other ↦ rw (complete_part, found, parts, decode_all-single, parts, other)
      ]

-- An upload with one part, whose etag is the text of a digest, is not completed by a request that names this part, unless
-- the text of the digest of that digest is the same text: the router sends the second, the store
-- compares it with the first. Nothing changes.
pub complete_multipart-single :
    (c : Codec) (database : Database) (s : Store c database) (key : List ℕ) (up : Upload) (i : ℕ)
    (b : List ℕ)
    → database.find_key key s.db ≡ some up
    → database.parts up.token s.db ≡ record { idx = i; etag = c.digest.hex b } ∷ []
    → c.digest.hex (c.digest.md5 b) ≢ c.digest.hex b
    → complete_multipart c database s key (record { idx = i; etag = c.digest.hex b } ∷ [])
      ≡ (s, fail complete_part_failed)
unfolding complete_multipart
complete_multipart-single c database s key up i b found parts differ = rw (
  complete_multipart,
  found,
  client_md5-single c i b,
  complete_part-single c i b database s.db key (c.digest.hex (c.digest.md5 b)) up found parts
      (λ e. differ (sym e)),
)
