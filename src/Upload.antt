-- ===== src/Upload.antt =====
-- internal/storage/upload.go and web/routers/uploader.go: the parts of a multipart upload and its
-- completion. The database (through gorm) and hex.DecodeString are parameters; the queries succeed,
-- and so do the calls of the operating system but for a Seek to a negative offset.
pub mod Writes
pub mod Assembly
pub mod Refusal
pub mod Completion
mod Examples
use Prim.Native.Nat.{compare}
use fa.Prelude.{
  ℕ, zero, suc, ◌+◌, ◌*◌, ◌%◌, ◌^◌, ◌≡◌, Bool, true, false, ◌&&◌, Option, none, some, List, [], ◌∷◌,
  ◌++◌, length, drop, ltb, leb, ◌==◌, if◌then◌else◌,
}
use fa.Prelude.Monad.{◌>>=◌}
use fa.Prelude.Sorting.{sort_by}
use fa.Prelude.Text.{eq_text}
use fa.Cipher.{Digest, Source, md5_single}
use mathlib.Core.List.{Perm}

-- storage.UploadPart and routers.Part: the index of a part and its digest's text.
pub record Part : Type 0 where
  pub idx : ℕ
  pub etag : List ℕ

pub data UploadState : Type 0 where
  running done failed : UploadState

pub record Upload : Type 0 where
  pub token : List ℕ
  pub key : List ℕ
  pub size : ℕ
  pub chunk_size : ℕ
  pub md5 : List ℕ
  pub state : UploadState

pub data Error : Type 0 where
  upload_not_found invalid_md5 complete_part_failed part_corrupted io_error : Error

pub data Result (A : Type 0) : Type 0 where
  ok : A → Result A
  fail : Error → Result A

-- hex.DecodeString beside the digest, and that it reads back what hex.EncodeToString writes.
pub record Codec : Type 0 where
  pub digest : Digest
  pub decode : List ℕ → Option (List ℕ)
  pub decode-hex : (b : List ℕ) → decode (digest.hex b) ≡ some b

-- The uploads table with its parts.
pub record Database : Type 1 where
  pub Db : Type 0
  pub find_token : List ℕ → Db → Option Upload
  pub find_key : List ℕ → Db → Option Upload
  -- Preload("Parts"), in whatever order
  pub parts : List ℕ → Db → List Part
  -- the row of a token and an index is inserted, or updated
  pub upsert : List ℕ → Part → Db → Db
  pub save : Upload → Db → Db
  pub find_token-upsert :
      (t k : List ℕ) (p : Part) (s : Db) → find_token k (upsert t p s) ≡ find_token k s
  pub find_key-upsert :
      (t k : List ℕ) (p : Part) (s : Db) → find_key k (upsert t p s) ≡ find_key k s

-- A write of bytes at an offset: a gap before it is filled with zeros, and no bytes change nothing.
pub write_at : ℕ → List ℕ → List ℕ → List ℕ
write_at n [] file = file
write_at zero (b ∷ bs) file = b ∷ bs ++ drop (suc (length bs)) file
write_at (suc n) (b ∷ bs) [] = 0 ∷ write_at n (b ∷ bs) []
write_at (suc n) (b ∷ bs) (x ∷ file) = x ∷ write_at n (b ∷ bs) file

module _ (c : Codec) where
  open c use {decode}

  -- The bytes that the parts' digests say, one after the other.
  pub decode_all : List Part → Option (List ℕ)
  decode_all [] = some []
  decode_all (p ∷ ps) = decode p.etag >>= λ b. (decode_all ps >>= λ bs. some (b ++ bs))

  -- What the store expects, from the digest of the decoded bytes.
  pub expected : List ℕ → List Part → Option (List ℕ)
  expected e [] = none
  expected e (p ∷ []) = some p.etag
  expected e (p ∷ q ∷ ps) = some (c.digest.numbered e (length (p ∷ q ∷ ps)))

  -- What the router computes from the parts that the request names.
  pub client_md5 : List Part → Result (List ℕ)
  unfolding decode_all md5_single sort_by
  client_md5 ps = elim (decode_all (sort_by (λ p. p.idx) ps)) [
    | none ↦ fail part_corrupted
    | some b ↦
        let e = md5_single c.digest (record { bytes = b; broken = false }) in
        ok (if ltb 1 (length ps) then c.digest.numbered e (length ps) else e)
  ]

  module _ (database : Database) where
    open database use {Db, find_token, find_key, parts, upsert, save}

    -- StoreMgr.CompletePart. An unknown key has no parts.
    pub complete_part : Db → List ℕ → List ℕ → Result Db
    unfolding decode_all md5_single sort_by expected
    complete_part s key actual = elim (find_key key s) [
      | none ↦ fail complete_part_failed
      | some up ↦
          let ps = sort_by (λ p. p.idx) (parts up.token s) in
          elim (decode_all ps) [
            | none ↦ fail invalid_md5
            | some b ↦
                elim (expected (md5_single c.digest (record { bytes = b; broken = false })) ps) [
                  | none ↦ fail complete_part_failed
                  | some e ↦
                      if eq_text e actual
                      then ok (save (record up { md5 = e; state = done }) s)
                      else fail complete_part_failed
                ]
          ]
    ]

    -- The database, the temporary file of the upload and the file it is renamed to.
    pub record Store : Type 0 where
      pub db : Db
      pub tmp : Option (List ℕ)
      pub file : Option (List ℕ)

    pub file_of : Option (List ℕ) → List ℕ
    file_of none = []
    file_of (some b) = b

    -- StoreMgr.UploadPart
    pub record_part : Db → List ℕ → Part → Result Db
    record_part s key p = elim (find_key key s) [
      | none ↦ fail upload_not_found
      | some up ↦ ok (upsert up.token p s)
    ]

    -- The end of cloudStorage.uploadPart, with the body written at its offset.
    pub check_part : Store → Upload → Part → Source → Store × Result Part
    unfolding record_part
    check_part s up p body =
        if body.broken
        then (s, fail io_error)
        else if eq_text (c.digest.hex (c.digest.md5 body.bytes)) p.etag
        then elim (record_part s.db up.key p) [
          | fail e ↦ (s, fail e)
          | ok db ↦ (record s { db = db }, ok p)
        ]
        else (s, fail part_corrupted)

    -- cloudStorage.uploadPart: a chunk size and an index of 64 bits, and Seek takes a signed offset.
    pub upload_part : Store → List ℕ → Part → Source → Store × Result Part
    unfolding write_at file_of check_part
    upload_part s token p body = elim (find_token token s.db) [
      | none ↦ (s, fail upload_not_found)
      | some up ↦
          let offset = (up.chunk_size * p.idx) % 2 ^ 64 in
          let content = file_of s.tmp in
          if leb (2 ^ 63) offset
          then (record s { tmp = some content }, fail io_error)
          else check_part (record s { tmp = some (write_at offset body.bytes content) }) up p body
    ]

    -- os.Rename of the temporary file, if there is one.
    pub rename_tmp : Store → Store
    rename_tmp s = elim s.tmp [ none ↦ s | some b ↦ record s { tmp = none; file = some b } ]

    -- cloudStorage.completePart
    pub complete_multipart : Store → List ℕ → List Part → Store × Result (List ℕ)
    unfolding client_md5 complete_part rename_tmp
    complete_multipart s key ps = elim (find_key key s.db) [
      | none ↦ (s, fail upload_not_found)
      | some up ↦ elim (client_md5 ps) [
        | fail e ↦ (s, fail e)
        | ok e ↦ elim (complete_part s.db key e) [
          | fail x ↦ (s, fail x)
          | ok db ↦ (rename_tmp (record s { db = db }), ok e)
        ]
      ]
    ]
