-- ===== src/Sessions.antt =====
-- internal/storage/upload.go and initMultipartUpload of web/routers/uploader.go: the table of uploads
-- with the parts recorded for them, and the files that they name. The queries are lists' scans; the
-- database does not fail. New tokens, the time, and which files exist with what size are arguments
-- or state.
mod Table
pub mod Opened
pub mod Orphans
pub mod Deletion
mod Examples
use fa.Prelude.{
  ℕ, ◌*◌, ◌%◌, ◌^◌, Bool, true, false, not, ◌&&◌, ◌||◌, Option, none, some, List, [], ◌∷◌, ◌++◌,
  map, ◌==◌, filter, first, if◌then◌else◌,
}
use fa.Prelude.Int.{ℤ, pos, ◌-ℤ◌, eq_ℤ, ltb_ℤ, int64}
use fa.Prelude.Text.{Text, eq_text, has_prefix}
use fa.Upload.{Part, UploadState, running, done, failed}
unfoldable pub use Table.*

-- DestroyUploadByToken: without an upload the deletion has no condition, and is refused.
unfoldable pub destroy_found : Option UploadRow → Text → Sessions → Sessions × Option SessionError
unfolding drop_parts drop_upload remove_file
destroy_found none token s = (record s { parts = drop_parts token s.parts }, some no_condition)
destroy_found (some up) token s = (
  record s {
    uploads = drop_upload token s.uploads;
    parts = drop_parts token s.parts;
    files = remove_file up.tmp_name s.files;
  },
  none,
)

unfoldable pub destroy_upload_by_token : Text → Sessions → Sessions × Option SessionError
unfolding find_token destroy_found
destroy_upload_by_token token s = destroy_found (find_token token s.uploads) token s

unfoldable pub destroy_rows : List UploadRow → Sessions → Sessions
unfolding drop_parts drop_upload
destroy_rows [] s = s
destroy_rows (up ∷ ups) s =
    destroy_rows ups
      (record s { uploads = drop_upload up.token s.uploads; parts = drop_parts up.token s.parts })

-- DestroyUploadByKey, with the database's LIKE of a key and a pattern's text before the %.
unfoldable pub destroy_upload_by_key : (Text → Text → Bool) → Text → Sessions → Sessions × List Text
unfolding destroy_rows filter
destroy_upload_by_key like key s =
    let found = filter (λ row. like row.key key) s.uploads in
    (destroy_rows found s, map (λ row. row.tmp_name) found)

unfoldable pub remove_files : List Text → List (Text × ℕ) → List (Text × ℕ)
unfolding remove_file
remove_files [] files = files
remove_files (path ∷ paths) files = remove_files paths (remove_file path files)

-- doCleanUpload of deleteFile in web/routers/file.go
unfoldable pub do_clean_upload : (Text → Text → Bool) → Text → Sessions → Sessions
unfolding destroy_upload_by_key remove_files
do_clean_upload like path s =
    let (v, tmp_files) = destroy_upload_by_key like path s in
    record v { files = remove_files tmp_files v.files }

unfoldable pub clean : Sessions → Sessions
unfolding destroy_rows is_done filter
clean s = destroy_rows (filter (λ row. is_done row.state) s.uploads) s

-- ScavengeUpload: 24 hours, in seconds.
abbrev pub one_day : ℤ
one_day = pos 86400

unfoldable pub scavenge_upload : ℤ → Sessions → Sessions
unfolding destroy_rows remove_files filter
scavenge_upload now s =
    let found = filter (λ row. ltb_ℤ row.created_at (now -ℤ one_day)) s.uploads in
    let v = destroy_rows found s in
    record v { files = remove_files (map (λ row. row.tmp_name) found) v.files }

pub record InitResponse : Type 0 where
  pub code : ℤ
  pub token : Text
  pub parts : List Part

-- initMultipartUpload with an upload that is there: it is resumed, or destroyed and begun anew, where
-- `again` is the next token of GenerateID.
unfoldable pub answer_existed :
    Option SessionError → Text → ℕ → ℕ → ℤ → Text → Text → ℤ → Sessions → Sessions × InitResponse
unfolding init_upload destroy_upload_by_token load_parts remove_file
answer_existed none key size chunk_size storage_id token again now s = (
  s,
  record { code = pos 2002; token = token; parts = map (λ row. row.part) (load_parts token s) },
)
answer_existed (some e) key size chunk_size storage_id token again now s =
    let destroyed = (destroy_upload_by_token token s).0 in
    let v = record destroyed { files = remove_file key destroyed.files } in
    let r = init_upload key size chunk_size storage_id again now v in
    (r.0, record { code = pos 2003; token = r.1.token; parts = [] })

unfoldable pub answer_init : Text → ℕ → ℕ → ℤ → Text → ℤ → Sessions × Init → Sessions × InitResponse
unfolding answer_existed
answer_init key size chunk_size storage_id again now r =
    if r.1.existed
    then answer_existed r.1.error key size chunk_size storage_id r.1.token again now r.0
    else (r.0, record { code = pos 2001; token = r.1.token; parts = [] })

-- The chunk size of the request is in megabytes.
unfoldable pub init_multipart_upload :
    Text → ℕ → ℕ → ℤ → Text → Text → ℤ → Sessions → Sessions × InitResponse
unfolding init_upload answer_init
init_multipart_upload key size chunk_size storage_id token again now s =
    let bytes = chunk_size * 1048576 % 2 ^ 64 in
    answer_init key size bytes storage_id again now
      (init_upload key size bytes storage_id token now s)

-- UploadPart: the row of the index and the token is inserted, or updated.
unfoldable pub upsert_part : Text → Part → List PartRow → List PartRow
upsert_part token part [] = record { token = token; part = part } ∷ []
upsert_part token part (row ∷ rows) =
    let later = row ∷ upsert_part token part rows in
    if eq_text row.token token && (row.part.idx == part.idx)
    then record row { part = part } ∷ rows
    else later

unfoldable pub record_found : Option UploadRow → Part → Sessions → Sessions × Option SessionError
unfolding upsert_part
record_found none part s = (s, some upload_not_found)
record_found (some up) part s = (record s { parts = upsert_part up.token part s.parts }, none)

unfoldable pub upload_part_row : Text → Part → Sessions → Sessions × Option SessionError
unfolding find_key record_found
upload_part_row key part s = record_found (find_key key s.uploads) part s

-- The calls of the store that change the table, in any order.
pub data Operation : Type 0 where
  inits : Text → ℕ → ℕ → ℤ → Text → ℤ → Operation
  uploads_part : Text → Part → Operation
  destroys_by_token destroys_by_key : Text → Operation
  cleans : Operation
  scavenges : ℤ → Operation

unfoldable pub apply : (Text → Text → Bool) → Operation → Sessions → Sessions
unfolding init_upload upload_part_row destroy_upload_by_token do_clean_upload clean scavenge_upload
apply like (inits key size chunk_size storage_id token now) s =
    (init_upload key size chunk_size storage_id token now s).0
apply like (uploads_part key part) s = (upload_part_row key part s).0
apply like (destroys_by_token token) s = (destroy_upload_by_token token s).0
apply like (destroys_by_key key) s = do_clean_upload like key s
apply like cleans s = clean s
apply like (scavenges now) s = scavenge_upload now s

unfoldable pub apply_all : (Text → Text → Bool) → List Operation → Sessions → Sessions
unfolding apply
apply_all like [] s = s
apply_all like (o ∷ os) s = apply_all like os (apply like o s)
