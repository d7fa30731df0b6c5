-- ===== src/Sessions/Examples.antt =====
-- internal/storage/upload.go: uploads in one directory, and beside it.
use fa.Prelude.{◌≡◌, refl, ◌*◌, ◌%◌, ◌^◌, true, false, some, List, [], ◌∷◌, All}
use fa.Prelude.Int.{pos, ◌-ℤ◌}
use fa.Prelude.Text.{Text, has_prefix}
use fa.Upload.{Part, running}
use fa.Sessions.{
  UploadRow, Sessions, find_key, tmp_name_of, init_multipart_upload, do_clean_upload, clean,
  scavenge_upload, inits, uploads_part, destroys_by_token, destroys_by_key, cleans, scavenges,
  Operation, apply_all,
}
use fa.Sessions.Opened.{init_multipart_upload-IsOpen}
use fa.Sessions.Orphans.{is_known, apply_all-NoOrphans}
use fa.Sessions.Deletion.{do_clean_upload-prefix}

-- /a/x and /ab
abbrev inner : Text
inner = b'/' ∷ b'a' ∷ b'/' ∷ b'x' ∷ []

abbrev beside : Text
beside = b'/' ∷ b'a' ∷ b'b' ∷ []

abbrev piece : Part
piece = record { idx = 0; etag = b'0' ∷ [] }

-- The upload of a key, with its token and the name of its file.
abbrev row_of : Text → Text → Text → UploadRow
row_of token key tmp_name = record {
  token = token;
  key = key;
  tmp_name = tmp_name;
  storage_id = pos 1;
  size = 5;
  chunk_size = 1048576;
  state = running;
  created_at = pos 0;
}

abbrev inner_row : UploadRow
inner_row = row_of (b'1' ∷ []) inner (b't' ∷ [])

abbrev beside_row : UploadRow
beside_row = row_of (b'2' ∷ []) beside (b'u' ∷ [])

abbrev two : Sessions
two = record {
  uploads = inner_row ∷ beside_row ∷ [];
  parts = record { token = b'2' ∷ []; part = piece } ∷ [];
  files = (b't' ∷ [], 5) ∷ (b'u' ∷ [], 5) ∷ [];
}

tmp_name_beside :
    tmp_name_of beside
    ≡ b'/' ∷ b'/' ∷ b'.' ∷ b'a' ∷ b'b' ∷ b'.' ∷ b'u' ∷ b'p' ∷ b'l' ∷ b'o' ∷ b'a' ∷ b'd' ∷ []
unfolding tmp_name_of
tmp_name_beside = refl

-- Deleting the directory /a destroys the running upload of /ab, with its parts and its file.
siblings_lost :
    do_clean_upload has_prefix (b'/' ∷ b'a' ∷ []) two
    ≡ record { uploads = []; parts = []; files = [] }
unfolding do_clean_upload
siblings_lost = refl

all_kept : clean two ≡ two
unfolding clean
all_kept = refl

day_old : scavenge_upload (pos 86401) two ≡ record { uploads = []; parts = []; files = [] }
unfolding scavenge_upload ◌-ℤ◌
day_old = refl

-- The chunk size has changed, and the upload is begun anew.
init_multipart_upload-IsOpen_example :
    (up : UploadRow) × (find_key inner
        (init_multipart_upload inner 5 2 (pos 1) (b'3' ∷ []) (b'4' ∷ []) (pos 9) two).0.uploads
      ≡ some up)
    × (up.token
        ≡ (init_multipart_upload inner 5 2 (pos 1) (b'3' ∷ []) (b'4' ∷ []) (pos 9) two).1.token)
    × (up.size ≡ 5)
    × (up.chunk_size ≡ 2 * 1048576 % 2 ^ 64)
unfolding find_key
init_multipart_upload-IsOpen_example =
    init_multipart_upload-IsOpen inner 5 2 (pos 1) (b'3' ∷ []) (b'4' ∷ []) (pos 9) two
      (refl, (refl, tt))

anew :
    (init_multipart_upload inner 5 2 (pos 1) (b'3' ∷ []) (b'4' ∷ []) (pos 9) two).1.code ≡ pos 2003
unfolding init_multipart_upload
anew = refl

resumed_code :
    (init_multipart_upload beside 5 1 (pos 1) (b'3' ∷ []) (b'4' ∷ []) (pos 9) two).1
    ≡ record { code = pos 2002; token = b'2' ∷ []; parts = piece ∷ [] }
unfolding init_multipart_upload
resumed_code = refl

abbrev busy : List Operation
busy =
    inits (b'/' ∷ b'c' ∷ []) 5 1048576 (pos 1) (b'5' ∷ []) (pos 3)
    ∷ uploads_part (b'/' ∷ b'c' ∷ []) piece
    ∷ destroys_by_token (b'2' ∷ [])
    ∷ destroys_by_key (b'/' ∷ b'a' ∷ [])
    ∷ cleans
    ∷ scavenges (pos 4)
    ∷ []

apply_all-NoOrphans_example :
    All
      (λ p. is_known p.token (apply_all has_prefix busy two).uploads ≡ true)
      (apply_all has_prefix busy two).parts
unfolding is_known
apply_all-NoOrphans_example = apply_all-NoOrphans has_prefix busy two (refl, tt)

do_clean_upload-prefix_example :
    All
      (λ row. has_prefix row.key (b'/' ∷ b'a' ∷ []) ≡ false)
      (do_clean_upload has_prefix (b'/' ∷ b'a' ∷ []) two).uploads
do_clean_upload-prefix_example =
    do_clean_upload-prefix has_prefix (b'/' ∷ b'a' ∷ []) two (λ t p h. h)
