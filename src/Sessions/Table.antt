-- ===== src/Sessions/Table.antt =====
-- internal/storage/upload.go: the rows of uploads and of parts, the files by their paths, and the scans
-- of both.
use fa.Prelude.{
  ℕ, Bool, true, false, not, ◌&&◌, ◌||◌, Option, none, some, List, [], ◌∷◌, ◌++◌, ◌==◌, filter,
  first, if◌then◌else◌,
}
use fa.Prelude.Int.{ℤ, pos, eq_ℤ, int64}
use fa.Prelude.Text.{Text, eq_text}
use fa.Upload.{Part, UploadState, running, done, failed}

pub record UploadRow : Type 0 where
  pub token : Text
  pub key : Text
  pub tmp_name : Text
  pub storage_id : ℤ
  pub size : ℕ
  pub chunk_size : ℕ
  pub state : UploadState
  pub created_at : ℤ

pub record PartRow : Type 0 where
  pub token : Text
  pub part : Part

-- A file by its path, and its size.
pub record Sessions : Type 0 where
  pub uploads : List UploadRow
  pub parts : List PartRow
  pub files : List (Text × ℕ)

pub data SessionError : Type 0 where
  part_up_corrupted upload_not_found no_condition : SessionError

-- filepath.Split
unfoldable pub has_slash : Text → Bool
has_slash [] = false
has_slash (c ∷ s) = (c == b'/') || has_slash s

unfoldable pub parent_of : Text → Text
unfolding has_slash
parent_of [] = []
parent_of (c ∷ s) = let rest = parent_of s in if has_slash (c ∷ s) then c ∷ rest else []

unfoldable pub file_of_key : Text → Text
unfolding has_slash
file_of_key [] = []
file_of_key (c ∷ s) = let rest = file_of_key s in if has_slash (c ∷ s) then rest else c ∷ s

-- "%s/.%s.upload"
unfoldable pub tmp_name_of : Text → Text
unfolding parent_of file_of_key
tmp_name_of key =
    parent_of key
    ++ (b'/' ∷ b'.' ∷ file_of_key key ++ (b'.' ∷ b'u' ∷ b'p' ∷ b'l' ∷ b'o' ∷ b'a' ∷ b'd' ∷ []))

unfoldable pub lstat_size : Text → List (Text × ℕ) → Option ℕ
lstat_size path [] = none
lstat_size path ((name, size) ∷ files) =
    let later = lstat_size path files in if eq_text name path then some size else later

-- os.Remove and os.RemoveAll of a file
unfoldable pub remove_file : Text → List (Text × ℕ) → List (Text × ℕ)
remove_file path [] = []
remove_file path ((name, size) ∷ files) =
    let rest = remove_file path files in if eq_text name path then rest else (name, size) ∷ rest

unfoldable pub find_key : Text → List UploadRow → Option UploadRow
unfolding first
find_key key rows = first (λ row. eq_text row.key key) rows

unfoldable pub find_token : Text → List UploadRow → Option UploadRow
unfolding first
find_token token rows = first (λ row. eq_text row.token token) rows

unfoldable pub is_running : UploadState → Bool
is_running running = true
is_running done = false
is_running failed = false

unfoldable pub is_done : UploadState → Bool
is_done done = true
is_done running = false
is_done failed = false

unfoldable pub size_differs : ℕ → Option ℕ → Bool
size_differs size none = true
size_differs size (some found) = not (eq_ℤ (pos found) (int64 (pos size)))

unfoldable pub is_missing : Option ℕ → Bool
is_missing none = true
is_missing (some size) = false

-- Why InitUpload refuses to resume an upload.
unfoldable pub is_corrupted : ℕ → ℕ → UploadRow → List (Text × ℕ) → Bool
unfolding is_running is_done size_differs is_missing lstat_size
is_corrupted size chunk_size up files =
    not ((up.chunk_size == chunk_size) && (up.size == size))
    || (is_missing (lstat_size up.tmp_name files) && is_running up.state)
    || (is_done up.state && size_differs up.size (lstat_size up.key files))

-- What InitUpload answers: the token, whether there was an upload, and the error.
pub record Init : Type 0 where
  pub token : Text
  pub existed : Bool
  pub error : Option SessionError

unfoldable pub resume_upload : ℕ → ℕ → UploadRow → Sessions → Sessions × Init
unfolding is_corrupted
resume_upload size chunk_size up s = (
  s,
  record {
    token = up.token;
    existed = true;
    error = if is_corrupted size chunk_size up s.files then some part_up_corrupted else none;
  },
)

unfoldable pub create_upload : Text → ℕ → ℕ → ℤ → Text → ℤ → Sessions → Sessions × Init
unfolding tmp_name_of
create_upload key size chunk_size storage_id token now s = (
  record s {
    uploads =
        s.uploads
        ++ (record {
          token = token;
          key = key;
          tmp_name = tmp_name_of key;
          storage_id = storage_id;
          size = size;
          chunk_size = chunk_size;
          state = running;
          created_at = now;
        }
            ∷ []);
  },
  record { token = token; existed = false; error = none },
)

unfoldable pub init_found :
    Option UploadRow → Text → ℕ → ℕ → ℤ → Text → ℤ → Sessions → Sessions × Init
unfolding resume_upload create_upload
init_found (some up) key size chunk_size storage_id token now s = resume_upload size chunk_size up s
init_found none key size chunk_size storage_id token now s =
    create_upload key size chunk_size storage_id token now s

-- InitUpload: `token` is what GenerateID gives.
unfoldable pub init_upload : Text → ℕ → ℕ → ℤ → Text → ℤ → Sessions → Sessions × Init
unfolding find_key init_found
init_upload key size chunk_size storage_id token now s =
    init_found (find_key key s.uploads) key size chunk_size storage_id token now s

unfoldable pub load_parts : Text → Sessions → List PartRow
unfolding filter
load_parts token s = filter (λ row. eq_text row.token token) s.parts

unfoldable pub drop_parts : Text → List PartRow → List PartRow
unfolding filter
drop_parts token parts = filter (λ row. not (eq_text row.token token)) parts

unfoldable pub drop_upload : Text → List UploadRow → List UploadRow
unfolding filter
drop_upload token rows = filter (λ row. not (eq_text row.token token)) rows
