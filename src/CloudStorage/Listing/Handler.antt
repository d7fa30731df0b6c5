-- ===== src/CloudStorage/Listing/Handler.antt =====
-- web/routers/file.go: the handler listFile, its defaults and its reply.
use fa.Prelude.{Bool, not, ◌||◌, Option, some, List, [], ◌∷◌, if◌then◌else◌, ℕ}
use fa.Prelude.Monad.{◌>>=◌}
use fa.Prelude.Int.{ℤ, pos, eq_ℤ}
use fa.Prelude.Text.{Text, eq_text, trim_space}
use fa.Proc.{absent}
use fa.CloudStorage.{CloudStorage}
use fa.CloudStorage.Listing.{
  FileObject, Disk, Field, ListFileReq, ListResult, refused, listed_page, list_file, total_pages,
  star,
}

unfoldable pub with_defaults : ListFileReq → ListFileReq
with_defaults req = record req {
  pagable = record req.pagable {
    size = if eq_ℤ req.pagable.size (pos 0) then pos 10 else req.pagable.size;
  };
  pattern = if eq_text (trim_space req.pattern) [] then star else req.pattern;
  sort = if eq_text req.sort [] then b'n' ∷ b'a' ∷ b'm' ∷ b'e' ∷ [] else req.sort;
  asc = eq_text req.sort [] || req.asc;
}

pub data ListReply : Type 0 where
  list_error : ListReply
  list_res : (contents : List FileObject) → (page size : ℤ) → (total : ℕ) → (pages : ℤ) → ListReply

unfoldable pub reply_to : ListFileReq → (ignore_not_found : Bool) → ListResult → ListReply
unfolding total_pages
reply_to req ignore (refused absent) =
    if ignore then list_res [] req.pagable.page req.pagable.size 0 (pos 0) else list_error
reply_to req ignore (refused e) = list_error
reply_to req ignore (listed_page contents total) =
    list_res contents req.pagable.page req.pagable.size total (total_pages total req.pagable.size)

-- The `valid_sort` of the third argument is fsutils.ValidateSort.
unfoldable pub list_handler :
    Disk → (Text → Field) → (Text → Bool) → CloudStorage → ListFileReq → Bool → Option ListReply
unfolding with_defaults list_file reply_to
list_handler disk field_of valid_sort cs raw ignore =
    let req = with_defaults raw in
    if not (valid_sort req.sort)
    then some list_error
    else (do result ← list_file disk field_of cs req; some (reply_to req ignore result))
