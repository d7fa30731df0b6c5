-- ===== src/Upload/Examples.antt =====
-- A multipart upload of five bytes in chunks of two, on a database of one upload.
use mathlib.Core.List.{Permᴰ, Perm}
use fa.Prelude.{
  ℕ, suc, ◌+◌, ◌*◌, ◌<◌, ◌≡◌, ◌≢◌, refl, true, Option, none, some, List, [], ◌∷◌, ◌++◌, ◌==◌,
  if◌then◌else◌, arith,
}
use fa.Prelude.Text.{eq_text}
use fa.Cipher.{Digest, sum, spawn, md5_by_chunk}
use fa.Cipher.Sequential.{intact}
use fa.Upload.{
  Part, running, done, Upload, complete_part_failed, ok, fail, Codec, Database, Store, file_of,
  upload_part, rename_tmp, complete_multipart,
}
use fa.Upload.Completion.{sent, complete_multipart-etag, complete_multipart-single}
use fa.Upload.Assembly.{uploads, uploads-content, among}

abbrev total_of : List ℕ → ℕ
total_of [] = 0
total_of (x ∷ xs) = x + total_of xs

-- A digest that adds the bytes up, and one, and a text that begins with 7.
abbrev adding : Digest
adding = record {
  md5 = λ b. suc (total_of b) ∷ [];
  hex = λ b. 7 ∷ b;
  numbered = λ b n. b ++ (n ∷ []);
}

abbrev decode : List ℕ → Option (List ℕ)
decode [] = none
decode (x ∷ b) = some b

abbrev codec : Codec
codec = record { digest = adding; decode = decode; decode-hex = λ b. refl }

abbrev without : ℕ → List Part → List Part
without i [] = []
without i (p ∷ ps) = if p.idx == i then without i ps else p ∷ without i ps

abbrev find : List ℕ → List ℕ → Upload → Option Upload
find wanted found up = if eq_text wanted found then some up else none

abbrev single : Database
single = record {
  Db = Upload × List Part;
  find_token = λ t s. find t s.0.token s.0;
  find_key = λ k s. find k s.0.key s.0;
  parts = λ t s. s.1;
  upsert = λ t p s. (s.0, p ∷ without p.idx s.1);
  save = λ up s. (up, s.1);
  find_token-upsert = λ t k p s. refl;
  find_key-upsert = λ t k p s. refl;
}

abbrev upload : Upload
upload = record {
  token = 1 ∷ [];
  key = 2 ∷ [];
  size = 5;
  chunk_size = 2;
  md5 = [];
  state = running;
}

abbrev content : List ℕ
content = 1 ∷ 2 ∷ 3 ∷ 4 ∷ 5 ∷ []

abbrev part : ℕ → ℕ → Part
part i total = record { idx = i; etag = 7 ∷ total ∷ [] }

-- Nothing uploaded yet; the whole file uploaded; one part uploaded.
abbrev empty : Store codec single
empty = record { db = (upload, []); tmp = none; file = none }

abbrev full : Store codec single
full = record {
  db = (upload, part 2 6 ∷ part 0 4 ∷ part 1 8 ∷ []);
  tmp = some content;
  file = none;
}

abbrev lone : Store codec single
lone = record { db = (upload, part 0 4 ∷ []); tmp = some (1 ∷ 2 ∷ []); file = none }

abbrev order : List ℕ
order = 1 ∷ 0 ∷ 2 ∷ []

upload_run : uploads codec single upload content order empty ≡ some full
unfolding uploads upload_part
upload_run = refl

complete_run :
    complete_multipart codec single full (2 ∷ []) (part 0 4 ∷ part 1 8 ∷ part 2 6 ∷ []) ≡ (
      record {
        db = (record upload { md5 = 7 ∷ 19 ∷ 3 ∷ []; state = done }, full.db.1);
        tmp = none;
        file = some content;
      },
      ok (7 ∷ 19 ∷ 3 ∷ []),
    )
unfolding complete_multipart
complete_run = refl

arrived : Perm full.db.1 (sent adding 2 6 content)
unfolding spawn
arrived = ∣ Permᴰ.trans (Permᴰ.swap refl refl) (Permᴰ.cons refl (Permᴰ.swap refl refl)) ∣₁

differ : adding.hex (5 ∷ []) ≢ 7 ∷ 4 ∷ []
differ e = cc

other : adding.hex (adding.md5 (9 ∷ 9 ∷ [])) ≢ 7 ∷ 8 ∷ []
other e = cc

covered : (i : ℕ) → 2 * i < 5 → among i (1 ∷ 0 ∷ 2 ∷ []) ≡ true
covered i h = ground arith

complete_multipart-etag_example :
    (e : List ℕ) × (md5_by_chunk adding 6 (intact content) 5 2 ≡ sum e)
    × (complete_multipart codec single full (2 ∷ []) full.db.1 ≡ (
      rename_tmp codec single
          (record full { db = (record upload { md5 = e; state = done }, full.db.1) }),
      ok e,
    ))
complete_multipart-etag_example =
    complete_multipart-etag codec single full (2 ∷ []) upload content 2 6 full.db.1 (omega arith)
      (omega arith) (omega arith) refl arrived arrived

complete_multipart-single_example :
    complete_multipart codec single lone (2 ∷ []) (part 0 4 ∷ [])
    ≡ (lone, fail complete_part_failed)
complete_multipart-single_example =
    complete_multipart-single codec single lone (2 ∷ []) upload 0 (4 ∷ []) refl refl differ

uploads-content_example :
    (r : Store codec single) × (uploads codec single upload content (1 ∷ 0 ∷ 2 ∷ []) empty ≡ some r)
    × (file_of codec single r.tmp ≡ content)
uploads-content_example =
    uploads-content codec single upload content (1 ∷ 0 ∷ 2 ∷ []) empty (omega arith) (omega arith)
      (refl, refl) refl (omega arith, (omega arith, (omega arith, tt))) covered
