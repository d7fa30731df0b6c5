-- ===== src/Upload/Assembly.antt =====
-- web/routers/uploader.go: the chunks of a file, uploaded in any order, make up the file.
use Prim.Native.Nat.{min}
use mathlib.Core.Path.{subst}
use native.Mathlib.Nat.{mod-eq_of_lt, lt-div-mul-add, div-mul-le_self}
use native.Mathlib.Decide.{dec_lt}
use fa.Prelude.{
  ℕ, ◌+◌, ◌-◌, ◌*◌, ◌/◌, ◌%◌, ◌^◌, ◌≤◌, ◌<◌, ◌≡◌, refl, sym, ap, ◌∙◌, ◌⊎◌, inl, inr, Bool, true,
  false, ◌||◌, ◌==◌, Option, none, some, List, [], ◌∷◌, length, get_elem?, get_elem?-beyond,
  get_elem?-within, length-take, length-drop, drop, take, All, leb, arith,
}
use fa.Prelude.Monad.{◌>>=◌}
use fa.Upload.{
  write_at, Upload, Part, Result, ok, fail, Codec, Database, Store, file_of, upload_part,
  check_part, record_part,
}
use fa.Upload.Writes.{
  same_list, get_elem?-drop, get_elem?-take, write_at-before, write_at-inside, write_at-after,
  length-write_at,
}
use fa.Cipher.Sequential.{intact}
use fa.Prelude.Text.{eq_text_refl}

abbrev pub among : ℕ → List ℕ → Bool
among i [] = false
among i (j ∷ is) = (i == j) || among i is

module _ (c : ℕ) (content : List ℕ) where
  abbrev pub piece : ℕ → List ℕ
  piece i = take c (drop (c * i) content)

  -- The file agrees with the content at the places of the chunks `done`.
  abbrev Matches : List ℕ → List ℕ → Type 0
  Matches done file =
      (length file ≤ length content)
      × ((q : ℕ)
          → q < length content
          → among (q / c) done ≡ true
          → get_elem? file q ≡ get_elem? content q)

  length-piece : (i : ℕ) → length (piece i) ≡ min c (length content - c * i)
  length-piece i = length-take c (drop (c * i) content) ∙ ap (min c) (length-drop (c * i) content)

  get_elem?-piece : (i q : ℕ) → q < c → get_elem? (piece i) q ≡ get_elem? content (c * i + q)
  get_elem?-piece i q h =
      get_elem?-take c q (drop (c * i) content) h ∙ get_elem?-drop (c * i) q content

  -- A place of the file that agrees with the content is inside the file.
  inside :
      (file : List ℕ) (q : ℕ)
      → q < length content
      → get_elem? file q ≡ get_elem? content q
      → q < length file
  inside file q h e = elim (dec_lt q (length file)) [
    | yes k ↦ k
    | no k ↦
        let (v, found) = get_elem?-within content q h in
        let gone = get_elem?-beyond file q (omega arith) in absurd cc
  ]

  other_chunk :
      (i q : ℕ) (done : List ℕ)
      → 0 < c
      → q < length content
      → (q < c * i) ⊎ (c * i + length (piece i) ≤ q)
      → among (q / c) (i ∷ done) ≡ true
      → among (q / c) done ≡ true
  other_chunk i q done p h apart a =
      ground (arith, div-mul-le_self q c, lt-div-mul-add {a = q} p, length-piece i)

  write-Matches :
      (i : ℕ) (done file : List ℕ)
      → 0 < c
      → c * i < length content
      → Matches done file
      → Matches (i ∷ done) (write_at (c * i) (piece i) file)
  write-Matches i done file p h (l, m) = (
    length-write_at (c * i) (length content) (piece i) file l (omega (arith, length-piece i)),
    λ q k a. elim (dec_lt q (c * i)) [
      | yes low ↦
          let same = m q k (other_chunk i q done p k (inl low) a) in
          write_at-before (c * i) q (piece i) file low (inside file q k same) ∙ same
      | no up ↦ elim (dec_lt q (c * i + length (piece i))) [
        | yes mid ↦
            let at : c * i + (q - c * i) ≡ q = omega arith in
            subst (λ k. get_elem? (write_at (c * i) (piece i) file) k ≡ get_elem? content k) at
              (write_at-inside (c * i) (q - c * i) (piece i) file (omega arith)
                ∙ get_elem?-piece i (q - c * i) (omega (arith, length-piece i)))
        | no high ↦
            write_at-after (c * i) q (piece i) file (omega arith)
            ∙ m q k (other_chunk i q done p k (inr (omega arith)) a)
      ]
    ],
  )

  pub all-Matches :
      (done file : List ℕ)
      → 0 < c
      → Matches done file
      → ((i : ℕ) → c * i < length content → among i done ≡ true)
      → file ≡ content
  all-Matches done file p (l, m) covers = same_list file content places
    where
      places : (q : ℕ) → get_elem? file q ≡ get_elem? content q
      places q = elim (dec_lt q (length content)) [
        | yes k ↦ m q k (covers (q / c) (omega (arith, div-mul-le_self q c)))
        | no k ↦
            get_elem?-beyond file q (omega arith) ∙ sym (get_elem?-beyond content q (omega arith))
      ]

module _ (c : Codec) (database : Database) (up : Upload) (content : List ℕ) where
  -- The part of chunk `i`, as a client that reads the file names it.
  abbrev pub part_at : ℕ → Part
  part_at i = record { idx = i; etag = c.digest.hex (c.digest.md5 (piece up.chunk_size content i)) }

  if_accepted : Store c database × Result Part → Option (Store c database)
  if_accepted (r, ok p) = some r
  if_accepted (r, fail e) = none

  -- The chunks uploaded one after the other; `none` as soon as one is refused.
  unfoldable pub uploads : List ℕ → Store c database → Option (Store c database)
  unfolding if_accepted
  uploads [] s = some s
  uploads (i ∷ is) s =
      if_accepted
        (upload_part c database s up.token (part_at i) (intact (piece up.chunk_size content i)))
      >>= uploads is

  -- The upload is in the database, by its token and by its key.
  abbrev pub IsKnown : Store c database → Type 0
  IsKnown s =
      (database.find_token up.token s.db ≡ some up) × (database.find_key up.key s.db ≡ some up)

  accepted : ℕ → Store c database → Store c database
  accepted i s = record s {
    db = database.upsert up.token (part_at i) s.db;
    tmp =
        some
          (write_at (up.chunk_size * i) (piece up.chunk_size content i) (file_of c database s.tmp));
  }

  upload_part-accepted :
      (s : Store c database) (i : ℕ)
      → IsKnown s
      → up.chunk_size * i < 2 ^ 63
      → upload_part c database s up.token (part_at i) (intact (piece up.chunk_size content i))
        ≡ (accepted i s, ok (part_at i))
  unfolding upload_part check_part record_part accepted
  upload_part-accepted s i (by_token, by_key) h =
      let offset : (up.chunk_size * i) % 2 ^ 64 ≡ up.chunk_size * i = mod-eq_of_lt (omega arith) in
      let low : leb (2 ^ 63) (up.chunk_size * i) ≡ false = ground arith in
      rw (
        upload_part,
        by_token,
        offset,
        low,
        check_part,
        eq_text_refl (part_at i).etag,
        record_part,
        by_key,
        offset,
      )

  accepted-IsKnown : (s : Store c database) (i : ℕ) → IsKnown s → IsKnown (accepted i s)
  unfolding accepted
  accepted-IsKnown s i (by_token, by_key) = (
    database.find_token-upsert up.token up.token (part_at i) s.db ∙ by_token,
    database.find_key-upsert up.token up.key (part_at i) s.db ∙ by_key,
  )

  -- What the uploads of the chunks `is` leave, after those of the chunks `done`.
  abbrev Leaves : List ℕ → List ℕ → Store c database → Type 0
  Leaves is done s =
      (r : Store c database) × (uploads is s ≡ some r)
      × (all : List ℕ) × Matches up.chunk_size content all (file_of c database r.tmp)
      × ((i : ℕ) → (among i is || among i done) ≡ true → among i all ≡ true)

  uploads-Leaves :
      (is done : List ℕ) (s : Store c database)
      → 0 < up.chunk_size
      → length content < 2 ^ 63
      → IsKnown s
      → All (λ i. up.chunk_size * i < length content) is
      → Matches up.chunk_size content done (file_of c database s.tmp)
      → Leaves is done s
  unfolding uploads accepted file_of
  uploads-Leaves [] done s p small known h m = (s, refl, done, m, λ i a. a)
  uploads-Leaves (i ∷ is) done s p small known h m =
      let (r, runs, all, match, covers) =
        uploads-Leaves is (i ∷ done) (accepted i s) p small (accepted-IsKnown s i known) h.1
          (write-Matches up.chunk_size content i done (file_of c database s.tmp) p h.0 m) in
      (
        r,
        rw (uploads, upload_part-accepted s i known (omega (arith, h.0))) runs,
        all,
        match,
        λ j a. covers j (ground (arith, a)),
      )

-- When the chunks of a file are uploaded to a new upload, in any order and some of them more than
-- once, every part is accepted, and when none is left out the temporary file is the file, which has
-- fewer than 2 ^ 63 bytes.
pub uploads-content :
    (c : Codec) (database : Database) (up : Upload) (content is : List ℕ) (s : Store c database)
    → 0 < up.chunk_size
    → length content < 2 ^ 63
    → IsKnown c database up content s
    → s.tmp ≡ none
    → All (λ i. up.chunk_size * i < length content) is
    → ((i : ℕ) → up.chunk_size * i < length content → among i is ≡ true)
    → (r : Store c database) × (uploads c database up content is s ≡ some r)
      × (file_of c database r.tmp ≡ content)
unfolding file_of
uploads-content c database up content is s p small known fresh h covers =
    let (r, runs, all, match, kept) =
      uploads-Leaves c database up content is [] s p small known h
        (rw (file_of, fresh) (omega arith, λ q k a. cc)) in
    (
      r,
      runs,
      all-Matches up.chunk_size content all (file_of c database r.tmp) p match
          (λ i k. kept i (ground (arith, covers i k))),
    )
