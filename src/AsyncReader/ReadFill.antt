-- ===== src/AsyncReader/ReadFill.antt =====
-- pkg/asyncreader/asyncreader.go: ReadFill fills its buffer or meets an error.
use fa.Prelude.{
  ℕ, zero, suc, ◌-◌, ◌≤◌, ◌<◌, ◌≡◌, ◌⊎◌, inl, inr, true, none, some, [], ◌++◌, length,
  length-append, arith, Bool-cases, ◌==◌,
}
use fa.AsyncReader.{is_some, Reply, read_fill}

-- What io.Reader documents: at most as many bytes as there is room for; and, for a slice that is not
-- empty, a byte or an error (a call that answers neither is discouraged).
pub record IsReader {S : Type 0} (rd : S → ℕ → Reply S) : Type 0 where
  pub fits : (s : S) (room : ℕ) → length (rd s room).bytes ≤ room
  pub goes_on :
      (s : S) (room : ℕ)
      → 0 < room
      → (is_some (rd s room).failed ≡ true) ⊎ (0 < length (rd s room).bytes)

-- The reply fills the room or carries an error.
pub record Fills {S : Type 0} (room : ℕ) (r : Reply S) : Type 0 where
  pub fits : length r.bytes ≤ room
  pub full : (is_some r.failed ≡ true) ⊎ (length r.bytes ≡ room)

module _ {S : Type 0} (rd : S → ℕ → Reply S) where
  -- Of a reader that keeps to its contract ReadFill returns, after at most one round for each byte
  -- of room and one more; what it has read fits, and fills the room unless there was an error.
  pub read_fill-Fills :
      (fuel : ℕ) (s : S) (room : ℕ)
      → IsReader rd
      → room < fuel
      → (r : Reply S) × (read_fill rd fuel s room ≡ some r) × Fills room r
  unfolding read_fill
  read_fill-Fills zero s room v h = absurd (omega arith)
  read_fill-Fills (suc fuel) s room v h = elim (Bool-cases (room == 0)) [
    | inl done ↦ (
      record { bytes = []; failed = none; next = s },
      rw done,
      record { fits = omega arith; full = inr (ground arith) },
    )
    | inr more ↦ elim (Bool-cases (is_some (rd s room).failed)) [
      | inl bad ↦ (rd s room, rw (more, bad), record { fits = v.fits s room; full = inl bad })
      | inr good ↦
          let advance : 0 < length (rd s room).bytes = ground (arith, v.goes_on s room) in
          let (r, runs, filled) =
            read_fill-Fills fuel (rd s room).next (room - length (rd s room).bytes) v
              (omega (arith, v.fits s room)) in
          (
            record r { bytes = (rd s room).bytes ++ r.bytes },
            rw (more, good, runs),
            record {
              fits =
                  omega
                    (arith, filled.fits, v.fits s room, length-append (rd s room).bytes r.bytes);
              full =
                  ground
                    (arith, filled.full, v.fits s room, length-append (rd s room).bytes r.bytes);
            },
          )
    ]
  ]
