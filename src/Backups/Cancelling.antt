-- ===== src/Backups/Cancelling.antt =====
-- internal/backup/default_provider.go: what is left after the cancellations.
use fa.Prelude.{
  filter, first, ◌≡◌, refl, ◌∙◌, Bool, true, false, not, ◌&&◌, ◌||◌, Option, none, some, List, [],
  ◌∷◌, All, if◌then◌else◌, arith,
}
use fa.Prelude.Int.{ℤ, eq_ℤ}
use fa.Prelude.Text.{Text}
use fa.Backups.Store.{
  BackupState, state_running, eq_state, BackupItem, RestoreItem, where_id, update_where,
  load_backup, load_restore,
}
use fa.Backups.{
  ProviderError, World, deregister, cancel_found, cancel_backup, cancel_restore, unless_failed,
  cancel_backup_loop, cancel_restore_loop, mark_each,
}

eq_ℤ_refl : (a : ℤ) → eq_ℤ a a ≡ true
eq_ℤ_refl a = ground arith

where_id-false : (id key : ℤ) → where_id id key ≡ false → eq_ℤ key id ≡ false
unfolding where_id
where_id-false id key h = ground arith

-- Rows with an identifier and a state, and an update that ends the running state.
module _ {A : Type 0} (key : A → ℤ) (state : A → BackupState) (f : A → A)
    (ends : (row : A) → eq_state (state (f row)) state_running ≡ false) where
  unfoldable pub covered : ℤ → List A → Bool
  covered id [] = false
  covered id (item ∷ items) = eq_ℤ id (key item) || covered id items

  -- A row that runs has its identifier among the items.
  abbrev pub Settled : List A → A → Type 0
  Settled items row = (eq_state (state row) state_running && not (covered (key row) items)) ≡ false

  Settled-test :
      (item : A) (items : List A) (row : A) (b : Bool)
      → (b ≡ false → eq_ℤ (key row) (key item) ≡ false)
      → Settled (item ∷ items) row
      → Settled items (if b then f row else row)
  unfolding covered
  Settled-test item items row true other h = rw (ends row) refl
  Settled-test item items row false other h = ground (arith, h, other refl)

  Settled-update_where :
      (item : A) (items rows : List A)
      → All (Settled (item ∷ items)) rows
      → All (Settled items) (update_where key (key item) f rows)
  unfolding update_where where_id covered
  Settled-update_where item items [] h = tt
  Settled-update_where item items (row ∷ rows) h = (
    Settled-test item items row (where_id (key item) (key row))
        (where_id-false (key item) (key row)) h.0,
    Settled-update_where item items rows h.1,
  )

  pub Settled-mark_each :
      (items rows : List A)
      → All (Settled items) rows
      → All (Settled []) (mark_each (λ id. update_where key id f) key items rows)
  unfolding mark_each
  Settled-mark_each [] rows h = h
  Settled-mark_each (item ∷ items) rows h =
      Settled-mark_each items (update_where key (key item) f rows)
        (Settled-update_where item items rows h)

  Settled-cons :
      (item : A) (items rows : List A)
      → All (Settled items) rows
      → All (Settled (item ∷ items)) rows
  unfolding covered
  Settled-cons item items [] h = tt
  Settled-cons item items (row ∷ rows) h = (ground (arith, h.0), Settled-cons item items rows h.1)

  unfoldable pub running : List A → List A
  running = filter (λ row. eq_state (state row) state_running)

  running-test :
      (row : A) (rows : List A) (b : Bool)
      → eq_state (state row) state_running ≡ b
      → (rest : List A) → All (Settled rest) rows
      → Settled (if b then row ∷ rest else rest) row
        × All (Settled (if b then row ∷ rest else rest)) rows
  unfolding covered
  running-test row rows true is rest h =
      (ground (arith, eq_ℤ_refl (key row)), Settled-cons row rest rows h)
  running-test row rows false is rest h = (rw is refl, h)

  pub Settled-running : (rows : List A) → All (Settled (running rows)) rows
  unfolding running filter covered
  Settled-running [] = tt
  Settled-running (row ∷ rows) =
      running-test row rows (eq_state (state row) state_running) refl (running rows)
        (Settled-running rows)

  pub running-Settled : (rows : List A) → All (Settled []) rows → running rows ≡ []
  unfolding running filter covered
  running-Settled [] h = refl
  running-Settled (row ∷ rows) h = ground (arith, h.0, running-Settled rows h.1)

  -- A row that runs is found by its identifier.
  abbrev pub Found : List A → A → Type 0
  Found rows item = (row : A) × (first (λ row. where_id (key item) (key row)) rows ≡ some row)

  Found-test :
      (row : A) (b : Bool) (later : Option A)
      → (found : A) × (later ≡ some found)
      → (found : A) × ((if b then some row else later) ≡ some found)
  Found-test row true later h = (row, refl)
  Found-test row false later h = h

  Found-cons :
      (row : A) (rows items : List A) → All (Found rows) items → All (Found (row ∷ rows)) items
  unfolding first
  Found-cons row rows [] h = tt
  Found-cons row rows (item ∷ items) h =
      (Found-test row (where_id (key item) (key row)) _ h.0, Found-cons row rows items h.1)

  Found-self : (row : A) (rows : List A) → Found (row ∷ rows) row
  unfolding first where_id
  Found-self row rows = (row, rw (eq_ℤ_refl (key row)) (ground arith))

  Found-either :
      (row : A) (rows : List A) (b : Bool)
      → All (Found rows) (running rows)
      → All (Found (row ∷ rows)) (if b then row ∷ running rows else running rows)
  Found-either row rows true h = (Found-self row rows, Found-cons row rows (running rows) h)
  Found-either row rows false h = Found-cons row rows (running rows) h

  pub Found-running : (rows : List A) → All (Found rows) (running rows)
  unfolding running filter
  Found-running [] = tt
  Found-running (row ∷ rows) =
      Found-either row rows (eq_state (state row) state_running) (Found-running rows)

pub unless_failed-none :
    (r : World × Option ProviderError) (f : World → World × Option ProviderError)
    → r.1 ≡ none
    → unless_failed r f ≡ f r.0
unfolding unless_failed
unless_failed-none (w, none) f h = refl
unless_failed-none (w, some e) f h = cc

-- A step of the first loop succeeds, and changes nothing but the jobs.
abbrev pub Unchanged : World → World × Option ProviderError → Type 0
Unchanged w r = (r.1 ≡ none) × (r.0.backups ≡ w.backups) × (r.0.restores ≡ w.restores)

cancel_found-Unchanged :
    {A : Type 0} (o : Option A) (found : A) (k : Text) (w : World)
    → o ≡ some found
    → Unchanged w (cancel_found o k w)
unfolding cancel_found deregister
cancel_found-Unchanged none found k w h = cc
cancel_found-Unchanged (some item) found k w h = (refl, refl, refl)

pub cancel_backup_loop-Unchanged :
    (items : List BackupItem) (w : World)
    → All (λ item. (row : BackupItem) × (load_backup item.backup_id w.backups ≡ some row)) items
    → Unchanged w (cancel_backup_loop items w)
unfolding cancel_backup_loop cancel_backup
cancel_backup_loop-Unchanged [] w h = (refl, refl, refl)
cancel_backup_loop-Unchanged (item ∷ items) w h =
    let r = cancel_backup item.backup_id w in
    let (ok, same, other) =
      cancel_found-Unchanged (load_backup item.backup_id w.backups) h.0.0 _ w h.0.1 in
    let (ok1, same1, other1) = cancel_backup_loop-Unchanged items r.0 (rw same h.1) in
    rw (unless_failed-none r (cancel_backup_loop items) ok) (ok1, same1 ∙ same, other1 ∙ other)

pub cancel_restore_loop-Unchanged :
    (items : List RestoreItem) (w : World)
    → All (λ item. (row : RestoreItem) × (load_restore item.restore_id w.restores ≡ some row)) items
    → Unchanged w (cancel_restore_loop items w)
unfolding cancel_restore_loop cancel_restore
cancel_restore_loop-Unchanged [] w h = (refl, refl, refl)
cancel_restore_loop-Unchanged (item ∷ items) w h =
    let r = cancel_restore item.restore_id w in
    let (ok, same, other) =
      cancel_found-Unchanged (load_restore item.restore_id w.restores) h.0.0 _ w h.0.1 in
    let (ok1, same1, other1) = cancel_restore_loop-Unchanged items r.0 (rw other h.1) in
    rw (unless_failed-none r (cancel_restore_loop items) ok) (ok1, same1 ∙ same, other1 ∙ other)
