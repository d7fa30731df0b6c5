-- ===== src/Download/Totals.antt =====
-- internal/download/cachemgr.go: what is published is what was recorded.
use native.Mathlib.Nat.{mod-eq_of_lt}
use fa.Prelude.{
  ℕ, zero, suc, ◌+◌, ◌%◌, ◌^◌, ◌<◌, ◌≡◌, refl, ap, ◌∙◌, inl, inr, none, List, [], ◌∷◌, arith,
  Bool-cases, Option-cases,
}
use fa.Prelude.Int.{ℤ, pos, negsuc}
use fa.Download.{
  Dl, find, DlCacheMgr, new, publish_one, add_up, exceeds, receive, record_dl, publish_all, Event,
  recorded, timed_out, serve, close,
}
use fa.Download.Sizes.{
  share, size_of, bytes, requested, total, publish_all-total, find-size, put_new-size,
  put_found-size, delete_new, delete_found-size,
}

receive-total :
    (k n : ℕ) (dl : Dl) (m : DlCacheMgr)
    → total dl.path_key m + n < 2 ^ 64
    → total k (receive n dl m) ≡ share k dl.path_key n + total k m
unfolding receive add_up publish_one size_of
receive-total k n dl m small = elim (Option-cases (find dl.path_key m.cache)) [
  | inl fresh ↦ elim (Bool-cases (exceeds n m.dl_limit)) [
    | inl over ↦ rw (receive, fresh, over, delete_new dl.path_key m.cache fresh) (omega arith)
    | inr under ↦
        rw (receive, fresh, under) (omega (arith, put_new-size k (add_up n dl none) m.cache fresh))
  ]
  | inr (old, found) ↦
      let (key, part) = find-size dl.path_key dl.path_key m.cache old found in
      let sum : (old.cum_size + n) % 2 ^ 64 ≡ old.cum_size + n =
        mod-eq_of_lt (ground (arith, part)) in
      elim (Bool-cases (exceeds (old.cum_size + n) m.dl_limit)) [
        | inl over ↦
            rw (receive, found, sum, over)
              (ground (arith, delete_found-size k dl.path_key old m.cache found, key))
        | inr under ↦
            rw (receive, found, sum, under)
              (ground (
                arith,
                put_found-size k (record old { cum_size = old.cum_size + n }) old m.cache
                    (ap (λ x. find x m.cache) key ∙ found),
                key,
              ))
      ]
]

record_dl-total :
    (k : ℕ) (dl : Dl) (m : DlCacheMgr)
    → bytes dl.size + total dl.path_key m < 2 ^ 64
    → total k (record_dl dl m) ≡ share k dl.path_key (bytes dl.size) + total k m
unfolding record_dl
record_dl-total k dl m small = by_size dl.size refl
  where
    by_size :
        (z : ℤ)
        → dl.size ≡ z
        → total k (record_dl dl m) ≡ share k dl.path_key (bytes dl.size) + total k m
    by_size (pos zero) e = rw (record_dl, e) (ground arith)
    by_size (pos (suc n)) e =
        rw (record_dl, e) (receive-total k (suc n) dl m (rw (← ap bytes e) (omega (arith, small))))
    by_size (negsuc n) e = rw (record_dl, e) (ground arith)

serve-total :
    (k : ℕ) (es : List Event) (m : DlCacheMgr)
    → ((key : ℕ) → requested key es + total key m < 2 ^ 64)
    → total k (serve es m) ≡ requested k es + total k m
unfolding serve requested
serve-total k [] m small = omega arith
serve-total k (recorded dl ∷ es) m small =
    let here : bytes dl.size + total dl.path_key m < 2 ^ 64 = ground (arith, small dl.path_key) in
    serve-total k es (record_dl dl m)
      (λ key. omega (arith, small key, record_dl-total key dl m here))
    ∙ omega (arith, record_dl-total k dl m here)
serve-total k (timed_out ∷ es) m small =
    serve-total k es (publish_all m) (λ key. omega (arith, small key, (publish_all-total key m).0))
    ∙ omega (arith, (publish_all-total k m).0)

-- Whatever requests and timeouts come in whatever order, after Close the sizes that were published of
-- a key add up to the sizes that were requested of it, and nothing is left in the cache. The sizes of
-- each key add up to less than 2 ^ 64.
pub close-total :
    (k limit : ℕ) (es : List Event)
    → ((key : ℕ) → requested key es < 2 ^ 64)
    → (size_of k (close es (new limit)).published ≡ requested k es)
      × ((close es (new limit)).cache ≡ [])
unfolding close new size_of
close-total k limit es small =
    let (t, c) = publish_all-total k (serve es (new limit)) in
    let all = serve-total k es (new limit) (λ key. omega (arith, small key)) in
    let left : size_of k (publish_all (serve es (new limit))).cache ≡ 0 = rw c refl in
    (omega (arith, t, all, left), c)
