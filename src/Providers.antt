-- ===== src/Providers.antt =====
-- internal/backup/priority_queue.go: the slice of providers that container/heap orders. heap.Push,
-- heap.Pop and heap.Fix change it only by Swap, Push and Pop, so that a run is a list of these. An item is known by
-- its place in the slice; `none` is an index out of range, which panics.
pub mod Indices
mod Examples
use fa.Prelude.{
  ℕ, zero, suc, ◌-◌, ◌≡◌, Bool, Option, none, some, List, [], ◌∷◌, ◌++◌, length, get_elem?, set,
  take, ◌==◌, if◌then◌else◌,
}
use fa.Prelude.Int.{ℤ, pos, negsuc, ltb_ℤ}
use fa.Prelude.Monad.{◌>>=◌}

pub record ProviderItem : Type 0 where
  pub name : ℕ
  pub value : ℕ
  pub priority : ℤ
  pub index : ℤ

-- Less: the highest priority comes first.
pub less : ℕ → ℕ → List ProviderItem → Option Bool
less i j pq = get_elem? pq i >>= λ a. (get_elem? pq j >>= λ b. some (ltb_ℤ b.priority a.priority))

pub swap : ℕ → ℕ → List ProviderItem → Option (List ProviderItem)
swap i j pq = get_elem? pq i >>= λ a.
    (get_elem? pq j >>= λ b.
    some (set (set pq i (record b { index = pos i })) j (record a { index = pos j })))

pub push : ProviderItem → List ProviderItem → List ProviderItem
push x pq = pq ++ record x { index = pos (length pq) } ∷ []

pub pop : List ProviderItem → Option (ProviderItem × List ProviderItem)
pop [] = none
pop (x ∷ pq) =
    let n = length pq in
    get_elem? (x ∷ pq) n >>= λ item. some (record item { index = negsuc 0 }, take n (x ∷ pq))

-- Get: the first item of a name.
pub get : ℕ → List ProviderItem → Option ProviderItem
get wanted [] = none
get wanted (x ∷ pq) = if x.name == wanted then some x else get wanted pq

-- What update does before heap.Fix.
pub assign : ℕ → ℕ → ℤ → List ProviderItem → Option (List ProviderItem)
assign i value priority pq =
    get_elem? pq i >>= λ a. some (set pq i (record a { value = value; priority = priority }))

pub data Op : Type 0 where
  swaps : ℕ → ℕ → Op
  pushes : ProviderItem → Op
  pops : Op
  assigns : ℕ → ℕ → ℤ → Op

pub step : Op → List ProviderItem → Option (List ProviderItem)
unfolding swap push pop assign
step (swaps i j) pq = swap i j pq
step (pushes x) pq = some (push x pq)
step pops pq = pop pq >>= λ (x, rest). some rest
step (assigns i v p) pq = assign i v p pq

pub run : List Op → List ProviderItem → Option (List ProviderItem)
unfolding step
run [] pq = some pq
run (o ∷ os) pq = step o pq >>= run os
