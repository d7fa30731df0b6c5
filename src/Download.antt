-- ===== src/Download.antt =====
-- internal/download/cachemgr.go: the cache of download sizes and its publishing.
-- The goroutine `serve` handles one message at a time, so its state passes from message to message. A
-- path key is a number, since the code only compares it. Sizes are int64: a sum wraps at 2 ^ 64 and is
-- negative from 2 ^ 63 on. The handler and the audit service behind it are outside: `published` is
-- what the handler is given. Times are left out.
pub mod Sizes
pub mod Totals
mod Examples
use fa.Prelude.{
  ℕ, zero, suc, ◌+◌, ◌%◌, ◌^◌, ◌<◌, Bool, true, false, ◌&&◌, Option, none, some, List, [], ◌∷◌,
  ◌++◌, map, ltb, ◌==◌, if◌then◌else◌,
}
use fa.Prelude.Int.{ℤ, pos, negsuc}

-- A download request, and a recorder of the downloads of a key.
pub record Dl : Type 0 where
  pub path_key : ℕ
  pub path : ℕ
  pub size : ℤ
  pub from : ℕ
  pub tenant_id : ℕ
  pub user_id : ℕ
  pub client_ip : ℕ

pub record DlRecorder : Type 0 where
  pub path_key : ℕ
  pub path : ℕ
  pub cum_size : ℕ
  pub from : ℕ
  pub tenant_id : ℕ
  pub user_id : ℕ
  pub client_ip : ℕ

-- The map from keys to recorders, with one entry for a key.
pub find : ℕ → List DlRecorder → Option DlRecorder
find k [] = none
find k (x ∷ xs) = if x.path_key == k then some x else find k xs

pub put : DlRecorder → List DlRecorder → List DlRecorder
put r [] = r ∷ []
put r (x ∷ xs) = if x.path_key == r.path_key then r ∷ xs else x ∷ put r xs

pub delete : ℕ → List DlRecorder → List DlRecorder
delete k [] = []
delete k (x ∷ xs) = if x.path_key == k then xs else x ∷ delete k xs

pub record DlCacheMgr : Type 0 where
  pub cache : List DlRecorder
  pub dl_limit : ℕ
  -- What publishOne has been given, the latest first.
  pub published : List DlRecorder

-- NewDlCacheMgr
pub new : ℕ → DlCacheMgr
new limit = record { cache = []; dl_limit = limit; published = [] }

-- publishOne and publishBatch
pub publish_one : DlRecorder → DlCacheMgr → DlCacheMgr
publish_one r m = record m { published = r ∷ m.published }

pub publish_batch : List DlRecorder → DlCacheMgr → DlCacheMgr
unfolding publish_one
publish_batch [] m = m
publish_batch (r ∷ rs) m = publish_batch rs (publish_one r m)

-- The recorder of a request of `n` bytes: the one of its key with the size added, or a new one.
pub add_up : ℕ → Dl → Option DlRecorder → DlRecorder
add_up n dl (some r) = record r { cum_size = (r.cum_size + n) % 2 ^ 64 }
add_up n dl none = record {
  path_key = dl.path_key;
  path = dl.path;
  cum_size = n;
  from = dl.from;
  tenant_id = dl.tenant_id;
  user_id = dl.user_id;
  client_ip = dl.client_ip;
}

-- CumSize > DlLimit, on signed sizes.
pub exceeds : ℕ → ℕ → Bool
exceeds size limit = ltb limit size && ltb size (2 ^ 63)

-- A request arrives at `serve`.
pub receive : ℕ → Dl → DlCacheMgr → DlCacheMgr
unfolding find put delete add_up exceeds publish_one
receive n dl m =
    let dr = add_up n dl (find dl.path_key m.cache) in
    if exceeds dr.cum_size m.dl_limit
    then publish_one dr (record m { cache = delete dl.path_key m.cache })
    else record m { cache = put dr m.cache }

-- Record drops a request of no bytes.
pub record_dl : Dl → DlCacheMgr → DlCacheMgr
unfolding receive
record_dl dl m = elim dl.size [ pos zero ↦ m | pos (suc n) ↦ receive (suc n) dl m | negsuc n ↦ m ]

-- The timeout of `serve`, and its end when it drains.
pub publish_all : DlCacheMgr → DlCacheMgr
unfolding publish_batch
publish_all m = publish_batch m.cache (record m { cache = [] })

pub data Event : Type 0 where
  recorded : Dl → Event
  timed_out : Event

pub serve : List Event → DlCacheMgr → DlCacheMgr
unfolding record_dl publish_all
serve [] m = m
serve (recorded dl ∷ es) m = serve es (record_dl dl m)
serve (timed_out ∷ es) m = serve es (publish_all m)

-- Close drains the cache.
pub close : List Event → DlCacheMgr → DlCacheMgr
unfolding serve publish_all
close es m = publish_all (serve es m)
