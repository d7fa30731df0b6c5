-- ===== src/Download/Examples.antt =====
-- internal/download/cachemgr.go: two keys, with a limit of 100 bytes.
use fa.Prelude.{ℕ, ◌<◌, ◌^◌, ◌≡◌, refl, List, [], ◌∷◌, arith}
use fa.Prelude.Int.{ℤ, pos, negsuc}
use fa.Download.{Dl, DlRecorder, Event, recorded, timed_out, new, close}
use fa.Download.Sizes.{size_of, requested}
use fa.Download.Totals.{close-total}

abbrev dl : ℕ → ℤ → Dl
dl k n = record {
  path_key = k;
  path = k;
  size = n;
  from = 1;
  tenant_id = 2;
  user_id = 3;
  client_ip = 4;
}

abbrev recorder : ℕ → ℕ → DlRecorder
recorder k n = record {
  path_key = k;
  path = k;
  cum_size = n;
  from = 1;
  tenant_id = 2;
  user_id = 3;
  client_ip = 4;
}

abbrev day : List Event
day =
    recorded (dl 1 (pos 50))
    ∷ recorded (dl 2 (pos 30))
    ∷ recorded (dl 1 (negsuc 6))
    ∷ recorded (dl 1 (pos 60))
    ∷ timed_out
    ∷ recorded (dl 1 (pos 5))
    ∷ []

day_run : close day (new 100) ≡ record {
  cache = [];
  dl_limit = 100;
  published = recorder 1 5 ∷ recorder 2 30 ∷ recorder 1 110 ∷ [];
}
unfolding close new
day_run = refl

small : (key : ℕ) → requested key day < 2 ^ 64
unfolding requested
small key = ground arith

close-total_example :
    (size_of 1 (close day (new 100)).published ≡ requested 1 day)
    × ((close day (new 100)).cache ≡ [])
close-total_example = close-total 1 100 day small
