-- ===== src/Net/Rate/Runs.antt =====
-- A run of a token bucket.
use randioum.Base.{◌≡◌, refl, List, [], ◌∷◌, arith}
use randioum.Net.Rate.{Options, tick, try_consume}
use randioum.Net.Rate.Budget.{
  BucketEvent, ticks, requests, book, book_all, opened, IsWithin, opened-IsWithin,
}

abbrev options : Options
options = record { capacity = 10; refill_per_tick = 4 }

abbrev events : List BucketEvent
events = requests 8 ∷ requests 3 ∷ ticks ∷ requests 6 ∷ ticks ∷ ticks ∷ ticks ∷ []

book_all-granted : (book_all (opened options) events).granted ≡ 14
unfolding book_all book tick try_consume
book_all-granted = refl

opened-IsWithin_example : IsWithin options (book_all (opened options) events)
opened-IsWithin_example = opened-IsWithin options events (omega arith) (omega arith)
