-- ===== src/Net/Rate/Budget.antt =====
-- What a token bucket grants in any sequence of ticks and requests.
use randioum.Base.{
  not_lt→le, ℕ, ◌+◌, ◌*◌, ◌%◌, ◌^◌, ◌≤◌, ◌≡◌, refl, Bool, true, false, ltb, ◌==◌, if◌then◌else◌,
  if-elim, List, [], ◌∷◌, arith,
}
use randioum.Codec.Bytes.{IsU64}
use randioum.Net.Rate.{Options, TokenBucket, token_bucket, tick, try_consume}

pub data BucketEvent : Type 0 where
  ticks : BucketEvent
  requests : ℕ → BucketEvent

-- The bucket behind a sequence of events, the ticks in it, and the sum of the amounts granted.
pub record Account : Type 0 where
  pub bucket : TokenBucket
  pub time : ℕ
  pub granted : ℕ

abbrev pub count_grant : ℕ → Account → Bool × TokenBucket → Account
count_grant amount a (true, b) = record a { bucket = b; granted = a.granted + amount }
count_grant amount a (false, b) = record a { bucket = b }

unfoldable pub book : Account → BucketEvent → Account
book a ticks = record a { bucket = tick a.bucket; time = a.time + 1 }
book a (requests amount) = count_grant amount a (try_consume a.bucket amount)

unfoldable pub book_all : Account → List BucketEvent → Account
book_all a [] = a
book_all a (e ∷ events) = book_all (book a e) events

-- The options stay as they are, the tokens do not exceed the capacity, and what was granted and
-- what is left do not exceed the capacity and the refills.
pub record IsWithin (opt : Options) (a : Account) : Type 0 where
  pub same_capacity : a.bucket.opt.capacity ≡ opt.capacity
  pub same_refill : a.bucket.opt.refill_per_tick ≡ opt.refill_per_tick
  pub bounded : a.bucket.tokens ≤ opt.capacity
  pub budget : a.granted + a.bucket.tokens ≤ opt.capacity + a.time * opt.refill_per_tick

abbrev filled : ℕ → ℕ → ℕ → ℕ
filled capacity tokens next =
    if ltb next tokens then capacity else if ltb capacity next then capacity else next

filled_bounded :
    (capacity refill tokens : ℕ)
    → IsU64 capacity
    → IsU64 refill
    → tokens ≤ capacity
    → (filled capacity tokens ((tokens + refill) % 2 ^ 64) ≤ capacity)
      × (filled capacity tokens ((tokens + refill) % 2 ^ 64) ≤ tokens + refill)
filled_bounded capacity refill tokens fits0 fits1 le = (ground arith, ground arith)

tick-IsWithin :
    (opt : Options) (a : Account)
    → IsU64 opt.capacity
    → IsU64 opt.refill_per_tick
    → IsWithin opt a
    → IsWithin opt (book a ticks)
unfolding book tick
tick-IsWithin opt a fits0 fits1 h =
    let (le, added) =
      filled_bounded a.bucket.opt.capacity a.bucket.opt.refill_per_tick a.bucket.tokens
        (omega (arith, h.same_capacity, fits0)) (omega (arith, h.same_refill, fits1))
        (omega (arith, h.same_capacity, h.bounded)) in
    record {
      same_capacity = h.same_capacity;
      same_refill = h.same_refill;
      bounded = omega (arith, le, h.same_capacity);
      budget = omega (arith, added, h.budget, h.same_refill);
    }

request-IsWithin :
    (opt : Options) (a : Account) (amount : ℕ)
    → IsWithin opt a
    → IsWithin opt (book a (requests amount))
unfolding book try_consume
request-IsWithin opt a amount h =
    if-elim (λ r. IsWithin opt (count_grant amount a r)) (amount == 0)
      (λ t. record {
        same_capacity = h.same_capacity;
        same_refill = h.same_refill;
        bounded = h.bounded;
        budget = ground (arith, h.budget);
      })
      (λ f.
        if-elim (λ r. IsWithin opt (count_grant amount a r)) (ltb a.bucket.tokens amount)
          (λ t. record {
            same_capacity = h.same_capacity;
            same_refill = h.same_refill;
            bounded = h.bounded;
            budget = h.budget;
          })
          (λ g. record {
            same_capacity = h.same_capacity;
            same_refill = h.same_refill;
            bounded = omega (arith, h.bounded);
            budget = omega (arith, h.budget, not_lt→le a.bucket.tokens amount g);
          }))

book_all-IsWithin :
    (opt : Options) (a : Account) (events : List BucketEvent)
    → IsU64 opt.capacity
    → IsU64 opt.refill_per_tick
    → IsWithin opt a
    → IsWithin opt (book_all a events)
unfolding book_all
book_all-IsWithin opt a [] fits0 fits1 h = h
book_all-IsWithin opt a (ticks ∷ events) fits0 fits1 h =
    book_all-IsWithin opt (book a ticks) events fits0 fits1 (tick-IsWithin opt a fits0 fits1 h)
book_all-IsWithin opt a (requests amount ∷ events) fits0 fits1 h =
    book_all-IsWithin opt (book a (requests amount)) events fits0 fits1
      (request-IsWithin opt a amount h)

abbrev pub opened : Options → Account
opened opt = record { bucket = token_bucket opt; time = 0; granted = 0 }

-- After any sequence of ticks and requests on a new bucket with 64-bit options, the tokens do not
-- exceed the capacity, and the amounts granted and the tokens left do not exceed the capacity and
-- a refill for each tick.
pub opened-IsWithin :
    (opt : Options) (events : List BucketEvent)
    → IsU64 opt.capacity
    → IsU64 opt.refill_per_tick
    → IsWithin opt (book_all (opened opt) events)
opened-IsWithin opt events fits0 fits1 =
    book_all-IsWithin opt (opened opt) events fits0 fits1 (record {
      same_capacity = refl;
      same_refill = refl;
      bounded = omega arith;
      budget = omega arith;
    })
