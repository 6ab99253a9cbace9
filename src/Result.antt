-- ===== src/Result.antt =====
-- A status code that is not `Ok`, or the value that a function wrote when it returned `Ok`.
-- Chains of calls that return early on an error are `do` blocks over it.
use randioum.Base.{ap, Bool, true, false, ◌≡◌, ◌≢◌, refl, ◌⊎◌, inl, inr}
use mathlib.Core.Bool.{false≢true, true≢false}

pub data Result (E A : Type 0) : Type 0 where
  ok : A → Result E A
  err : E → Result E A

module _ {E : Type 0} where
  infixl 5 ◌>>=◌ ◌>>◌
  abbrev pub ◌>>=◌ : {A B : Type 0} → Result E A → (A → Result E B) → Result E B
  ok a >>= f = f a
  err e >>= f = err e

  abbrev pub ◌>>◌ : {B : Type 0} → Result E (Unit {0}) → Result E B → Result E B
  ok _ >> k = k
  err e >> k = err e

  -- `if (test) return e;`
  abbrev pub fail_if : Bool → E → Result E (Unit {0})
  fail_if true e = err e
  fail_if false e = ok tt

  value_or : {A : Type 0} → A → Result E A → A
  value_or d (ok a) = a
  value_or d (err e) = d

  pub ok-injective : {A : Type 0} {a b : A} → ◌≡◌ {A = Result E A} (ok a) (ok b) → a ≡ b
  unfolding value_or
  ok-injective {a = a} p = ap (value_or a) p

  pub Result-cases :
      {A : Type 0} (r : Result E A) → ((a : A) × (r ≡ ok a)) ⊎ ((e : E) × (r ≡ err e))
  Result-cases (ok a) = inl (a, refl)
  Result-cases (err e) = inr (e, refl)

  is_ok : {A : Type 0} → Result E A → Bool
  is_ok (ok a) = true
  is_ok (err e) = false

  pub err-ne-ok : {A : Type 0} (e : E) (a : A) → ◌≢◌ {A = Result E A} (err e) (ok a)
  unfolding is_ok
  err-ne-ok e a h = false≢true (ap is_ok h)

  -- A chain that succeeds, one call at a time.
  pub bind_inv :
      {A B : Type 0} (r : Result E A) (f : A → Result E B) {b : B}
      → (r >>= f) ≡ ok b
      → (a : A) × (r ≡ ok a) × (f a ≡ ok b)
  bind_inv (ok a) f h = (a, refl, h)
  bind_inv (err e) f h = elim (err-ne-ok _ _ h) [ ]

  pub fail_if_inv :
      {B : Type 0} (t : Bool) (e : E) (k : Result E B) {b : B}
      → (fail_if t e >> k) ≡ ok b
      → (t ≡ false) × (k ≡ ok b)
  fail_if_inv true e k h = elim (err-ne-ok _ _ h) [ ]
  fail_if_inv false e k h = (refl, h)

  -- A chain, run one call at a time.
  pub goes_on :
      {B : Type 0} (t : Bool) (e : E) (k : Result E B) → t ≡ false → (fail_if t e >> k) ≡ k
  goes_on true e k h = absurd (true≢false h)
  goes_on false e k h = refl

  pub bind_ok :
      {A B : Type 0} (r : Result E A) (f : A → Result E B) {a : A} → r ≡ ok a → (r >>= f) ≡ f a
  bind_ok r f h = ap (λ t. t >>= f) h

  pub bind_err :
      {A B : Type 0} (r : Result E A) (f : A → Result E B) {e : E} → r ≡ err e → (r >>= f) ≡ err e
  bind_err r f h = ap (λ t. t >>= f) h
