-- ===== src/Hash/Sha256/Stream.antt =====
-- The blocks of an input, and the state of the streaming code on its way through them.
use Prim.Native.Nat.{min}
use randioum.Base.{
  ◌/◌, ◌%◌, ◌^◌, ◌≢◌, ◌⊎◌, drop-append, ℕ, zero, suc, ◌+◌, ◌-◌, ◌*◌, ◌≤◌, ◌<◌, ◌≡◌, refl, sym, ap,
  ap₂, subst, ◌∙◌, leb, ◌==◌, if◌then◌else◌, if-elim, inl, inr, List, [], ◌∷◌, ◌++◌, append_assoc,
  append-nil, length, take, drop, length-append, length-drop, length-take, take-drop, take_all,
  arith,
}
use randioum.Codec.Bytes.Inverse.{drop-drop}
use randioum.Hash.Words.{Words8, compress, initial_words}
use randioum.Hash.Sha256.{Sha256State, absorb_blocks, fill_buffer, absorb_rest, update}

-- `compress` on the first blocks of an input.
unfoldable pub hash_blocks : ℕ → Words8 → List ℕ → Words8
hash_blocks zero h m = h
hash_blocks (suc n) h m = hash_blocks n (compress h (take 64 m)) (drop 64 m)

take-append_le : (n : ℕ) (xs ys : List ℕ) → n ≤ length xs → take n (xs ++ ys) ≡ take n xs
take-append_le zero xs ys le = refl
take-append_le (suc n) [] ys le = elim le [ ]
take-append_le (suc n) (x ∷ xs) ys le = ap (λ t. x ∷ t) (take-append_le n xs ys (omega (arith, le)))

drop-append_le : (n : ℕ) (xs ys : List ℕ) → n ≤ length xs → drop n (xs ++ ys) ≡ drop n xs ++ ys
drop-append_le zero xs ys le = refl
drop-append_le (suc n) [] ys le = elim le [ ]
drop-append_le (suc n) (x ∷ xs) ys le = drop-append_le n xs ys (omega (arith, le))

-- Only the blocks themselves matter.
pub hash_blocks-append :
    (n : ℕ) (h : Words8) (m d : List ℕ)
    → 64 * n ≤ length m
    → hash_blocks n h (m ++ d) ≡ hash_blocks n h m
unfolding hash_blocks
hash_blocks-append zero h m d le = refl
hash_blocks-append (suc n) h m d le =
    ap₂ (λ b r. hash_blocks n (compress h b) r) (take-append_le 64 m d (omega arith))
      (drop-append_le 64 m d (omega arith))
    ∙ hash_blocks-append n (compress h (take 64 m)) (drop 64 m) d (omega (arith, length-drop 64 m))

pub hash_blocks-add :
    (n k : ℕ) (h : Words8) (m : List ℕ)
    → hash_blocks (n + k) h m ≡ hash_blocks k (hash_blocks n h m) (drop (64 * n) m)
unfolding hash_blocks
hash_blocks-add zero k h m = ap (λ t. hash_blocks t h m) {x = 0 + k} {y = k} (omega arith)
hash_blocks-add (suc n) k h m =
    ap (λ t. hash_blocks t h m) {x = suc n + k} {y = suc (n + k)} (omega arith)
    ∙ hash_blocks-add n k (compress h (take 64 m)) (drop 64 m)
    ∙ ap (hash_blocks k (hash_blocks n (compress h (take 64 m)) (drop 64 m)))
        (drop-drop (64 * n) 64 m ∙ ap (λ t. drop t m) (omega arith))

-- The loop over whole blocks.
absorb_blocks-whole :
    (n fuel : ℕ) (h : Words8) (d : List ℕ)
    → length d ≤ fuel
    → 64 * n ≤ length d
    → length d < 64 * n + 64
    → absorb_blocks fuel h d ≡ (hash_blocks n h d, drop (64 * n) d)
unfolding absorb_blocks hash_blocks
absorb_blocks-whole zero zero h d enough whole part = refl
absorb_blocks-whole zero (suc fuel) h d enough whole part =
    if-elim (λ r. r ≡ (h, d)) (leb 64 (length d)) (λ t. absurd (ground arith)) (λ f. refl)
absorb_blocks-whole (suc n) zero h d enough whole part = absurd (omega (arith, enough, whole))
absorb_blocks-whole (suc n) (suc fuel) h d enough whole part =
    if-elim (λ r. r ≡ (hash_blocks (suc n) h d, drop (64 * suc n) d)) (leb 64 (length d))
      (λ t.
        absorb_blocks-whole n fuel (compress h (take 64 d)) (drop 64 d)
          (omega (arith, length-drop 64 d)) (omega (arith, length-drop 64 d))
          (omega (arith, length-drop 64 d))
        ∙ ap (λ r. (hash_blocks (suc n) h d, r))
            (drop-drop (64 * n) 64 d ∙ ap (λ t. drop t d) (omega arith)))
      (λ f. absurd (ground arith))

-- The words and the buffer behind an input of any length.
pub record IsAbsorbed (m : List ℕ) (h : Words8) (buffer : List ℕ) : Type 0 where
  pub blocks : ℕ
  pub whole : 64 * blocks ≤ length m
  pub part : length m < 64 * blocks + 64
  pub words : h ≡ hash_blocks blocks initial_words m
  pub remaining : buffer ≡ drop (64 * blocks) m

pub initial-IsAbsorbed : IsAbsorbed [] initial_words []
unfolding hash_blocks
initial-IsAbsorbed = record {
  blocks = 0;
  whole = omega arith;
  part = omega arith;
  words = refl;
  remaining = refl;
}

no_bytes : (xs : List ℕ) → length xs ≡ 0 → xs ≡ []
no_bytes [] e = refl
no_bytes (x ∷ xs) e = let no : 1 ≤ 0 = omega (arith, e) in elim no [ ]

chosen :
    (buffer rest : List ℕ) → length buffer ≡ 0 → (if length rest == 0 then buffer else rest) ≡ rest
chosen buffer rest e =
    if-elim (λ r. r ≡ rest) (length rest == 0)
      (λ t. no_bytes buffer e ∙ sym (no_bytes rest (ground arith))) (λ f. refl)

-- Behind whole blocks.
absorb_rest_aligned :
    (m : List ℕ) (h : Words8) (buffer d : List ℕ) (q : ℕ)
    → IsAbsorbed m h buffer
    → length buffer ≡ 0
    → 64 * q ≤ length d
    → length d < 64 * q + 64
    → IsAbsorbed (m ++ d) (absorb_rest h buffer d).0 (absorb_rest h buffer d).1
unfolding absorb_rest
absorb_rest_aligned m h buffer d q a empty whole part =
    let n = a.blocks in
    let aligned : 64 * n ≡ length m =
      omega (arith, a.whole, length-drop (64 * n) m, ap length a.remaining, empty) in
    let absorbed = absorb_blocks-whole q (length d) h d (omega arith) whole part in
    let behind : drop (64 * n) (m ++ d) ≡ d = drop-append m d (64 * n) aligned in
    record {
      blocks = n + q;
      whole = omega (arith, length-append m d, aligned, whole);
      part = omega (arith, length-append m d, aligned, part);
      words =
          ap (λ r. r.0) absorbed
          ∙ ap₂ (λ g r. hash_blocks q g r)
              (a.words ∙ sym (hash_blocks-append n initial_words m d a.whole)) (sym behind)
          ∙ sym (hash_blocks-add n q initial_words (m ++ d));
      remaining =
          chosen buffer _ empty
          ∙ ap (λ r. r.1) absorbed
          ∙ ap (drop (64 * q)) (sym behind)
          ∙ drop-drop (64 * q) (64 * n) (m ++ d)
          ∙ ap (λ t. drop t (m ++ d)) {x = 64 * n + 64 * q} {y = 64 * (n + q)} (omega arith);
    }

absorb_rest_empty :
    (m : List ℕ) (h : Words8) (buffer : List ℕ)
    → IsAbsorbed m h buffer
    → IsAbsorbed (m ++ []) (absorb_rest h buffer []).0 (absorb_rest h buffer []).1
unfolding absorb_rest absorb_blocks
absorb_rest_empty m h buffer a = subst (λ t. IsAbsorbed t h buffer) (sym (append-nil m)) a

buffered :
    (m : List ℕ) (h : Words8) (buffer : List ℕ) (a : IsAbsorbed m h buffer)
    → length m ≡ 64 * a.blocks + length buffer
buffered m h buffer a = omega (arith, a.whole, length-drop (64 * a.blocks) m, ap length a.remaining)

-- The buffer is filled up and absorbed.
buffer_full :
    (m : List ℕ) (h : Words8) (buffer p : List ℕ)
    → IsAbsorbed m h buffer
    → length (buffer ++ p) ≡ 64
    → IsAbsorbed (m ++ p) (compress h (buffer ++ p)) []
unfolding hash_blocks
buffer_full m h buffer p a full =
    let n = a.blocks in
    let size = length-append m p in
    let behind : drop (64 * n) (m ++ p) ≡ buffer ++ p =
      drop-append_le (64 * n) m p a.whole ∙ ap (λ t. t ++ p) (sym a.remaining) in
    let aligned : length (m ++ p) ≡ 64 * n + 64 =
      omega (arith, size, buffered m h buffer a, length-append buffer p, full) in
    record {
      blocks = n + 1;
      whole = omega (arith, aligned);
      part = omega (arith, aligned);
      words =
          ap₂ (λ g r. compress g r) (a.words ∙ sym (hash_blocks-append n initial_words m p a.whole))
            (sym (take_all (buffer ++ p) 64 (omega (arith, full))) ∙ ap (take 64) (sym behind))
          ∙ sym (hash_blocks-add n 1 initial_words (m ++ p));
      remaining = sym (no_bytes _ (omega (arith, aligned, length-drop (64 * (n + 1)) (m ++ p))));
    }

-- The buffer is not filled up.
buffer_part :
    (m : List ℕ) (h : Words8) (buffer p : List ℕ)
    → IsAbsorbed m h buffer
    → length (buffer ++ p) < 64
    → IsAbsorbed (m ++ p) h (buffer ++ p)
buffer_part m h buffer p a part = record {
  blocks = a.blocks;
  whole = omega (arith, a.whole, length-append m p);
  part = omega (arith, length-append m p, length-append buffer p, buffered m h buffer a, part);
  words = a.words ∙ sym (hash_blocks-append a.blocks initial_words m p a.whole);
  remaining = ap (λ t. t ++ p) a.remaining ∙ sym (drop-append_le (64 * a.blocks) m p a.whole);
}

-- What `fill_buffer` has taken of the bytes, and what it leaves.
record IsFilled (m d : List ℕ) (r : Words8 × List ℕ × List ℕ) : Type 0 where
  taken : List ℕ
  absorbed : IsAbsorbed (m ++ taken) r.0 r.1
  settled : (length r.1 ≡ 0) ⊎ (r.2 ≡ [])
  joined : taken ++ r.2 ≡ d

fill_buffer-IsFilled :
    (m : List ℕ) (h : Words8) (buffer d : List ℕ)
    → IsAbsorbed m h buffer
    → IsFilled m d (fill_buffer h buffer d)
unfolding fill_buffer
fill_buffer-IsFilled m h buffer d a =
    if-elim (IsFilled m d) (length buffer == 0)
      (λ t. record {
        taken = [];
        absorbed = subst (λ t. IsAbsorbed t h buffer) (sym (append-nil m)) a;
        settled = inl (ground arith);
        joined = refl;
      })
      (λ f.
        if-elim (IsFilled m d) (length (buffer ++ take to_copy d) == 64)
          (λ t. record {
            taken = take to_copy d;
            absorbed = buffer_full m h buffer (take to_copy d) a (ground arith);
            settled = inl refl;
            joined = take-drop to_copy d;
          })
          (λ g.
            let small : (length (buffer ++ take to_copy d) < 64) × (length d ≤ to_copy) =
              room (length buffer) (length d) _ (omega (arith, buffered m h buffer a, a.part))
                (omega (arith, length-append buffer (take to_copy d), length-take to_copy d))
                (ground arith) in
            record {
              taken = take to_copy d;
              absorbed = buffer_part m h buffer (take to_copy d) a small.0;
              settled = inr (no_bytes _ (omega (arith, length-drop to_copy d, small.1)));
              joined = take-drop to_copy d;
            }))
  where
    to_copy : ℕ
    to_copy = min (64 - length buffer) (length d)

    room :
        (b k total : ℕ)
        → b < 64
        → total ≡ b + min (min (64 - b) k) k
        → total ≢ 64
        → (total < 64) × (k ≤ min (64 - b) k)
    room b k total small sum ne = (ground arith, ground arith)

absorb_rest-IsAbsorbed :
    (m : List ℕ) (h : Words8) (buffer rest : List ℕ)
    → IsAbsorbed m h buffer
    → (length buffer ≡ 0) ⊎ (rest ≡ [])
    → IsAbsorbed (m ++ rest) (absorb_rest h buffer rest).0 (absorb_rest h buffer rest).1
absorb_rest-IsAbsorbed m h buffer rest a (inl empty) =
    absorb_rest_aligned m h buffer rest (length rest / 64) a empty (omega arith) (omega arith)
absorb_rest-IsAbsorbed m h buffer rest a (inr none_left) =
    subst (λ t. IsAbsorbed (m ++ t) (absorb_rest h buffer t).0 (absorb_rest h buffer t).1)
      (sym none_left) (absorb_rest_empty m h buffer a)

-- The state behind an input: its words, its buffer, and its length.
pub record Has (m : List ℕ) (s : Sha256State) : Type 0 where
  pub absorbed : IsAbsorbed m s.h s.buffer
  pub total : s.total_len ≡ length m % 2 ^ 64

pub update-Has : (m d : List ℕ) (s : Sha256State) → Has m s → Has (m ++ d) (update s d)
unfolding update
update-Has m d s has =
    let filled = fill_buffer-IsFilled m s.h s.buffer d has.absorbed in
    let r = fill_buffer s.h s.buffer d in
    record {
      absorbed =
          subst (λ t. IsAbsorbed t (absorb_rest r.0 r.1 r.2).0 (absorb_rest r.0 r.1 r.2).1)
            (append_assoc m filled.taken r.2 ∙ ap (λ t. m ++ t) filled.joined)
            (absorb_rest-IsAbsorbed (m ++ filled.taken) r.0 r.1 r.2 filled.absorbed filled.settled);
      total = omega (arith, has.total, length-append m d);
    }
