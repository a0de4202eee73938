-- ===== src/Storage/Record/Laws.antt =====
-- The control record is read back as it was written, and has one spelling only.
use leptos_ntex.Base.{
  ℕ, zero, suc, ◌+◌, ◌-◌, ◌*◌, ◌/◌, ◌%◌, ◌^◌, ◌≤◌, ◌<◌, ◌≡◌, refl, sym, ap, ◌∙◌, Bytes, bytes_eq,
  bytes_eq_iff, [], ◌∷◌, ◌++◌, length, length-append, take, drop, take_append_left, unwrap_or, ok,
  arith, All, u64_max,
}
use native.Mathlib.Nat.{pow-suc}
use mathlib.Core.List.{append-nil}
use leptos_ntex.Storage.Record.{
  Record, magic, flag, first, to_le_bytes, from_le_bytes, zeros, encode, slice, at, record_of,
  decode, write_generation,
}

from_le_bytes-to_le_bytes : (k n : ℕ) → n < 256 ^ k → from_le_bytes (to_le_bytes k n) ≡ n
unfolding from_le_bytes to_le_bytes
from_le_bytes-to_le_bytes zero n h = omega arith
from_le_bytes-to_le_bytes (suc k) n h =
    omega (arith, from_le_bytes-to_le_bytes k (n / 256) (omega (arith, pow-suc 256 k)))

to_le_bytes-from_le_bytes :
    (bs : Bytes) → All (λ b. b < 256) bs → to_le_bytes (length bs) (from_le_bytes bs) ≡ bs
unfolding from_le_bytes to_le_bytes
to_le_bytes-from_le_bytes [] h = refl
to_le_bytes-from_le_bytes (b ∷ bs) h =
    let low : (b + 256 * from_le_bytes bs) % 256 ≡ b = omega arith in
    let high : (b + 256 * from_le_bytes bs) / 256 ≡ from_le_bytes bs = omega arith in
    rw (low, high, to_le_bytes-from_le_bytes bs h.1)

length-to_le_bytes : (k n : ℕ) → length (to_le_bytes k n) ≡ k
unfolding to_le_bytes
length-to_le_bytes zero n = refl
length-to_le_bytes (suc k) n = ap suc (length-to_le_bytes k (n / 256))

-- The bytes of a record, in order.
fields : (f g : ℕ) → Bytes → Bytes → Bytes → Bytes
fields f g xs ys zs = magic ++ (f ∷ g ∷ zeros 6 ++ (xs ++ (ys ++ zs)))

abbrev layout : Record → Bytes
layout r =
    fields (flag r.limits.logical_file_bytes) (flag r.limits.namespace_entries)
      (to_le_bytes 8 (unwrap_or r.limits.logical_file_bytes 0))
      (to_le_bytes 8 (unwrap_or r.limits.namespace_entries 0)) (to_le_bytes 8 r.generation)

encode-layout : (r : Record) → write_generation r.generation (encode r.limits) ≡ layout r
unfolding write_generation encode fields
encode-layout r = refl

drop_past : (xs ws : Bytes) (n m k : ℕ) → length xs ≡ n → k ≡ n + m → drop k (xs ++ ws) ≡ drop m ws
drop_past [] ws n m k h e = ap (λ i. drop i ws) (omega arith)
drop_past (x ∷ xs) ws n m zero h e = absurd (omega arith)
drop_past (x ∷ xs) ws zero m (suc k) h e = absurd (omega arith)
drop_past (x ∷ xs) ws (suc n) m (suc k) h e = drop_past xs ws n m k (omega arith) (omega arith)

take_all : (xs : Bytes) (n : ℕ) → length xs ≡ n → take n xs ≡ xs
take_all [] zero h = refl
take_all [] (suc n) h = refl
take_all (x ∷ xs) zero h = absurd (omega arith)
take_all (x ∷ xs) (suc n) h = ap (◌∷◌ x) (take_all xs n (omega arith))

decode-fields :
    (f g : ℕ) (xs ys zs : Bytes)
    → f ≤ 1
    → g ≤ 1
    → length xs ≡ 8
    → length ys ≡ 8
    → length zs ≡ 8
    → decode (fields f g xs ys zs)
      ≡ record_of f g (from_le_bytes xs) (from_le_bytes ys) (from_le_bytes zs)
unfolding fields decode slice at bytes_eq zeros
decode-fields f g xs ys zs hf hg hx hy hz =
    let all : length (fields f g xs ys zs) ≡ 40 =
      omega (arith, length-append xs (ys ++ zs), length-append ys zs) in
    let x : take 8 (xs ++ (ys ++ zs)) ≡ xs = take_append_left xs (ys ++ zs) 8 hx in
    let y : take 8 (drop 8 (xs ++ (ys ++ zs))) ≡ ys =
      ap (take 8) (drop_past xs (ys ++ zs) 8 0 8 hx refl) ∙ take_append_left ys zs 8 hy in
    let z : take 8 (drop 16 (xs ++ (ys ++ zs))) ≡ zs =
      ap (take 8) (drop_past xs (ys ++ zs) 8 8 16 hx refl ∙ drop_past ys zs 8 0 8 hy refl)
      ∙ take_all zs 8 hz in
    ground (arith, all, x, y, z)

-- A record that was written is read back, at every pair of limits and every generation that are
-- `u64`s.
pub decode-encode :
    (r : Record)
    → unwrap_or r.limits.logical_file_bytes 0 ≤ u64_max
    → unwrap_or r.limits.namespace_entries 0 ≤ u64_max
    → r.generation ≤ u64_max
    → decode (write_generation r.generation (encode r.limits)) ≡ ok r
unfolding record_of
decode-encode r hb he hg =
    let b = from_le_bytes-to_le_bytes 8 (unwrap_or r.limits.logical_file_bytes 0) (omega arith) in
    let e = from_le_bytes-to_le_bytes 8 (unwrap_or r.limits.namespace_entries 0) (omega arith) in
    let g = from_le_bytes-to_le_bytes 8 r.generation (omega arith) in
    ap decode (encode-layout r)
    ∙ decode-fields _ _ _ _ _ (ground arith) (ground arith) (length-to_le_bytes 8 _)
        (length-to_le_bytes 8 _) (length-to_le_bytes 8 _)
    ∙ rw (b, e, g) (ground arith)

first-drop : (bs : Bytes) (k : ℕ) → k < length bs → drop k bs ≡ first (drop k bs) ∷ drop (suc k) bs
first-drop [] k h = absurd (omega arith)
first-drop (b ∷ bs) zero h = refl
first-drop (b ∷ bs) (suc k) h = first-drop bs k (omega arith)

drop-nil : (k : ℕ) → drop k (let e : Bytes = [] in e) ≡ []
drop-nil zero = refl
drop-nil (suc k) = refl

take-nil : (k : ℕ) → take k (let e : Bytes = [] in e) ≡ []
take-nil zero = refl
take-nil (suc k) = refl

take-drop : (bs : Bytes) (n m k : ℕ) → k ≡ n + m → drop n bs ≡ take m (drop n bs) ++ drop k bs
take-drop [] n m k e = simp (drop-nil, take-nil)
take-drop (b ∷ bs) zero zero k e = ap (λ i. drop i (b ∷ bs)) (let z : 0 ≡ k = omega arith in z)
take-drop (b ∷ bs) zero (suc m) zero e = absurd (omega arith)
take-drop (b ∷ bs) zero (suc m) (suc k) e = ap (◌∷◌ b) (take-drop bs zero m k (omega arith))
take-drop (b ∷ bs) (suc n) m zero e = absurd (omega arith)
take-drop (b ∷ bs) (suc n) m (suc k) e = take-drop bs n m k (omega arith)

drop_all : (bs : Bytes) (k : ℕ) → length bs ≡ k → drop k bs ≡ []
drop_all [] zero h = refl
drop_all [] (suc k) h = refl
drop_all (b ∷ bs) zero h = absurd (omega arith)
drop_all (b ∷ bs) (suc k) h = drop_all bs k (omega arith)

-- A list of 40 bytes is its slices.
slices :
    (bs : Bytes)
    → length bs ≡ 40
    → bs
      ≡ slice 0 8 bs
        ++ (at 8 bs ∷ at 9 bs ∷ slice 10 16 bs
            ++ (slice 16 24 bs ++ (slice 24 32 bs ++ slice 32 40 bs)))
unfolding slice at
slices bs h = cc (
  take-drop bs 0 8 8 refl,
  first-drop bs 8 (omega arith),
  first-drop bs 9 (omega arith),
  take-drop bs 10 6 16 refl,
  take-drop bs 16 8 24 refl,
  take-drop bs 24 8 32 refl,
  take-drop bs 32 8 40 refl,
  drop_all bs 40 h,
  append-nil (take 8 (drop 32 bs)),
)

All-take : (n : ℕ) (bs : Bytes) → All (λ b. b < 256) bs → All (λ b. b < 256) (take n bs)
All-take zero bs h = tt
All-take (suc n) [] h = tt
All-take (suc n) (b ∷ bs) h = (h.0, All-take n bs h.1)

All-drop : (n : ℕ) (bs : Bytes) → All (λ b. b < 256) bs → All (λ b. b < 256) (drop n bs)
All-drop zero bs h = h
All-drop (suc n) [] h = tt
All-drop (suc n) (b ∷ bs) h = All-drop n bs h.1

-- Eight bytes that are read as a number are the spelling of that number.
slice-to_le_bytes :
    (bs : Bytes) (n m : ℕ)
    → All (λ b. b < 256) bs
    → length (slice n m bs) ≡ 8
    → to_le_bytes 8 (from_le_bytes (slice n m bs)) ≡ slice n m bs
unfolding slice
slice-to_le_bytes bs n m h e =
    rw e at
      (to_le_bytes-from_le_bytes (take (m - n) (drop n bs)) (All-take (m - n) _ (All-drop n bs h)))

record_of-inverse :
    (f g b e n : ℕ) (r : Record)
    → f ≤ 1
    → g ≤ 1
    → record_of f g b e n ≡ ok r
    → (f ≡ flag r.limits.logical_file_bytes)
      × (g ≡ flag r.limits.namespace_entries)
      × (b ≡ unwrap_or r.limits.logical_file_bytes 0)
      × (e ≡ unwrap_or r.limits.namespace_entries 0)
      × (n ≡ r.generation)
unfolding record_of
record_of-inverse f g b e n r hf hg h = ground arith

decode-parts :
    (bs : Bytes) (r : Record)
    → decode bs ≡ ok r
    → (length bs ≡ 40)
      × (slice 0 8 bs ≡ magic)
      × (at 8 bs ≤ 1)
      × (at 9 bs ≤ 1)
      × (slice 10 16 bs ≡ zeros 6)
      × (record_of
            (at 8 bs)
            (at 9 bs)
            (from_le_bytes (slice 16 24 bs))
            (from_le_bytes (slice 24 32 bs))
            (from_le_bytes (slice 32 40 bs))
          ≡ ok r)
unfolding decode
decode-parts bs r h =
    ground (arith, bytes_eq_iff (slice 0 8 bs) magic, bytes_eq_iff (slice 10 16 bs) (zeros 6))

length-take-drop : (bs : Bytes) (n k : ℕ) → n + k ≤ length bs → length (take k (drop n bs)) ≡ k
length-take-drop [] zero zero h = refl
length-take-drop [] zero (suc k) h = absurd (omega arith)
length-take-drop [] (suc n) k h = absurd (omega arith)
length-take-drop (b ∷ bs) zero zero h = refl
length-take-drop (b ∷ bs) zero (suc k) h = ap suc (length-take-drop bs zero k (omega arith))
length-take-drop (b ∷ bs) (suc n) k h = length-take-drop bs n k (omega arith)

length-slice : (bs : Bytes) (n m : ℕ) → n ≤ m → m ≤ length bs → length (slice n m bs) ≡ m - n
unfolding slice
length-slice bs n m hn h = omega (arith, length-take-drop bs n (m - n))

-- Bytes that `decode` accepts are exactly the spelling of the record that it returns.
pub decode-eq-ok :
    (bs : Bytes) (r : Record)
    → All (λ b. b < 256) bs
    → decode bs ≡ ok r
    → bs ≡ write_generation r.generation (encode r.limits)
unfolding fields
decode-eq-ok bs r small h =
    let (long, marked, hf, hg, padded, e) = decode-parts bs r h in
    let (f, g, b, n, m) = record_of-inverse _ _ _ _ _ r hf hg e in
    let x = slice-to_le_bytes bs 16 24 small (length-slice bs 16 24 (omega arith) (omega arith)) in
    let y = slice-to_le_bytes bs 24 32 small (length-slice bs 24 32 (omega arith) (omega arith)) in
    let z = slice-to_le_bytes bs 32 40 small (length-slice bs 32 40 (omega arith) (omega arith)) in
    slices bs long ∙ (rw (← x, ← y, ← z, marked, padded, f, g, b, n, m)) ∙ sym (encode-layout r)
