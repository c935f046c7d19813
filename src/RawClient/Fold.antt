-- ===== src/RawClient/Fold.antt =====
-- rawClient.go: the loops of `checksum` end, and what they compute.
use standalone_dhcp.Prelude.{
  ℕ, suc, ◌+◌, ◌-◌, ◌*◌, ◌/◌, ◌%◌, ◌^◌, ◌≤◌, ◌<◌, ◌≡◌, refl, some, List, [], ◌∷◌, nat_eq, ltb,
  length, arith, All, ap, subst, sym, ltb→lt, ltb→le, lt→ltb, Bool-cases, inl, inr, ◌∙◌,
}
use native.Mathlib.Nat.{zero-add}
use standalone_dhcp.RawClient.{sum_pairs, add_last, fold_sum, complement, checksum}

-- The sum of a buffer as 16-bit words, the last byte of an odd one with a zero behind it.
abbrev pub word_sum : List ℕ → ℕ
word_sum [] = 0
word_sum (b ∷ []) = b * 256
word_sum (b ∷ c ∷ buf) = b * 256 + c + word_sum buf

sum_pairs-cons :
    (sum b c : ℕ) (buf : List ℕ)
    → sum + (b * 256 + c) < 2 ^ 32
    → add_last (sum_pairs sum (b ∷ c ∷ buf)) ≡ add_last (sum_pairs (sum + (b * 256 + c)) buf)
unfolding sum_pairs
sum_pairs-cons sum b c buf h =
    let e : (sum + (b * 2 ^ 8 + c)) % 2 ^ 32 ≡ sum + (b * 256 + c) = omega arith in
    ap (λ s. add_last (sum_pairs s buf)) e

sum_pairs-short :
    (sum b : ℕ)
    → sum + b * 256 < 2 ^ 32
    → (add_last (sum_pairs sum []) ≡ sum) × (add_last (sum_pairs sum (b ∷ [])) ≡ sum + b * 256)
unfolding sum_pairs add_last
sum_pairs-short sum b h = (refl, omega arith)

-- Without an overflow of 32 bits the first loop computes that sum.
pub sum_pairs-word_sum :
    (sum : ℕ) (buf : List ℕ)
    → sum + word_sum buf < 2 ^ 32
    → add_last (sum_pairs sum buf) ≡ sum + word_sum buf
sum_pairs-word_sum sum [] h = omega (arith, (sum_pairs-short sum 0 (omega arith)).0)
sum_pairs-word_sum sum (b ∷ []) h = (sum_pairs-short sum b (omega arith)).1
sum_pairs-word_sum sum (b ∷ c ∷ buf) h = omega (
  arith,
  sum_pairs-cons sum b c buf (omega arith),
  sum_pairs-word_sum (sum + (b * 256 + c)) buf (omega arith),
)

-- One round on a sum of more than 16 bits.
fold_round :
    (sum : ℕ)
    → sum < 2 ^ 32
    → 0xffff < sum
    → (s : ℕ) × ((sum / 2 ^ 16 + sum % 2 ^ 16) % 2 ^ 32 ≡ s)
      × (s ≤ 0x1fffe)
      × (0 < s)
      × (s % 0xffff ≡ sum % 0xffff)
      × (0x10000 * (s - 0xffff) ≤ sum)
fold_round sum h big =
    (sum / 2 ^ 16 + sum % 2 ^ 16, omega arith, omega arith, omega arith, omega arith, omega arith)

-- What the second loop answers for a sum.
pub record IsFolded (sum r : ℕ) : Type 0 where
  pub fits : r ≤ 0xffff
  pub congruent : r % 0xffff ≡ sum % 0xffff
  pub positive : 0 < sum → 0 < r

fold_sum_done : (fuel sum : ℕ) → sum ≤ 0xffff → fold_sum (suc fuel) sum ≡ some sum
unfolding fold_sum
fold_sum_done fuel sum h = ground arith

fold_sum_more :
    (fuel sum s : ℕ)
    → 0xffff < sum
    → (sum / 2 ^ 16 + sum % 2 ^ 16) % 2 ^ 32 ≡ s
    → fold_sum (suc fuel) sum ≡ fold_sum fuel s
unfolding fold_sum
fold_sum_more fuel sum s h e = rw (e, lt→ltb 0xffff sum h)

-- A second round leaves at most 16 bits.
fold_sum_last :
    (fuel sum : ℕ)
    → sum ≤ 0x1fffe
    → (r : ℕ) × (fold_sum (suc (suc fuel)) sum ≡ some r) × IsFolded sum r
fold_sum_last fuel sum h = elim (Bool-cases (ltb 0xffff sum)) [
  | inr small ↦ (
    sum,
    fold_sum_done (suc fuel) sum (ltb→le _ _ small),
    record { fits = ltb→le _ _ small; congruent = refl; positive = λ k. k },
  )
  | inl big ↦
      let (s, e, _, pos, cong, _) = fold_round sum (omega arith) (ltb→lt _ _ big) in
      let small : s ≤ 0xffff = omega (arith, ltb→lt _ _ big) in
      (
        s,
        fold_sum_more (suc fuel) sum s (ltb→lt _ _ big) e ∙ fold_sum_done fuel s small,
        record { fits = small; congruent = cong; positive = λ _. pos },
      )
]

-- Three rounds are enough for a sum of 32 bits. The result has 16 bits, is congruent to the sum
-- modulo 2 ^ 16 - 1, and is positive if the sum is.
pub fold_sum_ends : (sum : ℕ) → sum < 2 ^ 32 → (r : ℕ) × (fold_sum 3 sum ≡ some r) × IsFolded sum r
fold_sum_ends sum h = elim (Bool-cases (ltb 0xffff sum)) [
  | inr small ↦ (
    sum,
    fold_sum_done 2 sum (ltb→le _ _ small),
    record { fits = ltb→le _ _ small; congruent = refl; positive = λ k. k },
  )
  | inl big ↦
      let (s, e, below, pos, cong, _) = fold_round sum h (ltb→lt _ _ big) in
      let (r, done, folded) = fold_sum_last 0 s below in
      (
        r,
        fold_sum_more 2 sum s (ltb→lt _ _ big) e ∙ done,
        record {
          fits = folded.fits;
          congruent = folded.congruent ∙ cong;
          positive = λ _. folded.positive pos;
        },
      )
]

-- The checksum of a buffer without overflow: it is found, it is no zero, and with the sum of the
-- buffer it makes up a multiple of 2 ^ 16 - 1.
pub record IsChecksum (sum c : ℕ) : Type 0 where
  pub nonzero : 0 < c
  pub fits : c ≤ 0xffff
  pub cancels : (sum + c) % 0xffff ≡ 0

complement-IsChecksum : (sum r : ℕ) → IsFolded sum r → IsChecksum sum (complement r)
unfolding complement
complement-IsChecksum sum r f = ground arith

-- For a buffer whose sum of 16-bit words fits 32 bits: the checksum is found, it is not zero, it
-- fits 16 bits, and with the sum of the buffer it makes up a multiple of 2 ^ 16 - 1.
pub checksum-IsChecksum :
    (buf : List ℕ)
    → word_sum buf < 2 ^ 32
    → (c : ℕ) × (checksum buf ≡ some c) × IsChecksum (word_sum buf) c
unfolding checksum
checksum-IsChecksum buf h =
    let (r, done, folded) = fold_sum_ends (word_sum buf) h in
    let e : add_last (sum_pairs 0 buf) ≡ word_sum buf =
      sum_pairs-word_sum 0 buf (omega arith) ∙ zero-add (word_sum buf) in
    let done' : fold_sum 3 (add_last (sum_pairs 0 buf)) ≡ some r =
      subst (λ s. fold_sum 3 s ≡ some r) (sym e) done in
    (complement r, rw (done', checksum), complement-IsChecksum (word_sum buf) r folded)

-- A buffer with its checksum put in adds up to all ones, as the receiver expects.
pub fold_sum-verifies :
    (sum sum' c : ℕ)
    → IsChecksum sum c
    → sum' ≡ sum + c
    → sum' < 2 ^ 32
    → fold_sum 3 sum' ≡ some 0xffff
fold_sum-verifies sum sum' c k e h =
    let (r, done, folded) = fold_sum_ends sum' h in
    let all_ones : r ≡ 0xffff =
      omega (arith, k.cancels, k.nonzero, folded.congruent, folded.fits, folded.positive) in
    done ∙ ap some all_ones

-- A loose bound on the sum of bytes.
pub word_sum-le : (buf : List ℕ) → All (λ b. b < 256) buf → word_sum buf ≤ 65280 * length buf
word_sum-le [] h = omega arith
word_sum-le (b ∷ []) h = omega arith
word_sum-le (b ∷ c ∷ buf) h = omega (arith, word_sum-le buf h.1.1)
