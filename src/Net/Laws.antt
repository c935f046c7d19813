-- ===== src/Net/Laws.antt =====
-- Go's `net`: equal addresses have the same short form.
use standalone_dhcp.Prelude.{
  ℕ, ◌≡◌, refl, ap, sym, ◌∙◌, true, ◌&&◌, List, [], ◌∷◌, ◌++◌, ◌==◌, nat_eq, nat_beq_iff, length,
  arith, Bool-cases, inl, inr, ◌⊎◌, ◌+◌,
}
use standalone_dhcp.Net.{IpAddr, bytes_equal, v4_prefix, after_prefix, to4, ip_equal}

pub bytes_equal-eq : (xs ys : List ℕ) → bytes_equal xs ys ≡ true → xs ≡ ys
bytes_equal-eq [] [] h = refl
bytes_equal-eq [] (y ∷ ys) h = ground arith
bytes_equal-eq (x ∷ xs) [] h = ground arith
bytes_equal-eq (x ∷ xs) (y ∷ ys) h = ground (arith, nat_beq_iff x y, bytes_equal-eq xs ys)

pub bytes_equal_self : (xs : List ℕ) → bytes_equal xs xs ≡ true
bytes_equal_self [] = refl
bytes_equal_self (x ∷ xs) = ground (arith, bytes_equal_self xs)

pub ip_equal_self : (ip : IpAddr) → ip_equal ip ip ≡ true
unfolding ip_equal
ip_equal_self ip = ground (arith, bytes_equal_self ip)

to4_long : (ip : IpAddr) → (length ip == 4) ≡ true → to4 (v4_prefix ++ ip) ≡ ip
unfolding to4
to4_long ip h = ground arith

to4_short : (ip : IpAddr) → (length ip == 4) ≡ true → to4 ip ≡ ip
unfolding to4
to4_short ip h = ground arith

-- The two forms of one address are the same to `To4`.
pub to4-ip_equal : (x y : IpAddr) → ip_equal x y ≡ true → to4 x ≡ to4 y
unfolding ip_equal
to4-ip_equal x y h = elim (Bool-cases (length x == length y)) [
  | inl same ↦ ap to4 (bytes_equal-eq x y (rw same at h))
  | inr differ ↦ elim (Bool-cases (length x == 4 && length y == 16)) [
    | inl up ↦
        let e : v4_prefix ++ x ≡ y = bytes_equal-eq _ _ (rw (differ, up) at h) in
        to4_short x (ground arith) ∙ sym (to4_long x (ground arith)) ∙ ap to4 e
    | inr other ↦ elim (Bool-cases (length x == 16 && length y == 4)) [
      | inl down ↦
          let e : x ≡ v4_prefix ++ y = bytes_equal-eq _ _ (rw (differ, other, down) at h) in
          ap to4 e ∙ to4_long y (ground arith) ∙ sym (to4_short y (ground arith))
      | inr neither ↦ absurd (ground arith)
    ]
  ]
]

after_prefix-width :
    (xs ys : List ℕ)
    → (after_prefix xs ys ≡ []) ⊎ (length xs + length (after_prefix xs ys) ≡ length ys)
after_prefix-width [] ys = inr (omega arith)
after_prefix-width (x ∷ xs) [] = inl refl
after_prefix-width (x ∷ xs) (y ∷ ys) = elim (Bool-cases (x == y)) [
  | inr differ ↦ inl (rw differ refl)
  | inl same ↦ rw same (ground (arith, after_prefix-width xs ys))
]

-- `To4` answers four bytes, or nil.
pub to4_width : (ip : IpAddr) → (to4 ip ≡ []) ⊎ (length (to4 ip) ≡ 4)
unfolding to4
to4_width ip = ground (arith, after_prefix-width v4_prefix ip)
