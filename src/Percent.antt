-- ===== src/Percent.antt =====
-- api.go: the percentages of `handleApiReq`, which the program computes with `float64`. The numbers are
-- natural, and the two roundings are written out.
use standalone_dhcp.Prelude.{
  ℕ, zero, suc, ◌+◌, ◌*◌, ◌/◌, ◌%◌, ◌^◌, ◌||◌, Option, none, some, ◌==◌, nat_eq, ltb, leb,
  if◌then◌else◌,
}
use standalone_dhcp.Prelude.Int.{ℤ, pos}

-- The quotient of two numbers, to the nearest one, and to the even one of two.
unfoldable pub round_div : ℕ → ℕ → ℕ
round_div n d =
    let q = n / d in
    let twice = 2 * (n % d) in
    if ltb twice d then q else if ltb d twice then q + 1 else if q % 2 == 0 then q else q + 1

-- The exponent by which a fraction has the 53 bits of a `float64`.
unfoldable pub exponent : ℕ → ℕ → ℕ → ℕ → ℕ
exponent zero k a r = k
exponent (suc fuel) k a r =
    let rest = exponent fuel (k + 1) a r in if leb (2 ^ 52) (a * 2 ^ k / r) then k else rest

-- `int((float64(a) / float64(r)) * 100)`, for `0 < a ≤ r < 2 ^ 53`: both operations round to 53 bits,
-- and the product of a number of 53 bits by 100 has six or seven bits more.
unfoldable pub percent_of : ℕ → ℕ → ℕ
percent_of a r =
    let k = exponent 53 52 a r in
    let product = round_div (a * 2 ^ k) r * 100 in
    let shift = if ltb product (2 ^ 59) then 6 else 7 in
    round_div product (2 ^ shift) * 2 ^ shift / 2 ^ k

-- A share of the addresses; `none` is what is no share of them.
unfoldable pub percent : ℤ → ℤ → Option ℕ
percent (pos a) (pos r) =
    if r == 0 || ltb r a then none else if a == 0 then some 0 else some (percent_of a r)
percent a r = none
