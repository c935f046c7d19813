-- ===== src/Static/Ranges.antt =====
-- utils.go: when the loop over a range of addresses ends.
use standalone_dhcp.Prelude.{
  ℕ, zero, suc, ◌<◌, ◌≡◌, refl, true, false, none, some, List, [], ◌∷◌, length, arith, nat_eq,
}
use standalone_dhcp.Net.{IpAddr, ip_equal}
use standalone_dhcp.Net.Laws.{ip_equal_self}
use standalone_dhcp.Static.{range_from, reread}

-- `n` times `inc`.
abbrev pub after : (IpAddr → IpAddr) → ℕ → IpAddr → IpAddr
after inc zero ip = ip
after inc (suc n) ip = after inc n (inc ip)

module _ (inc : IpAddr → IpAddr) where
  range_from_stop :
      (fuel : ℕ) (start end : IpAddr)
      → ip_equal start end ≡ true
      → range_from inc (suc fuel) start end ≡ some (reread start ∷ [])
  unfolding range_from
  range_from_stop fuel start end e = rw e refl

  range_from_go :
      (fuel : ℕ) (start end : IpAddr) (ips : List IpAddr)
      → ip_equal start end ≡ false
      → range_from inc fuel (inc start) end ≡ some ips
      → range_from inc (suc fuel) start end ≡ some (reread start ∷ ips)
  unfolding range_from
  range_from_go fuel start end ips e h = rw (e, h, range_from) refl

  -- The addresses of a range of `n + 1`: the `k`-th is `k` times `inc` of the first.
  abbrev pub members : ℕ → IpAddr → List IpAddr
  members zero ip = reread ip ∷ []
  members (suc n) ip = reread ip ∷ members n (inc ip)

  -- A range whose last address is reached from the first by `n` times `inc`, and not before, has
  -- those `n + 1` addresses, and `n + 1` rounds are enough.
  pub range_from-members :
      (n : ℕ) (start : IpAddr)
      → ((k : ℕ) → k < n → ip_equal (after inc k start) (after inc n start) ≡ false)
      → range_from inc (suc n) start (after inc n start) ≡ some (members n start)
  range_from-members zero start h = range_from_stop 0 start start (ip_equal_self start)
  range_from-members (suc n) start h =
      range_from_go (suc n) start (after inc n (inc start)) (members n (inc start))
        (h 0 (omega arith))
        (range_from-members n (inc start) λ k below. h (suc k) (omega (arith, below)))

  nil_apart : (ip : IpAddr) → 0 < length ip → ip_equal ip [] ≡ false
  unfolding ip_equal
  nil_apart ip h = ground arith

  go_none :
      (fuel : ℕ) (start end : IpAddr)
      → ip_equal start end ≡ false
      → range_from inc fuel (inc start) end ≡ none
      → range_from inc (suc fuel) start end ≡ none
  unfolding range_from
  go_none fuel start end e h = rw (e, h, range_from) refl

  -- If `inc` keeps the length of an address: a range whose first address parses and whose last one
  -- does not has no end, whatever the number of rounds.
  pub range_from_endless :
      (fuel : ℕ) (start : IpAddr)
      → ((ip : IpAddr) → length (inc ip) ≡ length ip)
      → 0 < length start
      → range_from inc fuel start [] ≡ none
  unfolding range_from
  range_from_endless zero start same h = refl
  range_from_endless (suc fuel) start same h =
      go_none fuel start [] (nil_apart start h)
        (range_from_endless fuel (inc start) same (rw (same start) h))
