-- ===== src/Serve/Dispatch.antt =====
-- interface.go: which network serves a packet.
use standalone_dhcp.Prelude.{
  ℕ, zero, suc, ◌+◌, ◌≡◌, refl, ◌⊎◌, inl, inr, true, false, Option, none, some, List, [], ◌∷◌,
  Bool-cases, arith,
}
use standalone_dhcp.Net.{contains, ip_equal, ipv4_zero}
use standalone_dhcp.Dhcp.{Lib}
use standalone_dhcp.Serve.{Network, serves, detect}

module _ (lib : Lib) where
  open lib use {dhcp4}

  -- A network is the one for a packet: it has the client's own address; or there is a relay, and it
  -- has the address of the relay; or there are neither, and it is a local one.
  abbrev pub IsFor : dhcp4.Packet → Network lib → Type 0
  IsFor p v =
      (contains v.network (dhcp4.ciaddr p) ≡ true)
      ⊎ (((ip_equal (dhcp4.giaddr p) ipv4_zero ≡ false)
            × (contains v.network (dhcp4.giaddr p) ≡ true))
          ⊎ ((ip_equal (dhcp4.giaddr p) ipv4_zero ≡ true)
              × ((ip_equal (dhcp4.ciaddr p) ipv4_zero ≡ true) × (v.dhcp_handler.layer2 ≡ true))))

  serves_only : (p : dhcp4.Packet) (v : Network lib) → serves lib p v ≡ true → IsFor p v
  unfolding serves
  serves_only p v h = elim (Bool-cases (contains v.network (dhcp4.ciaddr p))) [
    | inl local ↦ inl local
    | inr away ↦ inr (elim (Bool-cases (ip_equal (dhcp4.giaddr p) ipv4_zero)) [
      | inl direct ↦ inr (direct, (ground (arith, h), ground (arith, h)))
      | inr relayed ↦ inl (relayed, ground (arith, h))
    ])
  ]

  serves_all : (p : dhcp4.Packet) (v : Network lib) → IsFor p v → serves lib p v ≡ true
  unfolding serves
  serves_all p v (inl local) = ground (arith, local)
  serves_all p v (inr (inl (relayed, inside))) = ground (arith, relayed, inside)
  serves_all p v (inr (inr (direct, (new, near)))) = ground (arith, direct, new, near)

  serves_not : (p : dhcp4.Packet) (v : Network lib) → serves lib p v ≡ false → ¬ IsFor p v
  serves_not p v h f = let e = serves_all p v f in ground (arith, h, e)

  -- The network at a place is for the packet, and none before it is.
  abbrev pub IsFirst : dhcp4.Packet → List (Network lib) → ℕ → Network lib → Type 0
  IsFirst p [] n v = ⊥
  IsFirst p (w ∷ rest) zero v = (v ≡ w) × IsFor p w
  IsFirst p (w ∷ rest) (suc n) v = (¬ IsFor p w) × IsFirst p rest n v

  -- No network of the list is for the packet.
  abbrev pub IsForNone : dhcp4.Packet → List (Network lib) → Type 0
  IsForNone p [] = Unit
  IsForNone p (w ∷ rest) = (¬ IsFor p w) × IsForNone p rest

  abbrev pub IsDetected : dhcp4.Packet → ℕ → List (Network lib) → Option (ℕ × Network lib) → Type 0
  IsDetected p k ws none = IsForNone p ws
  IsDetected p k ws (some (n, v)) = (j : ℕ) × (n ≡ j + k) × IsFirst p ws j v

  IsDetected-later :
      (p : dhcp4.Packet) (k : ℕ) (w : Network lib) (ws : List (Network lib))
      (r : Option (ℕ × Network lib))
      → ¬ IsFor p w
      → IsDetected p (suc k) ws r
      → IsDetected p k (w ∷ ws) r
  IsDetected-later p k w ws none e h = (e, h)
  IsDetected-later p k w ws (some (n, v)) e (j, number, first) =
      (suc j, omega (arith, number), (e, first))

  -- The loop finds the first network of the list that is for the packet, with its place: it has the
  -- client's own address; or there is a relay, and it has the address of the relay; or there are
  -- neither, and it is a local one. It finds none only if no network of the list is for the packet.
  pub detect-IsDetected :
      (p : dhcp4.Packet) (k : ℕ) (ws : List (Network lib)) → IsDetected p k ws (detect lib p k ws)
  unfolding detect
  detect-IsDetected p k [] = tt
  detect-IsDetected p k (w ∷ ws) = elim (Bool-cases (serves lib p w)) [
    | inl one ↦ rw one (0, omega arith, (refl, serves_only p w one))
    | inr other ↦ rw other (
        IsDetected-later p k w ws (detect lib p (suc k) ws) (serves_not p w other)
          (detect-IsDetected p (suc k) ws))
  ]
