-- ===== src/Api/Statistics/Accounts.antt =====
-- api.go: what the statistics of a network say of its pool.
use standalone_dhcp.Prelude.{
  ℕ, ◌+◌, ◌≤◌, ◌≡◌, ◌≢◌, ◌↔◌, inl, inr, refl, sym, ap, ◌∙◌, Option, some, String, List, [], ◌==◌,
  nat_eq, string_eq, length, arith, Option-cases, Bool-cases,
}
use standalone_dhcp.Prelude.Int.{ℤ, pos, int_eq, ◌-ℤ◌}
use standalone_dhcp.Net.{IpAddr}
use standalone_dhcp.Convert.{Bytes}
use standalone_dhcp.Utils.{safe_uint64_to_int, max_int}
use standalone_dhcp.Pool.{DhcpPool, free_ips_remaining}
use standalone_dhcp.Pool.Invariant.{IsValid}
use standalone_dhcp.Static.{ips_from_range}
use standalone_dhcp.Dhcp.{Lib}
use standalone_dhcp.Serve.{Network}
use standalone_dhcp.Texts.{lease_text}
use standalone_dhcp.Prelude.Map.{insert}
use standalone_dhcp.Api.Leases.{Node}
use standalone_dhcp.Api.Statistics.{Stats, count_of, option_texts, members_of, status_of, stats_of}
use text.Mathlib.TextLemmas.{cons-append}
use Prim.Native.Char.{code}
use Prim.Native.String.{◌++◌}

-- The pool of a handler as `readConfig` makes it: valid, and with an index for each address of the
-- range, whose number fits an `int`.
pub record IsSizedPool (p : DhcpPool) (lease_range : ℤ) : Type 0 where
  pub valid : IsValid p
  pub sized : lease_range ≡ pos p.capacity
  pub fits : p.capacity ≤ max_int

available-pos :
    (p : DhcpPool) (r : ℤ)
    → IsSizedPool p r
    → safe_uint64_to_int (free_ips_remaining p) ≡ pos (length p.free)
unfolding safe_uint64_to_int free_ips_remaining
available-pos p r h = ground (arith, h.valid.counted, h.fits)

first_code : String → ℕ
first_code String.[] = 0
first_code (String.◌∷◌ c s) = code c

mismatch_text : (s : String) → "Calculated available IP " ++ s ≢ "Normal"
unfolding first_code
mismatch_text s e =
    let h : "Calculated available IP " ++ s ≡ String.◌∷◌ "C" ("alculated available IP " ++ s) =
      cons-append "C" "alculated available IP " s in
    let k : ◌≡◌ {A = ℕ} 67 78 = ap first_code (sym h ∙ e) in absurd (omega (arith, k))

-- The status is a text of its own for a mismatch.
status_of-normal :
    (lease_range available : ℤ) (count : ℕ)
    → (status_of lease_range available count ≡ "Normal") ↔ (pos count ≡ lease_range -ℤ available)
unfolding status_of
status_of-normal lease_range available count =
    elim (Bool-cases (pos count == lease_range -ℤ available)) [
      | inl same ↦
          rw same
            ((λ e. (int_eq.equal_iff (pos count) (lease_range -ℤ available)).0 same), (λ e. refl))
      | inr differ ↦ rw differ (
        (λ e. absurd (mismatch_text _ e)),
        (λ e. absurd (
            let h = (int_eq.equal_iff (pos count) (lease_range -ℤ available)).1 e in
            ground (arith, h, differ))),
      )
    ]

-- What the statistics of a network say: the free addresses and the used ones make up the range, the
-- used ones are those that the pool holds, and the status is normal exactly if the leases and the
-- addresses that are kept out are as many.
pub record IsAccounted (h : DhcpPool) (reserved : List IpAddr) (s : Stats) : Type 0 where
  pub free : s.free ≡ pos (length h.free)
  pub used : s.used ≡ pos (length h.mac)
  pub normal : (s.status ≡ "Normal") ↔ (count_of s.members reserved ≡ length h.mac)

used_pos : (f m c : ℕ) → f + m ≡ c → pos c -ℤ pos f ≡ pos m
used_pos f m c e = ground arith

-- From the fields of the statistics.
accounted :
    (p : DhcpPool) (r : ℤ) (s : Stats) (members : List Node) (reserved : List IpAddr)
    → IsSizedPool p r
    → safe_uint64_to_int (free_ips_remaining p) ≡ s.free
    → r -ℤ safe_uint64_to_int (free_ips_remaining p) ≡ s.used
    → members ≡ s.members
    → status_of r (safe_uint64_to_int (free_ips_remaining p)) (count_of members reserved) ≡ s.status
    → IsAccounted p reserved s
accounted p r s members reserved h free used listed status =
    let available = available-pos p r h in
    let held : r -ℤ safe_uint64_to_int (free_ips_remaining p) ≡ pos (length p.mac) =
      rw (available, h.sized)
        (used_pos (length p.free) (length p.mac) p.capacity h.valid.counted) in
    let n =
      status_of-normal r (safe_uint64_to_int (free_ips_remaining p)) (count_of members reserved) in
    let same : count_of members reserved ≡ count_of s.members reserved =
      ap (λ l. count_of l reserved) listed in
    record {
      free = sym free ∙ available;
      used = sym used ∙ held;
      normal = (
        λ e. let c = n.0 (status ∙ e) ∙ held in ground (arith, c, same),
        λ e.
            let c : pos (count_of members reserved) ≡ pos (length p.mac) = ap pos (same ∙ e) in
            sym status ∙ n.1 (c ∙ sym held),
      );
    }

module _ (lib : Lib) (inc : IpAddr → IpAddr) (fuel : ℕ) (of_bytes : Bytes → String) where
  open lib use {ints, world}

  abbrev pub reserved_by : Network lib → Option (List IpAddr)
  reserved_by v = ips_from_range world.parse_ipv6 inc fuel v.dhcp_handler.ip_reserved

  -- If the statistics of a network are answered, for a pool that satisfies the invariant, has an
  -- index for each address of the range, and a capacity that fits an `int`: the free addresses are
  -- as many as the free indices, the used ones as the held indices, and the status is normal
  -- exactly if the count of the members and of the addresses that are kept out, which leaves out a
  -- single one, is the number of the held indices.
  pub stats_of-IsAccounted :
      (name : String) (v : Network lib) (s : Stats) (reserved : List IpAddr)
      → IsSizedPool v.dhcp_handler.available v.dhcp_handler.lease_range
      → stats_of lib inc fuel of_bytes name v ≡ some s
      → reserved_by v ≡ some reserved
      → IsAccounted v.dhcp_handler.available reserved s
  unfolding stats_of
  stats_of-IsAccounted name v s reserved sized e r =
      let h = v.dhcp_handler in
      elim (Option-cases (
        option_texts lib inc fuel of_bytes h.options
          (insert "optionIPAddressLeaseTime" (lease_text h.lease_duration) []))) [
            | inl panic ↦ absurd (let e' = rw (panic, stats_of) at e in ground arith)
            | inr (options, o) ↦
                elim (Option-cases
                  (members_of lib inc fuel of_bytes h.start (ints.items h.hwcache))) [
                    | inl panic ↦ absurd (let e' = rw (o, panic, stats_of) at e in ground arith)
                    | inr (members, m) ↦
                        let available = safe_uint64_to_int (free_ips_remaining h.available) in
                        let e' = rw (o, m, r, stats_of) at e in
                        let free : available ≡ s.free = ground (arith, e') in
                        let used : h.lease_range -ℤ available ≡ s.used = ground (arith, e') in
                        let listed : members ≡ s.members = ground (arith, e') in
                        let status : status_of h.lease_range available (count_of members reserved)
                            ≡ s.status =
                          ground (arith, e') in
                        accounted h.available h.lease_range s members reserved sized free used
                          listed status
                  ]
          ]
