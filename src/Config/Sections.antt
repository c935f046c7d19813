-- ===== src/Config/Sections.antt =====
-- config.go, `readConfig`: what a section of the configuration file leads to.
use standalone_dhcp.Prelude.{
  inl, inr, ℕ, ◌≤◌, ◌≡◌, refl, ◌∙◌, subst, true, false, ◌||◌, Option, none, some, String, List, [],
  ◌∷◌, ◌==◌, nat_eq, ltb, length, arith, Option-cases, Bool-cases,
}
use standalone_dhcp.Prelude.Map.{Map}
use standalone_dhcp.Net.{IpAddr, IpNet, bytes_equal, to4}
use standalone_dhcp.Net.Laws.{to4_width}
use standalone_dhcp.Convert.{Bytes, atoi}
use standalone_dhcp.Texts.{text_bytes}
use standalone_dhcp.Utils.{safe_int_to_uint64}
use standalone_dhcp.Handler.{be_uint32}
use standalone_dhcp.Pool.{DhcpPool, new_dhcp_pool}
use standalone_dhcp.Pool.Invariant.{IsValid}
use standalone_dhcp.Pool.Create.{new_dhcp_pool-IsValid, new_dhcp_pool-capacity}
use standalone_dhcp.Static.{ips_from_range, exclude_ips}
use standalone_dhcp.Static.Kept.{AllTaken, StaticTaken}
use standalone_dhcp.Static.Both.{IsSettled, both-IsSettled}
use standalone_dhcp.Dhcp.{Lib}
use standalone_dhcp.Serve.{Network}
use standalone_dhcp.Config.{
  Setting, address_of, is_wanted, is_backward, read_options, read_pool, new_handler, new_network,
  read_network,
}

no_number : (b : Bytes) → (length b == 0) ≡ true → be_uint32 b ≡ none
unfolding be_uint32
no_number [] h = refl
no_number (x ∷ xs) h = absurd (ground (arith, h))

four_bytes : (b : Bytes) → length b ≡ 4 → (n : ℕ) × (be_uint32 b ≡ some n)
unfolding be_uint32
four_bytes [] h = absurd (omega arith)
four_bytes (w ∷ []) h = absurd (omega arith)
four_bytes (w ∷ x ∷ []) h = absurd (omega arith)
four_bytes (w ∷ x ∷ y ∷ []) h = absurd (omega arith)
four_bytes (w ∷ x ∷ y ∷ z ∷ rest) h = (_, refl)

-- An address with a short form has its number.
number_of : (ip : IpAddr) → (length (to4 ip) == 0) ≡ false → (n : ℕ) × (be_uint32 (to4 ip) ≡ some n)
number_of ip h = elim (to4_width ip) [
  | inl nil ↦ absurd (let h' = rw nil at h in ground arith)
  | inr four ↦ four_bytes (to4 ip) four
]

module _ (lib : Lib) (env : Setting) where
  open lib use {dhcp4, ints, world}

  -- The addresses that `ip_reserved` names.
  abbrev pub reserved_of : Bytes → Option (List IpAddr)
  reserved_of text = ips_from_range world.parse_ipv6 env.inc env.fuel text

  -- The network of a section: its pool satisfies the invariant and has an index for each address of the
  -- range, no address that is kept out or given to a client is free in it, nothing is leased and
  -- no goroutine sleeps. The range starts at an IPv4 address, the addresses that are kept out can be
  -- read again, and the options are those of a section.
  pub record IsConfigured (v : Network lib) : Type 0 where
    pub valid : IsValid v.dhcp_handler.available
    pub sized : v.dhcp_handler.available.capacity ≡ safe_int_to_uint64 v.dhcp_handler.lease_range
    pub excluded :
        (ips : List IpAddr)
        → reserved_of v.dhcp_handler.ip_reserved ≡ some ips
        → AllTaken v.dhcp_handler.start ips v.dhcp_handler.available
    pub assigned : StaticTaken v.dhcp_handler.ip_assigned v.dhcp_handler.available
    pub empty : (mac : String) → ints.get v.dhcp_handler.hwcache mac ≡ none
    pub idle : v.timers ≡ []
    pub numbered : (first : ℕ) × (be_uint32 (to4 v.dhcp_handler.start) ≡ some first)
    pub readable : (ips : List IpAddr) × (reserved_of v.dhcp_handler.ip_reserved ≡ some ips)
    pub optioned : (sec : String → Bytes) × (v.dhcp_handler.options ≡ read_options lib env sec)

  read_pool_parts :
      (sec : String → Bytes) (p : DhcpPool) (couple : Map String ℕ)
      → read_pool lib env sec ≡ some (p, couple)
      → (ips : List IpAddr) × (reserved_of (sec "ip_reserved") ≡ some ips)
        × IsSettled
            (address_of lib env sec "dhcp_start")
            ips
            (new_dhcp_pool env.now
              (safe_int_to_uint64 (
                dhcp4.ip_range
                  (address_of lib env sec "dhcp_start")
                  (address_of lib env sec "dhcp_end")))
              (atoi (sec "algorithm")))
            p
            couple
  unfolding read_pool
  read_pool_parts sec p couple e = elim (Option-cases (reserved_of (sec "ip_reserved"))) [
    | inl endless ↦ absurd (let e' = rw (endless, read_pool) at e in ground arith)
    | inr (ips, found) ↦
        elim (Option-cases (
          exclude_ips (address_of lib env sec "dhcp_start") ips (
            new_dhcp_pool env.now
              (safe_int_to_uint64 (
                dhcp4.ip_range (address_of lib env sec "dhcp_start")
                  (address_of lib env sec "dhcp_end")))
              (atoi (sec "algorithm"))))) [
                | inl bad ↦ absurd (let e' = rw (found, bad, read_pool) at e in ground arith)
                | inr (q, excluded) ↦ (
                  ips,
                  found,
                  both-IsSettled _ ips _ _ q p couple (new_dhcp_pool-IsValid _ _ _) excluded
                      (rw (found, excluded, read_pool) at e),
                )
              ]
  ]

  read_pool-IsConfigured :
      (ip : IpAddr) (net : IpNet) (sec : String → Bytes) (p : DhcpPool) (couple : Map String ℕ)
      (first : ℕ)
      → be_uint32 (to4 (address_of lib env sec "dhcp_start")) ≡ some first
      → read_pool lib env sec ≡ some (p, couple)
      → IsConfigured (record {
        network = net;
        dhcp_handler = new_handler lib env ip sec p couple;
        timers = [];
      })
  unfolding new_handler
  read_pool-IsConfigured ip net sec p couple first at_first e =
      let (ips, found, settled) = read_pool_parts sec p couple e in
      record {
        valid = settled.valid;
        sized = settled.sized ∙ new_dhcp_pool-capacity _ _ _;
        excluded = λ ips' found'.
            let same : ips ≡ ips' = ground (arith, found, found') in
            subst (λ l. AllTaken (address_of lib env sec "dhcp_start") l p) same settled.excluded;
        assigned = settled.assigned;
        empty = λ mac. ints.get-new _ _ mac;
        idle = refl;
        numbered = (first, at_first);
        readable = (ips, found);
        optioned = (sec, refl);
      }

  -- A section that is taken: it is enabled, its range is in the network of the interface, or the
  -- next hop is, and the range goes from an IPv4 address to the same or a later one.
  pub record IsTaken (net : IpNet) (sec : String → Bytes) : Type 0 where
    pub enabled : bytes_equal (sec "dhcpd") (text_bytes "disabled") ≡ false
    pub wanted : is_wanted lib env net sec ≡ true
    pub range :
        (first last : ℕ) × (be_uint32 (to4 (address_of lib env sec "dhcp_start")) ≡ some first)
        × (be_uint32 (to4 (address_of lib env sec "dhcp_end")) ≡ some last)
        × (first ≤ last)

  -- A range goes one way or the other as soon as both ends are IPv4 addresses.
  is_backward_lem :
      (sec : String → Bytes) (first last : ℕ)
      → be_uint32 (to4 (address_of lib env sec "dhcp_start")) ≡ some first
      → be_uint32 (to4 (address_of lib env sec "dhcp_end")) ≡ some last
      → is_backward lib env sec ≡ some (ltb last first)
  unfolding is_backward
  is_backward_lem sec first last e f = rw (e, f, is_backward) refl

  not-IsTaken :
      (net : IpNet) (sec : String → Bytes)
      → (length (to4 (address_of lib env sec "dhcp_start")) == 0
          || length (to4 (address_of lib env sec "dhcp_end")) == 0)
        ≡ true
      → ¬ IsTaken net sec
  not-IsTaken net sec h t =
      let (first, last, e, f, le) = t.range in
      ground (
        arith,
        no_number (to4 (address_of lib env sec "dhcp_start")),
        no_number (to4 (address_of lib env sec "dhcp_end")),
        e,
        f,
      )

  -- What a section leads to: a network only if it is taken, and nothing only if it is not; a panic,
  -- or a range without an end, only in the addresses that are kept out or given to clients.
  abbrev pub IsAnswered : IpNet → (String → Bytes) → Option (Option (Network lib)) → Type 0
  IsAnswered net sec none = IsTaken net sec × (read_pool lib env sec ≡ none)
  IsAnswered net sec (some none) = ¬ IsTaken net sec
  IsAnswered net sec (some (some v)) = IsTaken net sec × IsConfigured v

  new_network-IsAnswered :
      (ip : IpAddr) (net : IpNet) (name : Bytes) (sec : String → Bytes)
      (r : Option (DhcpPool × Map String ℕ))
      → read_pool lib env sec ≡ r
      → IsTaken net sec
      → IsAnswered net sec (new_network lib env ip name sec r)
  new_network-IsAnswered ip net name sec none e t = (t, e)
  new_network-IsAnswered ip net name sec (some (p, couple)) e t =
      let (first, last, at_first, at_last, le) = t.range in
      (t, read_pool-IsConfigured ip _ sec p couple first at_first e)

  range-IsAnswered :
      (ip : IpAddr) (net : IpNet) (name : Bytes) (sec : String → Bytes)
      → bytes_equal (sec "dhcpd") (text_bytes "disabled") ≡ false
      → is_wanted lib env net sec ≡ true
      → (first last : ℕ) → be_uint32 (to4 (address_of lib env sec "dhcp_start")) ≡ some first
      → be_uint32 (to4 (address_of lib env sec "dhcp_end")) ≡ some last
      → IsAnswered net sec (elim (ltb last first) [
        | true ↦ some none
        | false ↦ new_network lib env ip name sec (read_pool lib env sec)
      ])
  range-IsAnswered ip net name sec on wanted first last e f = elim (Bool-cases (ltb last first)) [
    | inl backward ↦
        rw backward
          (λ t. let (a, b, e', f', le) = t.range in ground (arith, e, f, e', f', le, backward))
    | inr forward ↦ rw forward (
        new_network-IsAnswered ip net name sec (read_pool lib env sec) refl (record {
          enabled = on;
          wanted = wanted;
          range = (first, last, e, f, ground (arith, forward));
        }))
  ]

  -- A section leads to a network only if it is enabled, has its range or its next hop in the
  -- network of the interface, and has a range of IPv4 addresses that goes forward; it is passed
  -- over only if one of these fails; and the reading breaks off only if they hold and the pool of
  -- the section cannot be made. The network has a pool that satisfies the invariant, with an index
  -- for each address of the range, none of which is free if its address is kept out or its index is
  -- given to a client; nothing is leased, and no goroutine sleeps.
  pub read_network-IsAnswered :
      (ip : IpAddr) (net : IpNet) (name : Bytes) (sec : String → Bytes)
      → IsAnswered net sec (read_network lib env ip net name sec)
  unfolding read_network
  read_network-IsAnswered ip net name sec =
      elim (Bool-cases (bytes_equal (sec "dhcpd") (text_bytes "disabled"))) [
        | inl off ↦ rw off (λ t. ground (arith, off, t.enabled))
        | inr on ↦ elim (Bool-cases (is_wanted lib env net sec)) [
          | inr away ↦ rw (on, away) (λ t. ground (arith, away, t.wanted))
          | inl wanted ↦
              elim (Bool-cases (
                length (to4 (address_of lib env sec "dhcp_start")) == 0
                || length (to4 (address_of lib env sec "dhcp_end")) == 0)) [
                  | inl malformed ↦ rw (on, wanted, malformed) (not-IsTaken net sec malformed)
                  | inr formed ↦
                      let (first, e) =
                        number_of (address_of lib env sec "dhcp_start") (ground (arith, formed)) in
                      let (last, f) =
                        number_of (address_of lib env sec "dhcp_end") (ground (arith, formed)) in
                      rw (on, wanted, formed, is_backward_lem sec first last e f)
                        (range-IsAnswered ip net name sec on wanted first last e f)
                ]
        ]
      ]
