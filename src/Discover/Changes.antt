-- ===== src/Discover/Changes.antt =====
-- interface.go, the case `dhcp.Discover`: what it may do to the pool.
use standalone_dhcp.Prelude.{
  ℕ, subst, inl, inr, Bool, true, false, Option, none, some, String, ◌==◌, string_eq, if◌then◌else◌,
  ltb, Bool-cases, Option-cases,
}
use standalone_dhcp.Prelude.Int.{ℤ, negsuc, int_eq}
use standalone_dhcp.Net.{IpAddr, to4}
use standalone_dhcp.Convert.{Bytes}
use standalone_dhcp.Pool.{
  DhcpPool, free_mac, fake_mac, get_mac_index, reserve_ip_index, get_free_ip_index,
  free_ips_remaining,
}
use standalone_dhcp.Pool.Invariant.{IsValid}
use standalone_dhcp.Pool.Run.{reserves, allocates, Reach, here, next, Reach-IsValid, Reach-trans}
use standalone_dhcp.Utils.{safe_int_to_uint64, set_option_server_identifier}
use standalone_dhcp.Dhcp.{Lib}
use standalone_dhcp.Handler.{State, pool_of, with_pool, hwcache_delete, be_uint32}
use standalone_dhcp.Discover.{
  is_nil, Requested, refused, kept, faulted, try_index, try_requested, sub_uint32, Request,
  next_free, offers, silent, panics, Round, again, done, give_up, check_address, take_address,
  retry_round, lock_offer, confirm_offer,
}
use standalone_dhcp.Discover.Offer.{IsFair}
use standalone_dhcp.Request.Grant.{hwcache_delete-pool}

pub reserved : (i : ℕ) (m : String) (p : DhcpPool) → Reach p (reserve_ip_index i m p).0
reserved i m p = next here (reserves i m)

abbrev RequestedFrom : DhcpPool → Requested → Type 0
RequestedFrom p refused = Unit
RequestedFrom p faulted = Unit
RequestedFrom p (kept f p') = Reach p p'

kept-from :
    (b : Bool) (f f' : ℤ) (p p' : DhcpPool)
    → Reach p p'
    → RequestedFrom p (if b then kept f p' else kept f' p')
kept-from true f f' p p' r = r
kept-from false f f' p p' r = r

try_index-from :
    (client : String) (i : ℕ) (f : ℤ) (p : DhcpPool) → RequestedFrom p (try_index client i f p)
unfolding try_index
try_index-from client i f p = elim (Bool-cases ((get_mac_index i p).1 == client)) [
  | inl own ↦ rw own here
  | inr other ↦ elim (Bool-cases ((get_mac_index i p).1 == free_mac)) [
    | inr taken ↦ rw (other, taken) tt
    | inl vacant ↦ rw (other, vacant) (kept-from _ _ _ p _ (reserved i client p))
  ]
]

try_requested-from :
    (client : String) (bytes : Option Bytes) (first_try : Bool) (start : IpAddr) (f : ℤ)
    (p : DhcpPool)
    → RequestedFrom p (try_requested client bytes first_try start f p)
unfolding try_requested
try_requested-from client none first_try start f p = here
try_requested-from client (some b) false start f p = here
try_requested-from client (some b) true start f p = elim (Option-cases (be_uint32 b)) [
  | inl short ↦ rw (short, try_requested) tt
  | inr (wanted, e) ↦ elim (Option-cases (be_uint32 (to4 start))) [
    | inl short ↦ rw (e, short, try_requested) tt
    | inr (first, e') ↦
        rw (e, e', try_requested) (try_index-from client (sub_uint32 wanted first) f p)
  ]
]

module _ (lib : Lib) where
  open lib use {ints, world, dhcp4}

  -- The pool after a pass comes from a pool by calls of its methods.
  abbrev pub RoundFrom : DhcpPool → Round (State lib) → Type 0
  RoundFrom p (again b f s) = Reach p (pool_of lib s)
  RoundFrom p (done (offers f s)) = Reach p (pool_of lib s)
  RoundFrom p (done (silent s)) = Reach p (pool_of lib s)
  RoundFrom p (done (panics s)) = Reach p (pool_of lib s)

  give_up-from :
      (q : Request lib) (f : ℤ) (s : State lib)
      → Reach (pool_of lib s) (pool_of lib (give_up lib q f s))
  unfolding give_up
  give_up-from q f s =
      subst
        (λ p.
          Reach p
            (reserve_ip_index (safe_int_to_uint64 f) fake_mac
              (pool_of lib (hwcache_delete lib q.client s))).0)
        (hwcache_delete-pool lib q.client s)
        (reserved (safe_int_to_uint64 f) fake_mac (pool_of lib (hwcache_delete lib q.client s)))

  check_address-from :
      (attempt : ℕ) (q : Request lib) (f : ℤ) (s : State lib)
      → RoundFrom (pool_of lib s) (check_address lib attempt q f s)
  unfolding check_address lock_offer confirm_offer
  check_address-from attempt q f s =
      elim (Bool-cases (
        world.ping attempt (to4 (set_option_server_identifier q.server s.handler.ip))
          (dhcp4.ip_add s.handler.start f) q.if_name)) [
            | inl answered ↦ rw answered (give_up-from q f (lock_offer lib q f s))
            | inr quiet ↦ rw quiet here
          ]

  RoundFrom-trans :
      (p p' : DhcpPool) (r : Round (State lib)) → Reach p p' → RoundFrom p' r → RoundFrom p r
  RoundFrom-trans p p' (again b f s) h r = Reach-trans h r
  RoundFrom-trans p p' (done (offers f s)) h r = Reach-trans h r
  RoundFrom-trans p p' (done (silent s)) h r = Reach-trans h r
  RoundFrom-trans p p' (done (panics s)) h r = Reach-trans h r

  module _ (fair : IsFair lib) where
    abbrev NextFrom : DhcpPool → Option (ℤ × DhcpPool) → Type 0
    NextFrom p none = Unit
    NextFrom p (some (f, p')) = Reach p p'

    next_free-from :
        (attempt : ℕ) (client : String) (f : ℤ) (p : DhcpPool)
        → IsValid p
        → NextFrom p (next_free lib attempt client f p)
    unfolding next_free
    next_free-from attempt client f p v = elim (Bool-cases (f == negsuc 0)) [
      | inr other ↦ rw other here
      | inl fresh ↦
          elim (Bool-cases (is_nil (get_free_ip_index (world.choice attempt p) client p).3)) [
            | inr full ↦ rw (fresh, full) tt
            | inl good ↦
                rw (fresh, good)
                  (next here (allocates (world.choice attempt p) client (fair attempt p v)))
          ]
    ]

    take_address-from :
        (attempt : ℕ) (q : Request lib) (b : Bool) (f : ℤ) (s : State lib) (r : Requested)
        → IsValid (pool_of lib s)
        → RequestedFrom (pool_of lib s) r
        → RoundFrom (pool_of lib s) (take_address lib attempt q b f s r)
    unfolding take_address
    take_address-from attempt q b f s refused v h = here
    take_address-from attempt q b f s faulted v h = here
    take_address-from attempt q b f s (kept f' p) v h =
        elim (Option-cases (next_free lib attempt q.client f' p)) [
          | inl full ↦ rw (full, take_address) h
          | inr ((f'', p'), e) ↦
              let r : Reach p p' =
                subst (NextFrom p) e (next_free-from attempt q.client f' p (Reach-IsValid v h)) in
              rw (e, take_address)
                (RoundFrom-trans (pool_of lib s) p' _ (Reach-trans h r)
                  (check_address-from attempt q f'' (with_pool lib p' s)))
        ]

    pub retry_round-from :
        (attempt : ℕ) (q : Request lib) (b : Bool) (f : ℤ) (s : State lib)
        → IsValid (pool_of lib s)
        → RoundFrom (pool_of lib s) (retry_round lib attempt q b f s)
    unfolding retry_round
    retry_round-from attempt q b f s v =
        elim (Bool-cases (ltb 0 (free_ips_remaining (pool_of lib s)))) [
          | inr full ↦ rw full here
          | inl room ↦ rw room (
              take_address-from attempt q b f s _ v
                (try_requested-from q.client q.requested b s.handler.start f (pool_of lib s)))
        ]
