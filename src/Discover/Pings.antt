-- ===== src/Discover/Pings.antt =====
-- interface.go, the case `dhcp.Discover`: what follows if an address answers its ping.
use standalone_dhcp.Prelude.{
  ℕ, zero, suc, ◌≤◌, ◌<◌, ◌≡◌, ◌≢◌, inl, inr, refl, sym, ap, ◌∙◌, subst, Bool, true, false, none,
  some, String, ◌==◌, nat_eq, string_eq, arith, length, lt→ltb, Bool-cases,
}
use standalone_dhcp.Prelude.Int.{ℤ, pos, negsuc, int_eq}
use standalone_dhcp.Prelude.Map.{
  Map, lookup, has, delete, length-delete, IsDistinct, delete-IsDistinct,
}
use standalone_dhcp.Net.{IpAddr, to4}
use standalone_dhcp.Pool.{
  DhcpPool, free_mac, fake_mac, get_mac_index, reserve_ip_index, free_ips_remaining,
  get_free_ip_index,
}
use standalone_dhcp.Pool.Invariant.{IsValid}
use standalone_dhcp.Pool.Allocate.{assign, get_free_ip_index_cases}
use standalone_dhcp.Pool.View.{
  view, held, mac_answer, view-assign, view-get_mac_index, reserve_ip_index_taken,
}
use standalone_dhcp.Utils.{max_int, safe_int_to_uint64, set_option_server_identifier}
use standalone_dhcp.Dhcp.{Lib}
use standalone_dhcp.Handler.{State, pool_of, with_pool}
use standalone_dhcp.Discover.{
  try_requested, Request, next_free, Outcome, offers, again, done, lock_offer, give_up,
  check_address, take_address, retry_round, retry, choose_index,
}
use standalone_dhcp.Discover.Offer.{IsFair, assign-IsHeld, safe_uint64_to_int-pos}
use standalone_dhcp.Discover.Rounds.{
  HasOthers, retry-again, retry_round_after_ping, retry_never_ends,
}
use standalone_dhcp.Request.Grant.{hwcache_delete-pool}

of_index : (i : ℕ) → safe_int_to_uint64 (pos i) ≡ i
unfolding safe_int_to_uint64
of_index i = ground arith

-- One entry less, at most.
length-le-delete :
    {V : Type 0} (k : ℕ) (m : Map ℕ V) → IsDistinct m → length m ≤ suc (length (delete k m))
length-le-delete k m d = ground (arith, length-delete k m d)

-- A held index is not among the free ones.
held_not_free : (p : DhcpPool) (i : ℕ) (m : String) → view p i ≡ held m → has i p.free ≡ false
held_not_free p i m e = ground (arith, e)

module _ (lib : Lib) where
  open lib use {ints, world, dhcp4}

  -- A client without a lease that asks for no address, on a pool that satisfies the invariant.
  pub record IsNewcomer (q : Request lib) (s : State lib) : Type 0 where
    pub real : q.client ≢ free_mac
    pub valid : IsValid (pool_of lib s)
    pub small : (pool_of lib s).capacity ≤ max_int
    pub dynamic : lookup q.client s.handler.ip_assigned ≡ none
    pub missing : ints.get s.handler.hwcache q.client ≡ none
    pub unasked : q.requested ≡ none

  -- The state after the first pass has given up an index.
  abbrev given_up : Request lib → ℕ → State lib → State lib
  given_up q i s =
      give_up lib q (pos i)
        (lock_offer lib q (pos i) (with_pool lib (assign i q.client (pool_of lib s)) s))

  given_up-pool :
      (q : Request lib) (i : ℕ) (s : State lib)
      → q.client ≢ free_mac
      → has i (pool_of lib s).free ≡ true
      → i < (pool_of lib s).capacity
      → pool_of lib (given_up q i s) ≡ assign i q.client (pool_of lib s)
  unfolding give_up lock_offer
  given_up-pool q i s real vacant inside =
      let p = assign i q.client (pool_of lib s) in
      let h = assign-IsHeld q.client i (pool_of lib s) vacant inside in
      let at_i : h.index ≡ i = ground (arith, h.number) in
      let slot : view p i ≡ held q.client = ap (view p) (sym at_i) ∙ h.slot in
      let owned : (get_mac_index i p).1 ≡ q.client =
        (view-get_mac_index i p).0 ∙ ap (λ x. (mac_answer x).0) slot in
      ap (λ r. (reserve_ip_index (safe_int_to_uint64 (pos i)) fake_mac r).0)
        (hwcache_delete-pool lib q.client (lock_offer lib q (pos i) (with_pool lib p s)))
      ∙ ap (λ k. (reserve_ip_index k fake_mac p).0) (of_index i)
      ∙ reserve_ip_index_taken i fake_mac q.client p real owned

  next_free-new :
      (q : Request lib) (i : ℕ) (p : DhcpPool)
      → i ≤ max_int
      → get_free_ip_index (world.choice 0 p) q.client p ≡ (assign i q.client p, i, q.client, none)
      → next_free lib 0 q.client (negsuc 0) p ≡ some (pos i, assign i q.client p)
  unfolding next_free
  next_free-new q i p small e = rw (e, safe_uint64_to_int-pos i small) refl

  first_round :
      (q : Request lib) (i : ℕ) (s : State lib)
      → q.requested ≡ none
      → 0 < free_ips_remaining (pool_of lib s)
      → ((a b : IpAddr) (name : String) → world.ping 0 a b name ≡ true)
      → next_free lib 0 q.client (negsuc 0) (pool_of lib s)
        ≡ some (pos i, assign i q.client (pool_of lib s))
      → retry_round lib 0 q true (negsuc 0) s ≡ again false (pos 0) (given_up q i s)
  unfolding retry_round try_requested take_address check_address lock_offer give_up
  first_round q i s unasked room answers e =
      rw
        (
          lt→ltb 0 (free_ips_remaining (pool_of lib s)) room,
          unasked,
          e,
          take_address,
          answers (to4 (set_option_server_identifier q.server s.handler.ip))
              (dhcp4.ip_add s.handler.start (pos i)) q.if_name,
        )
        refl

  -- What the first pass leads to, if the address that it takes answers its ping.
  record IsSecond (q : Request lib) (s : State lib) : Type 0 where
    index : ℕ
    vacant : has index (pool_of lib s).free ≡ true
    later : State lib
    taken : pool_of lib later ≡ assign index q.client (pool_of lib s)
    continues :
        (fuel : ℕ) → choose_index lib (suc fuel) q s ≡ retry lib fuel 1 q false (pos 0) later

  new_index :
      (fuel : ℕ) (q : Request lib) (s : State lib)
      → lookup q.client s.handler.ip_assigned ≡ none
      → ints.get s.handler.hwcache q.client ≡ none
      → choose_index lib fuel q s ≡ retry lib fuel 0 q true (negsuc 0) s
  unfolding choose_index
  new_index fuel q s dynamic missing = rw (dynamic, missing, choose_index) refl

  module _ (fair : IsFair lib) where
    second :
        (q : Request lib) (s : State lib)
        → IsNewcomer q s
        → 0 < free_ips_remaining (pool_of lib s)
        → ((a b : IpAddr) (name : String) → world.ping 0 a b name ≡ true)
        → IsSecond q s
    unfolding free_ips_remaining
    second q s n room answers =
        let p = pool_of lib s in
        elim (get_free_ip_index_cases p (world.choice 0 p) q.client n.valid (fair 0 p n.valid)) [
          | inl (full, _) ↦ absurd (omega (arith, full, room))
          | inr (i, vacant, inside, e) ↦
              let found = next_free-new q i p (omega (arith, inside, n.small)) e in
              let round = first_round q i s n.unasked room answers found in
              record {
                index = i;
                vacant = vacant;
                later = given_up q i s;
                taken = given_up-pool q i s n.real vacant inside;
                continues = λ fuel.
                    new_index (suc fuel) q s n.dynamic n.missing
                    ∙ retry-again lib fuel 0 q true false (negsuc 0) (pos 0) s (given_up q i s)
                        round;
              }
        ]

    retry-done :
        (fuel attempt : ℕ) (q : Request lib) (b : Bool) (f : ℤ) (s : State lib)
        (o : Outcome (State lib))
        → retry_round lib attempt q b f s ≡ done o
        → retry lib (suc fuel) attempt q b f s ≡ some o
    unfolding retry
    retry-done fuel attempt q b f s o e = rw (e, retry) refl

    -- The slot of index 0 after another one was taken.
    zero_kept :
        (p : DhcpPool) (i : ℕ) (m other : String)
        → has i p.free ≡ true
        → view p 0 ≡ held other
        → view (assign i m p) 0 ≡ held other
    zero_kept p i m other vacant e =
        let away = held_not_free p 0 other e in
        let apart : (i == 0) ≡ false = elim (Bool-cases (i == 0)) [
          | inr differ ↦ differ
          | inl same ↦
              let k : i ≡ 0 = (nat_eq.equal_iff i 0).0 same in
              let h : true ≡ false = sym vacant ∙ ap (λ j. has j p.free) k ∙ away in
              absurd (ground (arith, h))
        ] in
        view-assign i m p vacant 0 ∙ rw apart e

    -- With choices that Go can make, on a pool that satisfies the invariant, has more than one free
    -- index, and whose capacity fits an `int`, and for a client other than 00:00:00:00:00:00, which
    -- has no lease and no static index and asks for no address: if the first ping of a DISCOVER is
    -- answered and the second is not, index 0 is offered; if another client holds it, that client
    -- holds it before and after.
    pub choose_index_after_ping :
        (fuel : ℕ) (q : Request lib) (s : State lib) (other : String)
        → IsNewcomer q s
        → view (pool_of lib s) 0 ≡ held other
        → 1 < free_ips_remaining (pool_of lib s)
        → ((a b : IpAddr) (name : String) → world.ping 0 a b name ≡ true)
        → ((a b : IpAddr) (name : String) → world.ping 1 a b name ≡ false)
        → (s' : State lib) × (choose_index lib (suc (suc fuel)) q s ≡ some (offers (pos 0) s'))
          × (view (pool_of lib s') 0 ≡ held other)
    unfolding free_ips_remaining
    choose_index_after_ping fuel q s other n e room answers quiet =
        let r = second q s n (omega (arith, room)) answers in
        let p = pool_of lib s in
        let left : 0 < free_ips_remaining (pool_of lib r.later) =
          subst (λ (x : DhcpPool). 0 < length x.free) (sym r.taken)
            (omega (arith, length-le-delete r.index p.free n.valid.free_distinct, room)) in
        let (s', round, same) = retry_round_after_ping lib 1 q r.later left (
          quiet (to4 (set_option_server_identifier q.server r.later.handler.ip))
            (dhcp4.ip_add r.later.handler.start (pos 0)) q.if_name) in
        (
          s',
          r.continues (suc fuel)
              ∙ retry-done fuel 1 q false (pos 0) r.later (offers (pos 0) s') round,
          ap (λ x. view x 0) (same ∙ r.taken) ∙ zero_kept p r.index q.client other r.vacant e,
        )

    -- With choices that Go can make, on a pool that satisfies the invariant, has more than two free
    -- indices, and whose capacity fits an `int`: if every ping is answered, a DISCOVER of a client
    -- other than 00:00:00:00:00:00, which has no lease and no static index and asks for no address,
    -- has no outcome after any number of passes.
    pub choose_index_never_ends :
        (fuel : ℕ) (q : Request lib) (s : State lib)
        → IsNewcomer q s
        → 2 < free_ips_remaining (pool_of lib s)
        → ((n : ℕ) (a b : IpAddr) (name : String) → world.ping n a b name ≡ true)
        → choose_index lib fuel q s ≡ none
    unfolding retry free_ips_remaining
    choose_index_never_ends zero q s n room answers = new_index 0 q s n.dynamic n.missing
    choose_index_never_ends (suc fuel) q s n room answers =
        let r = second q s n (omega (arith, room)) (answers 0) in
        let free = (pool_of lib s).free in
        let one = length-le-delete r.index free n.valid.free_distinct in
        let two =
          length-le-delete 0 (delete r.index free)
            (delete-IsDistinct r.index free n.valid.free_distinct) in
        let others : HasOthers lib r.later =
          subst (λ (x : DhcpPool). 0 < length (delete 0 x.free)) (sym r.taken)
            (omega (arith, one, two, room)) in
        r.continues fuel ∙ retry_never_ends lib fuel 1 q r.later answers others
