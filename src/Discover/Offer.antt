-- ===== src/Discover/Offer.antt =====
-- interface.go: the index that is offered is held by the client.
use standalone_dhcp.Prelude.{
  ℕ, ◌≤◌, ◌<◌, ◌≡◌, ◌≢◌, ◌⊎◌, inl, inr, refl, sym, ap, ◌∙◌, subst, Bool, true, false, ◌&&◌, Option,
  none, some, String, ◌==◌, nat_eq, string_eq, if◌then◌else◌, arith, Bool-cases, Option-cases,
  beq_self, lt→ltb,
}
use text.Mathlib.TextEquality.{eq_iff}
use standalone_dhcp.Prelude.Int.{ℤ, pos, negsuc, int_eq, beq_ℤ_iff}
use standalone_dhcp.Prelude.Map.{has}
use standalone_dhcp.Net.{IpAddr, to4}
use standalone_dhcp.Convert.{Bytes}
use standalone_dhcp.Pool.{DhcpPool, PoolError, free_mac, get_mac_index, reserve_ip_index}
use standalone_dhcp.Pool.Invariant.{IsValid, reserve_ip_index-IsValid, reserve_ip_index-capacity}
use standalone_dhcp.Pool.Choose.{IsChoice}
use standalone_dhcp.Pool.Allocate.{assign, assign-IsValid, get_free_ip_index_cases}
use standalone_dhcp.Pool.View.{
  Slot, outside, free, held, view, hold, view-get_mac_index, view-reserve_ip_index, view-assign,
  mac_answer, reserve_answer,
}
use standalone_dhcp.Utils.{max_int, safe_uint64_to_int}
use standalone_dhcp.Dhcp.{Lib}
use standalone_dhcp.Handler.{be_uint32}
use standalone_dhcp.Discover.{is_nil, kept, try_index, try_requested, sub_uint32, next_free}

-- The index of an address that the pool has given to the client.
pub record IsHeld (client : String) (p : DhcpPool) (f : ℤ) : Type 0 where
  pub index : ℕ
  pub number : f ≡ pos index
  pub inside : index < p.capacity
  pub slot : view p index ≡ held client

held-inside : (m : String) (p : DhcpPool) (i : ℕ) → view p i ≡ held m → i < p.capacity
held-inside m p i h = ground arith

slot-of-mac : (m : String) (s : Slot) → m ≢ free_mac → (mac_answer s).0 ≡ m → s ≡ held m
slot-of-mac m outside h e = absurd (h (sym e))
slot-of-mac m free h e = absurd (h (sym e))
slot-of-mac m (held n) h e = ap held e

-- A pool that lists the client's address at an index holds the index for the client.
pub get_mac_index-IsHeld :
    (client : String) (i : ℕ) (p : DhcpPool)
    → client ≢ free_mac
    → (get_mac_index i p).1 ≡ client
    → IsHeld client p (pos i)
get_mac_index-IsHeld client i p h e =
    let slot = slot-of-mac client (view p i) h (sym (view-get_mac_index i p).0 ∙ e) in
    record { index = i; number = refl; inside = held-inside client p i slot; slot = slot }

reserved-slot : (m : String) (s : Slot) → (is_nil (reserve_answer m s).0) ≡ true → hold m s ≡ held m
reserved-slot m outside e = ground arith
reserved-slot m free e = refl
reserved-slot m (held n) e = ground arith

-- A reservation with no error holds the index.
pub reserve_ip_index-IsHeld :
    (client : String) (i : ℕ) (p : DhcpPool)
    → is_nil (reserve_ip_index i client p).1 ≡ true
    → IsHeld client (reserve_ip_index i client p).0 (pos i)
reserve_ip_index-IsHeld client i p e =
    let (views, answer, _) = view-reserve_ip_index i client p in
    let slot : view (reserve_ip_index i client p).0 i ≡ held client =
      views i
      ∙ ground (arith, beq_self i)
      ∙ reserved-slot client (view p i) (sym (ap is_nil answer) ∙ e) in
    record {
      index = i;
      number = refl;
      inside = held-inside client (reserve_ip_index i client p).0 i slot;
      slot = slot;
    }

-- A pass that began with no index has none yet, or one that is held.
pub record IsNew (client : String) (p : DhcpPool) (f : ℤ) : Type 0 where
  pub valid : IsValid p
  pub sized : p.capacity ≤ max_int
  pub new : (f ≡ negsuc 0) ⊎ IsHeld client p f

IsNew-kept :
    (client : String) (f f' : ℤ) (p p' : DhcpPool)
    → kept f p ≡ kept f' p'
    → IsNew client p f
    → IsNew client p' f'
IsNew-kept client f f' p p' e n =
    let ef : f ≡ f' = ground arith in
    let ep : p ≡ p' = ground arith in
    subst (λ g. IsNew client p' g) ef (subst (λ r. IsNew client r f) ep n)

module _ (client : String) (real : client ≢ free_mac) where
  pub try_index-IsNew :
      (element : ℕ) (p p' : DhcpPool) (f : ℤ)
      → IsValid p
      → p.capacity ≤ max_int
      → try_index client element (negsuc 0) p ≡ kept f p'
      → IsNew client p' f
  unfolding try_index
  try_index-IsNew element p p' f v small h =
      elim (Bool-cases ((get_mac_index element p).1 == client)) [
        | inl own ↦ IsNew-kept client (pos element) f p p' (rw own at h) (record {
          valid = v;
          sized = small;
          new = inr (get_mac_index-IsHeld client element p real ((eq_iff _ _).0 own));
        })
        | inr other ↦ elim (Bool-cases ((get_mac_index element p).1 == free_mac)) [
          | inr taken ↦ absurd (let h' = rw (other, taken) at h in ground arith)
          | inl vacant ↦ reserved (rw (other, vacant) at h)
        ]
      ]
    where
      r : DhcpPool × Option PoolError × String
      r = reserve_ip_index element client p

      reserved :
          (if is_nil r.1 && r.2 == client then kept (pos element) r.0 else kept (negsuc 0) r.0)
            ≡ kept f p'
          → IsNew client p' f
      reserved h = elim (Bool-cases (is_nil r.1 && r.2 == client)) [
        | inl good ↦ IsNew-kept client (pos element) f r.0 p' (rw good at h) (record {
          valid = reserve_ip_index-IsValid element client p v;
          sized = rw reserve_ip_index-capacity small;
          new = inr (reserve_ip_index-IsHeld client element p (ground arith));
        })
        | inr bad ↦ IsNew-kept client (negsuc 0) f r.0 p' (rw bad at h) (record {
          valid = reserve_ip_index-IsValid element client p v;
          sized = rw reserve_ip_index-capacity small;
          new = inl refl;
        })
      ]

  pub try_requested-IsNew :
      (bytes : Option Bytes) (first_try : Bool) (start : IpAddr) (p p' : DhcpPool) (f : ℤ)
      → IsValid p
      → p.capacity ≤ max_int
      → try_requested client bytes first_try start (negsuc 0) p ≡ kept f p'
      → IsNew client p' f
  unfolding try_requested
  try_requested-IsNew none first_try start p p' f v small h =
      IsNew-kept client (negsuc 0) f p p' h (record { valid = v; sized = small; new = inl refl })
  try_requested-IsNew (some b) false start p p' f v small h =
      IsNew-kept client (negsuc 0) f p p' h (record { valid = v; sized = small; new = inl refl })
  try_requested-IsNew (some b) true start p p' f v small h = elim (Option-cases (be_uint32 b)) [
    | inl short ↦ absurd (let h' = rw (short, try_requested) at h in ground arith)
    | inr (wanted, e) ↦ elim (Option-cases (be_uint32 (to4 start))) [
      | inl short ↦ absurd (let h' = rw (e, short, try_requested) at h in ground arith)
      | inr (first, e') ↦
          try_index-IsNew (sub_uint32 wanted first) p p' f v small (rw (e, e', try_requested) at h)
    ]
  ]

pub assign-IsHeld :
    (client : String) (i : ℕ) (p : DhcpPool)
    → has i p.free ≡ true
    → i < p.capacity
    → IsHeld client (assign i client p) (pos i)
assign-IsHeld client i p h inside = record {
  index = i;
  number = refl;
  inside = inside;
  slot = view-assign i client p h i ∙ ground (arith, beq_self i, lt→ltb i p.capacity inside);
}

IsHeld-same :
    (client : String) (f f' : ℤ) (p p' : DhcpPool)
    → ◌≡◌ {A = Option (ℤ × DhcpPool)} (some (f, p)) (some (f', p'))
    → IsHeld client p f × IsValid p
    → IsHeld client p' f' × IsValid p'
IsHeld-same client f f' p p' e h =
    let ef : f ≡ f' = ground arith in
    let ep : p ≡ p' = ground arith in
    subst (λ g. IsHeld client p' g × IsValid p') ef
      (subst (λ r. IsHeld client r f × IsValid r) ep h)

pub safe_uint64_to_int-pos : (i : ℕ) → i ≤ max_int → safe_uint64_to_int i ≡ pos i
unfolding safe_uint64_to_int
safe_uint64_to_int-pos i h = ground arith

-- The choices of the run time are possible ones.
abbrev pub IsFair : Lib → Type 0
IsFair lib = (n : ℕ) (p : DhcpPool) → IsValid p → IsChoice p (lib.world.choice n p)

module _ (lib : Lib) (fair : IsFair lib) where
  -- With an index in hand nothing is taken; without, a free one is taken and held.
  pub next_free-IsHeld :
      (attempt : ℕ) (client : String) (f f' : ℤ) (p p' : DhcpPool)
      → IsNew client p f
      → next_free lib attempt client f p ≡ some (f', p')
      → IsHeld client p' f' × IsValid p'
  unfolding next_free
  next_free-IsHeld attempt client f f' p p' n h = elim (Bool-cases (f == negsuc 0)) [
    | inr other ↦ elim n.new [
      | inl e ↦ absurd (ground (arith, beq_ℤ_iff f (negsuc 0)))
      | inr has_one ↦ IsHeld-same client f f' p p' (rw other at h) (has_one, n.valid)
    ]
    | inl missing ↦
        let c = lib.world.choice attempt p in
        elim (get_free_ip_index_cases p c client n.valid (fair attempt p n.valid)) [
          | inl (_, e) ↦ absurd (let h' = rw (missing, e) at h in ground arith)
          | inr (i, vacant, inside, e) ↦
              IsHeld-same client (pos i) f' (assign i client p) p'
                (ap (λ g. some (g, assign i client p))
                    (sym (safe_uint64_to_int-pos i (omega (arith, n.sized))))
                  ∙ (rw (missing, e) at h))
                (assign-IsHeld client i p vacant inside, assign-IsValid i client p n.valid vacant)
        ]
  ]
