-- ===== src/Api/Leases/Released.antt =====
-- api.go and utils.go: what a release through the API changes, and when it is refused.
use standalone_dhcp.Prelude.{
  ◌≡◌, ◌≢◌, inl, inr, refl, ap, ◌∙◌, Bool, true, false, not, ◌||◌, Option, none, some, String, List,
  [], ◌∷◌, ◌==◌, string_eq, if◌then◌else◌, arith, Option-cases, Bool-cases, beq_ne,
}
use standalone_dhcp.Prelude.Int.{ℤ, pos}
use standalone_dhcp.Net.{IpAddr, IpNet, contains, to4, fit_mask, or_address}
use standalone_dhcp.Convert.{parse_ip}
use standalone_dhcp.Texts.{text_bytes, net_string}
use standalone_dhcp.Dhcp.{Lib}
use standalone_dhcp.Handler.{Handler}
use standalone_dhcp.Serve.{Network}
use standalone_dhcp.Config.Interfaces.{EthIf}
use standalone_dhcp.Api.Leases.{
  LeaseReply, refused, node, info, Daemon, shorten, scope_network, scope_networks, scope_interfaces,
  interface_scope_from_mac, handle_release_ip,
}
use text.Mathlib.TextLemmas.{append-eq-nil_iff}
use Prim.Native.String.{◌++◌}

slash : (s : String) → "/" ++ s ≢ ""
slash s e =
    let h : false ≡ true =
      (string_eq.equal_iff "/" "").1 ((append-eq-nil_iff {p = "/"} {q = s}).0 e).0 in
    cc

-- A network has a text.
net_string-ne-empty : (long : IpAddr → String) (n : IpNet) → net_string long n ≢ ""
unfolding net_string
net_string-ne-empty long n e = elim (Option-cases (fit_mask (or_address n.ip (to4 n.ip)) n.mask)) [
  | inl odd ↦
      let h : false ≡ true =
        (string_eq.equal_iff "<nil>" "").1 (let e' = rw (odd, net_string) at e in e') in
      cc
  | inr (m, fits) ↦ slash _ (append-eq-nil_iff.0 (let e' = rw (fits, net_string) at e in e')).1
]

module _ (lib : Lib) where
  open lib use {ints, texts, world}

  -- The cache of a network after a release: the entry of the client is set again, for three seconds.
  abbrev pub released_cache : String → ints.Cache → Option ℤ → ints.Cache
  released_cache mac c none = c
  released_cache mac c (some x) = ints.set c mac x (pos 3)

  -- A network whose cache is that after a release.
  abbrev pub released_network : String → Network lib → Network lib
  released_network mac v = record v {
    dhcp_handler = record v.dhcp_handler {
      hwcache = released_cache mac v.dhcp_handler.hwcache (ints.get v.dhcp_handler.hwcache mac);
    };
  }

  -- A network after a release of a client at an address: only the cache is another, and only in a
  -- network with the address.
  pub record IsReleased (mac : String) (ip : IpAddr) (v w : Network lib) : Type 0 where
    pub shortened : w ≡ (if contains v.network ip then released_network mac v else v)
    pub cached :
        (client : String)
        → ints.get w.dhcp_handler.hwcache client ≡ ints.get v.dhcp_handler.hwcache client
    pub pool : w.dhcp_handler.available ≡ v.dhcp_handler.available
    pub timers : w.timers ≡ v.timers

  abbrev pub AllReleased : String → IpAddr → List (Network lib) → List (Network lib) → Type 0
  AllReleased mac ip [] [] = Unit
  AllReleased mac ip [] (w ∷ ws) = ⊥
  AllReleased mac ip (v ∷ vs) [] = ⊥
  AllReleased mac ip (v ∷ vs) (w ∷ ws) = IsReleased mac ip v w × AllReleased mac ip vs ws

  abbrev pub EachReleased : String → IpAddr → List (EthIf lib) → List (EthIf lib) → Type 0
  EachReleased mac ip [] [] = Unit
  EachReleased mac ip [] (e ∷ es) = ⊥
  EachReleased mac ip (e ∷ es) [] = ⊥
  EachReleased mac ip (e ∷ es) (f ∷ fs) =
      AllReleased mac ip e.network f.network × EachReleased mac ip es fs

  -- By the address that the process knows for the client, if it knows one.
  abbrev pub IsReleasedBy : String → Option String → Daemon lib → Daemon lib → Type 0
  IsReleasedBy mac none d d' = d' ≡ d
  IsReleasedBy mac (some index) d d' =
      EachReleased mac (parse_ip world.parse_ipv6 (text_bytes index)) d.ints_net d'.ints_net
      × (d'.ips ≡ d.ips)
      × (d'.macs ≡ d.macs)

  replaced :
      (mac : String) (c : ints.Cache) (x : ℤ)
      → ints.get c mac ≡ some x
      → ints.replace c mac x (pos 3) ≡ some (ints.set c mac x (pos 3))
  replaced mac c x e = ints.replace_lem c mac x (pos 3) ∙ rw e refl

  shorten-released_cache :
      (mac : String) (h : Handler lib)
      → shorten lib mac h (ints.get h.hwcache mac)
        ≡ record h { hwcache = released_cache mac h.hwcache (ints.get h.hwcache mac) }
  shorten-released_cache mac h = elim (Option-cases (ints.get h.hwcache mac)) [
    | inl absent ↦ rw absent refl
    | inr (x, e) ↦ rw (e, replaced mac h.hwcache x e) refl
  ]

  released_cache-get :
      (mac : String) (c : ints.Cache) (client : String)
      → ints.get (released_cache mac c (ints.get c mac)) client ≡ ints.get c client
  released_cache-get mac c client = elim (Option-cases (ints.get c mac)) [
    | inl absent ↦ rw absent refl
    | inr (x, e) ↦
        rw e
          (ints.get-set c mac x (pos 3) client ∙ ground (arith, e, string_eq.equal_iff mac client))
  ]

  network-IsReleased :
      (mac : String) (ip : IpAddr) (found : String) (v : Network lib)
      → IsReleased mac ip v (scope_network lib mac ip found v).1
  unfolding scope_network
  network-IsReleased mac ip found v = elim (Bool-cases (contains v.network ip)) [
    | inr away ↦
        rw away
          (record { shortened = rw away refl; cached = λ client. refl; pool = refl; timers = refl })
    | inl inside ↦
        let e = shorten-released_cache mac v.dhcp_handler in
        rw inside (record {
          shortened = rw inside (ap (λ (h : Handler lib). record v { dhcp_handler = h }) e);
          cached = λ client.
              ap (λ (h : Handler lib). ints.get h.hwcache client) e
              ∙ released_cache-get mac v.dhcp_handler.hwcache client;
          pool = ap (λ (h : Handler lib). h.available) e;
          timers = refl;
        })
  ]

  networks-AllReleased :
      (mac : String) (ip : IpAddr) (found : String) (l : List (Network lib))
      → AllReleased mac ip l (scope_networks lib mac ip found l).1
  unfolding scope_networks
  networks-AllReleased mac ip found [] = tt
  networks-AllReleased mac ip found (v ∷ l) = (
    network-IsReleased mac ip found v,
    networks-AllReleased mac ip (scope_network lib mac ip found v).0 l,
  )

  interfaces-EachReleased :
      (mac : String) (ip : IpAddr) (found : String) (l : List (EthIf lib))
      → EachReleased mac ip l (scope_interfaces lib mac ip found l).1
  unfolding scope_interfaces
  interfaces-EachReleased mac ip found [] = tt
  interfaces-EachReleased mac ip found (e ∷ l) = (
    networks-AllReleased mac ip found e.network,
    interfaces-EachReleased mac ip (scope_networks lib mac ip found e.network).0 l,
  )

  -- A release through the API changes nothing if the process knows no address for the client.
  -- Otherwise, in each network that has the address, the entry of the client in the cache, if there
  -- is one, is set again with its index, for three seconds; other networks stay as they are. No
  -- network has another pool, other goroutines or another index for any client, and both caches of
  -- the process stay as they are.
  pub handle_release_ip-IsReleasedBy :
      (mac : String) (d : Daemon lib)
      → IsReleasedBy mac (texts.get d.macs mac) d (handle_release_ip lib mac d).1
  unfolding handle_release_ip interface_scope_from_mac
  handle_release_ip-IsReleasedBy mac d = elim (Option-cases (texts.get d.macs mac)) [
    | inl unknown ↦ rw (unknown, interface_scope_from_mac) refl
    | inr (index, e) ↦
        rw (e, interface_scope_from_mac)
          (
            interfaces-EachReleased mac (parse_ip world.parse_ipv6 (text_bytes index)) ""
                d.ints_net,
            refl,
            refl,
          )
  ]

  -- Some network has the address.
  abbrev any_network : IpAddr → List (Network lib) → Bool
  any_network ip [] = false
  any_network ip (v ∷ l) = contains v.network ip || any_network ip l

  abbrev any_interface : IpAddr → List (EthIf lib) → Bool
  any_interface ip [] = false
  any_interface ip (e ∷ l) = any_network ip e.network || any_interface ip l

  -- The address of the client, by the cache of the process, is in some network.
  abbrev pub is_served : String → Daemon lib → Bool
  is_served mac d = elim (texts.get d.macs mac) [
    | none ↦ false
    | some index ↦ any_interface (parse_ip world.parse_ipv6 (text_bytes index)) d.ints_net
  ]

  abbrev pub is_refused : LeaseReply → Bool
  is_refused (refused n) = true
  is_refused (node n) = false
  is_refused (info i) = false

  network-text :
      (mac : String) (ip : IpAddr) (found : String) (v : Network lib)
      → ((scope_network lib mac ip found v).0 == "")
        ≡ (if contains v.network ip then false else found == "")
  unfolding scope_network
  network-text mac ip found v = elim (Bool-cases (contains v.network ip)) [
    | inr away ↦ rw away refl
    | inl inside ↦ rw inside (beq_ne _ "" (net_string-ne-empty world.long_string v.network))
  ]

  networks-text :
      (mac : String) (ip : IpAddr) (found : String) (l : List (Network lib))
      → ((scope_networks lib mac ip found l).0 == "")
        ≡ (if any_network ip l then false else found == "")
  unfolding scope_networks
  networks-text mac ip found [] = refl
  networks-text mac ip found (v ∷ l) =
      networks-text mac ip (scope_network lib mac ip found v).0 l
      ∙ ground (arith, network-text mac ip found v)

  interfaces-text :
      (mac : String) (ip : IpAddr) (found : String) (l : List (EthIf lib))
      → ((scope_interfaces lib mac ip found l).0 == "")
        ≡ (if any_interface ip l then false else found == "")
  unfolding scope_interfaces
  interfaces-text mac ip found [] = refl
  interfaces-text mac ip found (e ∷ l) =
      interfaces-text mac ip (scope_networks lib mac ip found e.network).0 l
      ∙ ground (arith, networks-text mac ip found e.network)

  -- A release through the API is refused exactly if the process knows no address for the client, or
  -- no network of any interface contains the address that it knows.
  pub is_refused-handle_release_ip :
      (mac : String) (d : Daemon lib)
      → is_refused (handle_release_ip lib mac d).0 ≡ not (is_served mac d)
  unfolding handle_release_ip interface_scope_from_mac
  is_refused-handle_release_ip mac d = elim (Option-cases (texts.get d.macs mac)) [
    | inl unknown ↦ rw (unknown, interface_scope_from_mac, is_served) refl
    | inr (index, e) ↦
        let ip = parse_ip world.parse_ipv6 (text_bytes index) in
        rw (e, interface_scope_from_mac, is_served)
          (ground (arith, interfaces-text mac ip "" d.ints_net))
  ]
