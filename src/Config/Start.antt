-- ===== src/Config/Start.antt =====
-- config.go, `readConfig`: what holds of every network that the program starts with.
use standalone_dhcp.Prelude.{
  ◌≡◌, refl, sym, subst, Option, none, some, String, List, [], ◌∷◌, ◌++◌, ◌==◌, nat_eq, length, All,
  arith, Option-cases, Bool-cases, inl, inr,
}
use standalone_dhcp.Net.{IpAddr, IpNet}
use standalone_dhcp.Convert.{Bytes, split}
use standalone_dhcp.Texts.{text_bytes, network_name, mask_size, is_ipv6}
use standalone_dhcp.Ini.{Ini}
use standalone_dhcp.Dhcp.{Lib}
use standalone_dhcp.Pool.Invariant.{IsValid}
use standalone_dhcp.Handler.{State, Handler, pool_of}
use standalone_dhcp.Discover.Offer.{IsFair}
use standalone_dhcp.Serve.{Network}
use standalone_dhcp.Serve.Invariant.{Run, Run-IsValid}
use standalone_dhcp.Config.{Setting}
use standalone_dhcp.Config.Interfaces.{
  EthIf, join_found, read_section, read_sections, with_address, read_addresses, server_if, if_any,
  read_interfaces, relay_if, relay_addresses, read_relay, read_relays, read_config,
}
use standalone_dhcp.Config.Sections.{IsConfigured, IsAnswered, read_network-IsAnswered}

All-append {ℓ κ} :
    {A : Type ℓ} (P : A → Type κ) (xs ys : List A) → All P xs → All P ys → All P (xs ++ ys)
All-append P [] ys h k = k
All-append P (x ∷ xs) ys h k = (h.0, All-append P xs ys h.1 k)

module _ (lib : Lib) (env : Setting) (ini : Ini) (cfg : ini.File) where
  open lib use {world}

  abbrev Configured : List (Network lib) → Type 0
  Configured = All (IsConfigured lib env)

  -- Every network of an interface is configured.
  abbrev pub AllConfigured : EthIf lib → Type 0
  AllConfigured e = All (IsConfigured lib env) e.network

  abbrev Found : Option (Option (Network lib)) → Type 0
  Found none = Unit
  Found (some none) = Unit
  Found (some (some v)) = IsConfigured lib env v

  abbrev ListFound : Option (List (Network lib)) → Type 0
  ListFound none = Unit
  ListFound (some l) = Configured l

  answered-Found :
      (net : IpNet) (sec : String → Bytes) (r : Option (Option (Network lib)))
      → IsAnswered lib env net sec r
      → Found r
  answered-Found net sec none h = tt
  answered-Found net sec (some none) h = tt
  answered-Found net sec (some (some v)) h = h.1

  section-Found :
      (ip : IpAddr) (net : IpNet) (key : Bytes) (name : Option Bytes)
      → Found (read_section lib env ini cfg ip net key name)
  section-Found ip net key none = tt
  section-Found ip net key (some name) =
      answered-Found net (ini.value cfg key) _
        (read_network-IsAnswered lib env ip net name (ini.value cfg key))

  join-ListFound :
      (r : Option (Option (Network lib))) (l : Option (List (Network lib)))
      → Found r
      → ListFound l
      → ListFound (join_found lib env ini cfg r l)
  join-ListFound none l h k = tt
  join-ListFound (some r) none h k = tt
  join-ListFound (some none) (some l) h k = k
  join-ListFound (some (some v)) (some l) h k = (h, k)

  sections-ListFound :
      (ip : IpAddr) (net : IpNet) (keys : List Bytes)
      → ListFound (read_sections lib env ini cfg ip net keys)
  unfolding read_sections
  sections-ListFound ip net [] = tt
  sections-ListFound ip net (key ∷ keys) =
      join-ListFound _ _ (section-Found ip net key (network_name key))
        (sections-ListFound ip net keys)

  abbrev IfFound : Option (EthIf lib) → Type 0
  IfFound none = Unit
  IfFound (some e) = AllConfigured e

  with_address-Found :
      (ip : IpAddr) (net : IpNet) (found : List (Network lib)) (e : EthIf lib)
      → Configured found
      → AllConfigured e
      → AllConfigured (with_address lib env ini cfg ip net found e)
  unfolding with_address
  with_address-Found ip net found e h k = All-append (IsConfigured lib env) e.network found k h

  addresses-IfFound :
      (l : List (IpAddr × IpNet)) (e : EthIf lib)
      → AllConfigured e
      → IfFound (read_addresses lib env ini cfg l e)
  unfolding read_addresses
  addresses-IfFound [] e h = h
  addresses-IfFound ((ip, net) ∷ rest) e h =
      elim (Bool-cases ((mask_size net.mask).0 == (mask_size net.mask).1)) [
        | inl single ↦ rw single (addresses-IfFound rest e h)
        | inr wide ↦ elim (Bool-cases (is_ipv6 world.long_string ip)) [
          | inl v6 ↦ rw (wide, v6) (addresses-IfFound rest _ h)
          | inr v4 ↦
              elim (Option-cases (read_sections lib env ini cfg ip net (ini.section_strings cfg))) [
                | inl bad ↦ rw (wide, v4, bad) tt
                | inr (found, e') ↦
                    let good : Configured found =
                      subst ListFound e' (sections-ListFound ip net (ini.section_strings cfg)) in
                    rw (wide, v4, e')
                      (addresses-IfFound rest _ (with_address-Found ip net found e good h))
              ]
        ]
      ]

  abbrev IfsFound : Option (List (EthIf lib)) → Type 0
  IfsFound none = Unit
  IfsFound (some l) = All AllConfigured l

  if_any-IfsFound :
      (e : Option (EthIf lib)) (l : Option (List (EthIf lib)))
      → IfFound e
      → IfsFound l
      → IfsFound (if_any lib env ini cfg e l)
  if_any-IfsFound none l h k = tt
  if_any-IfsFound (some e) none h k = tt
  if_any-IfsFound (some e) (some l) h k = elim (Bool-cases (length e.network == 0)) [
    | inl idle ↦ rw idle k
    | inr busy ↦ rw busy (h, k)
  ]

  interfaces-IfsFound : (l : List Bytes) → IfsFound (read_interfaces lib env ini cfg l)
  unfolding read_interfaces
  interfaces-IfsFound [] = tt
  interfaces-IfsFound (v ∷ rest) = elim (Option-cases (env.by_name v)) [
    | inl absent ↦ rw (absent, read_interfaces) (interfaces-IfsFound rest)
    | inr (eth, e) ↦
        rw (e, read_interfaces)
          (if_any-IfsFound _ _ (addresses-IfFound eth.addresses (server_if lib env ini cfg eth) tt)
            (interfaces-IfsFound rest))
  ]

  relay_addresses-none :
      (target : Bytes) (l : List (IpAddr × IpNet)) (e : EthIf lib)
      → e.network ≡ []
      → (relay_addresses lib env ini cfg target l e).network ≡ []
  unfolding relay_addresses
  relay_addresses-none target [] e h = h
  relay_addresses-none target ((ip, net) ∷ rest) e h =
      relay_addresses-none target rest _ (ground arith)

  relay-All : (parts : List Bytes) → All AllConfigured (read_relay lib env ini cfg parts)
  unfolding read_relay
  relay-All [] = tt
  relay-All (name ∷ []) = tt
  relay-All (name ∷ target ∷ more) = elim (Option-cases (env.by_name name)) [
    | inl absent ↦ rw (absent, read_relay) tt
    | inr (eth, e) ↦
        rw (e, read_relay)
          (
            subst Configured
                (sym
                  (relay_addresses-none target eth.addresses (relay_if lib env ini cfg eth) refl))
                tt,
            tt,
          )
  ]

  relays-All : (parts : List Bytes) → All AllConfigured (read_relays lib env ini cfg parts)
  unfolding read_relays
  relays-All [] = tt
  relays-All (part ∷ parts) = elim (Bool-cases (length part == 0)) [
    | inl blank ↦ rw blank (relays-All parts)
    | inr named ↦
        rw named (All-append AllConfigured _ _ (relay-All (split b':' part)) (relays-All parts))
  ]

  -- Every network of every interface that is read is one that a section leads to.
  pub read_config-AllConfigured :
      (l : List (EthIf lib)) → read_config lib env ini cfg ≡ some l → All AllConfigured l
  unfolding read_config
  read_config-AllConfigured l e =
      let names = split b',' (ini.value cfg (text_bytes "interfaces") "listen") in
      let relays = split b',' (ini.value cfg (text_bytes "interfaces") "relay") in
      elim (Option-cases (read_interfaces lib env ini cfg names)) [
        | inl bad ↦ absurd (let e' = rw (bad, read_config) at e in ground arith)
        | inr (served, found) ↦
            let all : All AllConfigured served = subst IfsFound found (interfaces-IfsFound names) in
            let same : served ++ read_relays lib env ini cfg relays ≡ l =
              let e' = rw (found, read_config) at e in ground arith in
            subst (All AllConfigured) same
              (All-append AllConfigured served _ all (relays-All relays))
      ]

  -- A network from whose handler any run keeps the invariant of the pool.
  abbrev pub StaysValid : Network lib → Type 0
  StaysValid v =
      (s t : State lib) → s.handler ≡ v.dhcp_handler → Run lib s t → IsValid (pool_of lib t)

  stays : IsFair lib → (l : List (Network lib)) → Configured l → All StaysValid l
  stays fair [] h = tt
  stays fair (v ∷ l) h = (
    λ s t e r.
        Run-IsValid lib fair (subst (λ (x : Handler lib). IsValid x.available) (sym e) h.0.valid) r,
    stays fair l h.1,
  )

  All-stay :
      IsFair lib
      → (l : List (EthIf lib)) → All AllConfigured l
      → All (λ (e : EthIf lib). All StaysValid e.network) l
  All-stay fair [] h = tt
  All-stay fair (e ∷ l) h = (stays fair e.network h.0, All-stay fair l h.1)

  -- With choices that Go can make, if the file is read without a panic and without a range that has
  -- no end: from the handler of any network of any interface that `readConfig` answers, however
  -- packets, goroutines, expiries and releases through the API follow each other on that network,
  -- the pool satisfies the invariant.
  pub read_config-StaysValid :
      (fair : IsFair lib) (l : List (EthIf lib))
      → read_config lib env ini cfg ≡ some l
      → All (λ (e : EthIf lib). All StaysValid e.network) l
  read_config-StaysValid fair l e = All-stay fair l (read_config-AllConfigured l e)
