-- ===== src/Api/Statistics/Total.antt =====
-- api.go and dictionary.go: the statistics of a network of the configuration are answered.
use standalone_dhcp.Prelude.{string_eq, ℕ, ◌≡◌, refl, ap, ◌∙◌, some, String, List, [], ◌∷◌}
use standalone_dhcp.Prelude.Int.{ℤ}
use standalone_dhcp.Prelude.Map.{Map, lookup, insert}
use standalone_dhcp.Net.{IpAddr, to4}
use standalone_dhcp.Convert.{Bytes}
use standalone_dhcp.Dictionary.{tlvlist, option_string, decode_string}
use standalone_dhcp.Texts.{lease_text}
use standalone_dhcp.Dhcp.{Lib}
use standalone_dhcp.Handler.{Handler, be_uint32}
use standalone_dhcp.Serve.{Network}
use standalone_dhcp.Config.{Setting, read_options}
use standalone_dhcp.Config.Sections.{IsConfigured}
use standalone_dhcp.Api.Leases.{Node}
use standalone_dhcp.Api.Statistics.{Stats, option_texts, members_of, stats_of}

module _ (lib : Lib) (env : Setting) (of_bytes : Bytes → String) where
  open lib use {ints, world}

  -- The four options of a section have decoders that answer every value.
  read_options-decode :
      (sec : String → Bytes) (texts : Map String String)
      → (t : Map String String) × (option_texts lib env.inc env.fuel of_bytes
            (read_options lib env sec)
            texts
          ≡ some t)
  unfolding option_texts read_options insert option_string lookup tlvlist decode_string
  read_options-decode sec texts = (_, refl)

  members_of-some :
      (start : IpAddr) (first : ℕ) (items : Map String (ℤ × ℤ))
      → be_uint32 (to4 start) ≡ some first
      → (l : List Node) × (members_of lib env.inc env.fuel of_bytes start items ≡ some l)
  unfolding members_of
  members_of-some start first [] e = ([], refl)
  members_of-some start first ((mac, item) ∷ rest) e =
      let (l, later) = members_of-some start first rest e in rw (e, later, members_of) (_, refl)

  -- What no call changes of a handler.
  pub record SameSettings (h h' : Handler lib) : Type 0 where
    pub options : h'.options ≡ h.options
    pub start : h'.start ≡ h.start
    pub ip_reserved : h'.ip_reserved ≡ h.ip_reserved

  -- The settings of a configured network have statistics, whatever its leases are.
  pub stats_of-some :
      (name : String) (v w : Network lib)
      → IsConfigured lib env v
      → SameSettings v.dhcp_handler w.dhcp_handler
      → (s : Stats) × (stats_of lib env.inc env.fuel of_bytes name w ≡ some s)
  unfolding stats_of
  stats_of-some name v w c same =
      let h = w.dhcp_handler in
      let (sec, of_sec) = c.optioned in
      let (first, at_first) = c.numbered in
      let (ips, readable) = c.readable in
      let (texts, o) =
        read_options-decode sec
          (insert "optionIPAddressLeaseTime" (lease_text h.lease_duration) []) in
      let (members, m) =
        members_of-some h.start first (ints.items h.hwcache)
          (ap (λ a. be_uint32 (to4 a)) same.start ∙ at_first) in
      rw (same.options, of_sec, o, m, same.ip_reserved, readable, stats_of) (_, refl)
