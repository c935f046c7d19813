-- ===== src/Api/Leases/Shown.antt =====
-- interface.go and api.go: a lease that is granted is shown by the API.
use standalone_dhcp.Prelude.{◌≡◌, refl, ◌∙◌, Option, none, some, List, string_eq, arith, beq_self}
use standalone_dhcp.Prelude.Int.{ℤ, pos, ◌+ℤ◌}
use standalone_dhcp.Net.{IpAddr}
use standalone_dhcp.Dhcp.{Lib, value_of}
use standalone_dhcp.Handler.{State, ip_string}
use standalone_dhcp.Request.{Message, record_lease}
use standalone_dhcp.Config.Interfaces.{EthIf}
use standalone_dhcp.Api.Leases.{node, Daemon, handle_ip2mac, handle_mac2ip}

module _ (lib : Lib) where
  open lib use {ints, texts, world}

  found_value :
      {V : Type 0} (o : Option (V × ℤ)) (v : V)
      → value_of o ≡ some v
      → (at : ℤ) × (o ≡ some (v, at))
  found_value none v e = absurd (ground (arith, e))
  found_value (some (w, at)) v e = (at, ground (arith, e))

  -- Right after an acknowledgement has written its lease, a request for the IP address shows the
  -- hardware address of the client, and a request for the hardware address shows the IP address.
  pub record_lease-IsShown :
      (m : Message lib) (ip : IpAddr) (index : ℤ) (s : State lib) (l : List (EthIf lib))
      → let s' = record_lease lib m ip index s in
        let d : Daemon lib = record { ints_net = l; ips = s'.ips; macs = s'.macs } in
        let text = ip_string world.long_string ip in
        ((at : ℤ) × (handle_ip2mac lib text d
            ≡ node (record { mac = m.client; ip = text; ends_at = at })))
        × ((at : ℤ) × (handle_mac2ip lib m.client d
              ≡ node (record { mac = m.client; ip = text; ends_at = at })))
  unfolding record_lease handle_ip2mac handle_mac2ip
  record_lease-IsShown m ip index s l =
      let text = ip_string world.long_string ip in
      let ttl = s.handler.lease_duration +ℤ pos 15 in
      let set_ip : texts.get (texts.set s.ips text m.client ttl) text ≡ some m.client =
        texts.get-set s.ips text m.client ttl text ∙ rw (beq_self text) refl in
      let set_mac : texts.get (texts.set s.macs m.client text ttl) m.client ≡ some text =
        texts.get-set s.macs m.client text ttl m.client ∙ rw (beq_self m.client) refl in
      let (at, e) =
        found_value _ m.client
          (texts.get_with_expiration_lem (texts.set s.ips text m.client ttl) text ∙ set_ip) in
      let (at', e') =
        found_value _ text
          (texts.get_with_expiration_lem (texts.set s.macs m.client text ttl) m.client ∙ set_mac) in
      ((at, rw (e, handle_ip2mac) refl), (at', rw (e', handle_mac2ip) refl))
