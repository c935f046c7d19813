-- ===== src/Tests/Leases.antt =====
-- The API, the sockets and the dictionary at concrete inputs.
use standalone_dhcp.Prelude.{
  ℕ, ◌+◌, ◌≡◌, refl, Option, true, false, not, some, none, [], ◌∷◌, map, All, string_eq,
}
use standalone_dhcp.Prelude.Int.{ℤ, pos}
use standalone_dhcp.Prelude.Map.{lookup, insert}
use standalone_dhcp.Net.{contains, masked_equal, to4, ipv4}
use standalone_dhcp.Convert.{split, parse_ip, parse_by, parse_ipv4, v4_chars, v4_char, v4_end}
use standalone_dhcp.Texts.{text_bytes}
use standalone_dhcp.Handler.{ip_string, be_uint32}
use standalone_dhcp.Request.{record_lease}
use standalone_dhcp.Serve.{Network}
use standalone_dhcp.Dictionary.{ip_addr_string, ip_rounds, ip_round}
use standalone_dhcp.Dictionary.Addresses.{groups, joined, ip_addr_string-joined}
use standalone_dhcp.Sockets.{Kernel, Action, listen_and_serve_if, listen_and_serve_if_unicast}
use standalone_dhcp.Sockets.Closed.{listen_and_serve_if-closes}
use standalone_dhcp.Config.Interfaces.{EthIf}
use standalone_dhcp.Config.Start.{read_config-AllConfigured}
use standalone_dhcp.Api.Leases.{Daemon, node, handle_ip2mac, handle_mac2ip, handle_release_ip}
use standalone_dhcp.Api.Leases.Released.{
  IsReleasedBy, is_served, is_refused, handle_release_ip-IsReleasedBy, is_refused-handle_release_ip,
}
use standalone_dhcp.Api.Leases.Shown.{record_lease-IsShown}
use standalone_dhcp.Api.Statistics.{Stats, no_stats, stats_of, option_texts, members_of}
use standalone_dhcp.Api.Pages.{int_name_to_interface, handle_all_stats}
use standalone_dhcp.Api.Pages.Answered.{IsSome, AllRunning, All-AllRunning, handle_all_stats-IsSome}
use standalone_dhcp.Static.{ips_from_range, range_of, ranges_of}
use standalone_dhcp.Tests.Networks.{offered, message, network}
use standalone_dhcp.Tests.Inis.{list_ini}
use standalone_dhcp.Tests.Statics.{inc_last}
use standalone_dhcp.Tests.Starts.{setting, config_file, started, starts}
use standalone_dhcp.Tests.Libraries.{lib_of, dated_items}

ip_addr_string-joined_example :
    ip_addr_string (λ ip. "") (192 ∷ 0 ∷ 2 ∷ 1 ∷ 192 ∷ 0 ∷ 2 ∷ 2 ∷ 9 ∷ [])
    ≡ joined (map (ip_string (λ ip. "")) (groups (192 ∷ 0 ∷ 2 ∷ 1 ∷ 192 ∷ 0 ∷ 2 ∷ 2 ∷ 9 ∷ [])))
ip_addr_string-joined_example =
    ip_addr_string-joined (λ ip. "") (192 ∷ 0 ∷ 2 ∷ 1 ∷ 192 ∷ 0 ∷ 2 ∷ 2 ∷ 9 ∷ [])

two_addresses :
    ip_addr_string (λ ip. "") (192 ∷ 0 ∷ 2 ∷ 1 ∷ 192 ∷ 0 ∷ 2 ∷ 2 ∷ 9 ∷ []) ≡ "192.0.2.1,192.0.2.2"
unfolding ip_addr_string ip_rounds ip_round ip_string to4
two_addresses = refl

-- Every call succeeds, on the descriptor 3, and the loop ends with an error.
abbrev kernel : Kernel
kernel = record { socket = some 3; succeeds = λ s c. true; dup = λ s. s + 1 }

abbrev loop : ℕ → Action (Unit {0})
loop conn fds = (none, fds)

listen_and_serve_if-closes_example :
    ((listen_and_serve_if kernel loop true "eth0" (1 ∷ [])).1 ≡ 1 ∷ [])
    × ((listen_and_serve_if_unicast kernel loop true "relay" "eth0" (ipv4 192 0 2 1) 68 (1 ∷ [])).1
        ≡ 1 ∷ [])
listen_and_serve_if-closes_example =
    listen_and_serve_if-closes kernel loop true "relay" "eth0" (ipv4 192 0 2 1) 68 (1 ∷ [])
      (λ conn fds. refl)

-- A network with a lease that the process knows by its address and by its client.
abbrev leased : Network (lib_of false)
leased = record network { dhcp_handler = offered.handler }

abbrev leasing : EthIf (lib_of false)
leasing = record {
  interface = record {
    name = "eth0";
    ipv4 = ipv4 192 0 2 1;
    interface_type = "server";
    relay_ip = [];
  };
  ipv6 = [];
  layer2 = leased.network ∷ [];
  network = leased ∷ [];
  listen_port = 67;
}

abbrev daemon : Daemon (lib_of false)
daemon = record {
  ints_net = leasing ∷ [];
  ips = ("192.0.2.11", "02:00:00:00:00:01") ∷ [];
  macs = ("02:00:00:00:00:01", "192.0.2.11") ∷ [];
}

handle_release_ip-IsReleasedBy_example :
    IsReleasedBy
      (lib_of false)
      "02:00:00:00:00:01"
      (lookup "02:00:00:00:00:01" daemon.macs)
      daemon
      (handle_release_ip (lib_of false) "02:00:00:00:00:01" daemon).1
handle_release_ip-IsReleasedBy_example =
    handle_release_ip-IsReleasedBy (lib_of false) "02:00:00:00:00:01" daemon

is_refused-handle_release_ip_example :
    is_refused (lib_of false) (handle_release_ip (lib_of false) "02:00:00:00:00:01" daemon).0
    ≡ not (is_served (lib_of false) "02:00:00:00:00:01" daemon)
is_refused-handle_release_ip_example =
    is_refused-handle_release_ip (lib_of false) "02:00:00:00:00:01" daemon

served_here : is_served (lib_of false) "02:00:00:00:00:01" daemon ≡ true
unfolding lookup contains masked_equal to4 parse_ip parse_by parse_ipv4 v4_chars v4_char v4_end
    text_bytes ipv4
served_here = refl

record_lease-IsShown_example :
    let s' = record_lease (lib_of false) message (ipv4 192 0 2 11) (pos 1) offered in
    let d : Daemon (lib_of false) = record {
      ints_net = leasing ∷ [];
      ips = s'.ips;
      macs = s'.macs;
    } in
    let text = ip_string (λ ip. "") (ipv4 192 0 2 11) in
    ((at : ℤ) × (handle_ip2mac (lib_of false) text d
        ≡ node (record { mac = message.client; ip = text; ends_at = at })))
    × ((at : ℤ) × (handle_mac2ip (lib_of false) message.client d
          ≡ node (record { mac = message.client; ip = text; ends_at = at })))
record_lease-IsShown_example =
    record_lease-IsShown (lib_of false) message (ipv4 192 0 2 11) (pos 1) offered (leasing ∷ [])

-- The statistics of a network with one lease.
abbrev or_empty_stats : Option Stats → Stats
or_empty_stats none = no_stats
or_empty_stats (some s) = s

abbrev counted : Stats
counted = or_empty_stats (stats_of (lib_of false) inc_last 4 (λ b. "eth0") "eth0" leased)

counts : stats_of (lib_of false) inc_last 4 (λ b. "eth0") "eth0" leased ≡ some counted
unfolding stats_of option_texts members_of ips_from_range dated_items insert be_uint32 to4 ranges_of
    split range_of
counts = refl

started-AllRunning : All (AllRunning (lib_of false) setting (λ b. "eth0")) started
started-AllRunning =
    All-AllRunning (lib_of false) setting (λ b. "eth0") offered started
      (read_config-AllConfigured (lib_of false) setting list_ini config_file started starts)

handle_all_stats-IsSome_example : IsSome (
    handle_all_stats
      (lib_of false)
      inc_last
      4
      (λ b. "eth0")
      list_ini
      (some config_file)
      (int_name_to_interface (lib_of false) inc_last 4 (λ b. "eth0") started []))
handle_all_stats-IsSome_example =
    handle_all_stats-IsSome (lib_of false) setting (λ b. "eth0") list_ini (some config_file) started
      started-AllRunning
