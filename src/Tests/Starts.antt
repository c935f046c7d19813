-- ===== src/Tests/Starts.antt =====
-- The start of the program at a concrete input: an interface with 192.0.2.1/24, and a section of
-- the file for that network, whose pool has the four addresses from 192.0.2.10 on; one is kept out
-- and one is given to a client.
use standalone_dhcp.Prelude.{
  ◌≡◌, refl, false, Option, none, some, String, List, [], ◌∷◌, nat_eq, string_eq, if◌then◌else◌,
  length, All,
}
use standalone_dhcp.Prelude.Int.{int_eq}
use standalone_dhcp.Prelude.Map.{lookup, insert, delete}
use standalone_dhcp.Net.{IpNet, bytes_equal, contains, masked_equal, to4, ipv4, ip_equal}
use standalone_dhcp.Convert.{
  Bytes, parse_ip, parse_by, parse_ipv4, v4_chars, v4_char, v4_end, split, atoi, uint_digits,
}
use standalone_dhcp.Utils.{safe_int_to_uint64}
use standalone_dhcp.Texts.{
  text_bytes, network_name, strip_prefix, mask_size, mask_ones, is_ipv4, is_ipv6, colons,
}
use standalone_dhcp.Handler.{be_uint32, ip_string}
use standalone_dhcp.Pool.{new_dhcp_pool, fill, reserve_ip_index}
use standalone_dhcp.Static.{
  range_of, ranges_of, range_from, reread, ips_from_range, exclude_ips, assign_ips, position_of,
}
use standalone_dhcp.Static.Assignments.{assigned_pairs}
use standalone_dhcp.Config.{
  Setting, Device, is_wanted, is_backward, read_pool, read_network, new_handler,
}
use standalone_dhcp.Config.Interfaces.{
  EthIf, read_sections, with_address, read_addresses, read_interfaces, read_relays, read_config,
}
use standalone_dhcp.Config.Sections.{IsAnswered, read_network-IsAnswered}
use standalone_dhcp.Config.Start.{StaysValid, read_config-StaysValid}
use standalone_dhcp.Tests.Inis.{ListFile, list_ini, find_value}
use standalone_dhcp.Tests.Statics.{inc_last}
use standalone_dhcp.Serve.{Network}
use standalone_dhcp.Prelude.Int.{pos}
use standalone_dhcp.Handler.{State, hwcache_delete}
use standalone_dhcp.Serve.Invariant.{start, then_, expires}
use standalone_dhcp.Config.Sections.{IsConfigured}
use standalone_dhcp.Config.Start.{read_config-AllConfigured}
use standalone_dhcp.Api.Statistics.Running.{IsRunning}
use standalone_dhcp.Tests.Networks.{fresh, network}
use standalone_dhcp.Tests.Libraries.{lib_of, lib_of-IsFair}

abbrev device : Device
device = record {
  name = "eth0";
  addresses =
      (ipv4 192 0 2 1, record { ip = 192 ∷ 0 ∷ 2 ∷ 0 ∷ []; mask = 255 ∷ 255 ∷ 255 ∷ 0 ∷ [] }) ∷ [];
}

abbrev pub setting : Setting
setting = record {
  by_name = λ b. if bytes_equal b (text_bytes "eth0") then some device else none;
  inc = inc_last;
  fuel = 4;
  now = λ i. i;
  seed = 0;
}

abbrev entry : Bytes → String → String → Bytes × Bytes × Bytes
entry s k v = (s, text_bytes k, text_bytes v)

abbrev lab : Bytes
lab = text_bytes "network 192.0.2.0"

abbrev pub config_file : ListFile
config_file = record {
  names = text_bytes "interfaces" ∷ lab ∷ [];
  entries =
      entry (text_bytes "interfaces") "listen" "eth0"
      ∷ entry lab "dhcp_start" "192.0.2.10"
      ∷ entry lab "dhcp_end" "192.0.2.13"
      ∷ entry lab "netmask" "255.255.255.0"
      ∷ entry lab "dhcp_default_lease_time" "600"
      ∷ entry lab "ip_reserved" "192.0.2.10"
      ∷ entry lab "algorithm" "1"
      ∷ [];
}

abbrev or_none : Option (List (EthIf (lib_of false))) → List (EthIf (lib_of false))
or_none none = []
or_none (some l) = l

abbrev pub started : List (EthIf (lib_of false))
started = or_none (read_config (lib_of false) setting list_ini config_file)

pub starts : read_config (lib_of false) setting list_ini config_file ≡ some started
unfolding read_config read_interfaces read_addresses read_sections read_network is_wanted
    is_backward contains masked_equal to4 ipv4 text_bytes mask_size network_name mask_ones
    strip_prefix find_value parse_ip parse_by parse_ipv4 v4_chars v4_char v4_end split is_ipv4
    is_ipv6 colons ip_string be_uint32 with_address read_pool ips_from_range range_of ranges_of
    range_from reread new_dhcp_pool fill insert lookup delete safe_int_to_uint64 atoi uint_digits
    exclude_ips assign_ips read_relays assigned_pairs position_of reserve_ip_index ip_equal
starts = refl

starts_once : length started ≡ 1
unfolding read_config read_interfaces read_addresses read_sections read_network is_wanted
    is_backward contains masked_equal to4 ipv4 text_bytes mask_size network_name mask_ones
    strip_prefix find_value parse_ip parse_by parse_ipv4 v4_chars v4_char v4_end split is_ipv4
    is_ipv6 colons ip_string be_uint32 with_address read_pool ips_from_range range_of ranges_of
    range_from reread new_dhcp_pool fill insert lookup delete safe_int_to_uint64 atoi uint_digits
    exclude_ips assign_ips read_relays assigned_pairs position_of reserve_ip_index ip_equal
starts_once = refl

read_config-StaysValid_example :
    All
      (λ (e : EthIf (lib_of false)).
        All (StaysValid (lib_of false) setting list_ini config_file) e.network)
      started
read_config-StaysValid_example =
    read_config-StaysValid (lib_of false) setting list_ini config_file (lib_of-IsFair false) started
      starts

-- The section of the file.
abbrev values : String → Bytes
values = list_ini.value config_file lab

abbrev lab_net : IpNet
lab_net = record { ip = 192 ∷ 0 ∷ 2 ∷ 0 ∷ []; mask = 255 ∷ 255 ∷ 255 ∷ 0 ∷ [] }

read_network-IsAnswered_example :
    IsAnswered
      (lib_of false)
      setting
      lab_net
      values
      (read_network (lib_of false) setting (ipv4 192 0 2 1) lab_net (text_bytes "192.0.2.0") values)
read_network-IsAnswered_example =
    read_network-IsAnswered (lib_of false) setting (ipv4 192 0 2 1) lab_net (text_bytes "192.0.2.0")
      values

-- The network that the program starts with, and later, after a packet's entry of the cache ran out.
abbrev first_of : List (Network (lib_of false)) → Network (lib_of false)
first_of [] = network
first_of (v ∷ l) = v

abbrev first_network : List (EthIf (lib_of false)) → Network (lib_of false)
first_network [] = network
first_network (e ∷ l) = first_of e.network

abbrev origin : Network (lib_of false)
origin = first_network started

origin-IsConfigured : IsConfigured (lib_of false) setting origin
unfolding read_config read_interfaces read_addresses read_sections read_network is_wanted
    is_backward contains masked_equal to4 ipv4 text_bytes mask_size network_name mask_ones
    strip_prefix find_value parse_ip parse_by parse_ipv4 v4_chars v4_char v4_end split is_ipv4
    is_ipv6 colons ip_string be_uint32 with_address read_pool ips_from_range range_of ranges_of
    range_from reread new_dhcp_pool fill insert lookup delete safe_int_to_uint64 atoi uint_digits
    exclude_ips assign_ips read_relays assigned_pairs position_of reserve_ip_index ip_equal
origin-IsConfigured =
    (read_config-AllConfigured (lib_of false) setting list_ini config_file started starts).0.0

abbrev first : State (lib_of false)
first = record fresh { handler = origin.dhcp_handler }

abbrev last : State (lib_of false)
last = hwcache_delete (lib_of false) "02:00:00:00:00:01" first

abbrev pub later_on : Network (lib_of false)
later_on = record origin { dhcp_handler = last.handler }

pub later_on-IsRunning : IsRunning (lib_of false) setting (λ b. "eth0") later_on
later_on-IsRunning = record {
  origin = origin;
  configured = origin-IsConfigured;
  first = first;
  last = last;
  begins = refl;
  runs = then_ start (expires "02:00:00:00:00:01");
  reached = refl;
}

pub later_on-range : later_on.dhcp_handler.lease_range ≡ pos 4
unfolding hwcache_delete new_handler read_config read_interfaces read_addresses read_sections
    read_network is_wanted is_backward contains masked_equal to4 ipv4 text_bytes mask_size
    network_name mask_ones strip_prefix find_value parse_ip parse_by parse_ipv4 v4_chars v4_char
    v4_end split is_ipv4 is_ipv6 colons ip_string be_uint32 with_address read_pool ips_from_range
    range_of ranges_of range_from reread new_dhcp_pool fill insert lookup delete safe_int_to_uint64
    atoi uint_digits exclude_ips assign_ips read_relays assigned_pairs position_of reserve_ip_index
    ip_equal
later_on-range = refl
