-- ===== src/Api/Statistics.antt =====
-- api.go: `handleApiReq` and the handlers that show statistics. `of_bytes` is the conversion of bytes
-- to a text, and the reading of the configuration file is that of the library.
pub mod Running
pub mod Accounts
pub mod Total
use standalone_dhcp.Prelude.{
  ℕ, zero, suc, ◌+◌, ◌-◌, ◌*◌, ◌/◌, ◌%◌, ◌^◌, refl, Bool, true, false, not, ◌&&◌, ◌||◌, Option,
  none, some, String, List, [], ◌∷◌, ◌==◌, nat_eq, string_eq, ltb, leb, if◌then◌else◌, length,
}
use standalone_dhcp.Prelude.Int.{ℤ, pos, negsuc, int_eq, ◌-ℤ◌}
use standalone_dhcp.Prelude.Map.{Map, lookup, insert}
use standalone_dhcp.Net.{IpAddr, contains, to4}
use standalone_dhcp.Convert.{Bytes, parse_ip, put_uint32, split}
use standalone_dhcp.Utils.{safe_uint64_to_int}
use standalone_dhcp.Pool.{free_ips_remaining}
use standalone_dhcp.Texts.{text_bytes, net_string, int_text, lease_text}
use standalone_dhcp.Dictionary.{option_string}
use standalone_dhcp.Static.{ips_from_range}
use standalone_dhcp.Dhcp.{Lib}
use standalone_dhcp.Handler.{Handler, be_uint32, ip_string}
use standalone_dhcp.Serve.{Network}
use standalone_dhcp.Config.Interfaces.{EthIf}
use standalone_dhcp.Api.{lower_by, to_lower}
use standalone_dhcp.Api.Leases.{Node}
use standalone_dhcp.Percent.{percent}
use Prim.Native.String.{◌++◌}
use Prim.Native.Char.{Char, code}

-- `Stats`.
pub record Stats : Type 0 where
  pub ethernet_name : String
  pub net : String
  pub free : ℤ
  pub percent_free : Option ℕ
  pub used : ℤ
  pub percent_used : Option ℕ
  pub category : String
  pub options : Map String String
  pub members : List Node
  pub status : String
  pub size : ℤ

-- `Stats{}`.
abbrev pub no_stats : Stats
no_stats = record {
  ethernet_name = "";
  net = "";
  free = pos 0;
  percent_free = some 0;
  used = pos 0;
  percent_used = some 0;
  category = "";
  options = [];
  members = [];
  status = "";
  size = pos 0;
}

-- `ApiReq`.
pub record ApiReq : Type 0 where
  pub req : String
  pub net_interface : String
  pub net_work : String
  pub role : String

-- The first letter of the name of an option in lower case.
unfoldable pub lower_first : String → String
lower_first String.[] = String.[]
lower_first (String.◌∷◌ c s) =
    String.◌∷◌ (lower_by (code c) c (ltb 64 (code c) && ltb (code c) 91) refl) s

-- `uint32(n)`.
abbrev pub uint32_of : ℤ → ℕ
uint32_of (pos n) = n % 2 ^ 32
uint32_of (negsuc n) = 2 ^ 32 - 1 - n % 2 ^ 32

-- `Count`: the members, and the addresses that are kept out, if they are not one.
abbrev pub count_of : List Node → List IpAddr → ℕ
count_of members reserved =
    if length reserved == 1 then length members else length members + length reserved

unfoldable pub status_of : ℤ → ℤ → ℕ → String
status_of lease_range available count =
    if pos count == lease_range -ℤ available
    then "Normal"
    else "Calculated available IP "
      ++ (int_text (lease_range -ℤ pos count)
          ++ (" is different than what we have available in the pool " ++ int_text available))

module _ (lib : Lib) (inc : IpAddr → IpAddr) (fuel : ℕ) (of_bytes : Bytes → String) where
  open lib use {dhcp4, ints, world}

  -- The texts of the options; `none` is a panic, on a value or a code that the dictionary does not
  -- decode.
  unfoldable pub option_texts : Map ℕ Bytes → Map String String → Option (Map String String)
  option_texts [] texts = some texts
  option_texts ((code, value) ∷ rest) texts =
      elim (option_string world.long_string of_bytes code value) [
        | none ↦ none
        | some text ↦ option_texts rest (insert (lower_first (dhcp4.option_name code)) text texts)
      ]

  -- The loop over the cache of hardware addresses.
  unfoldable pub members_of : IpAddr → Map String (ℤ × ℤ) → Option (List Node)
  members_of start [] = some []
  members_of start ((mac, item) ∷ rest) = elim (be_uint32 (to4 start)) [
    | none ↦ none
    | some first ↦ elim (members_of start rest) [
      | none ↦ none
      | some more ↦ some (
          record {
            mac = mac;
            ip = ip_string world.long_string (put_uint32 ((first + uint32_of item.0) % 2 ^ 32));
            ends_at = item.1;
          }
          ∷ more)
    ]
  ]

  unfoldable pub stats_of : String → Network lib → Option Stats
  stats_of name v =
      let h = v.dhcp_handler in
      let available = safe_uint64_to_int (free_ips_remaining h.available) in
      let used = h.lease_range -ℤ available in
      let texts = insert "optionIPAddressLeaseTime" (lease_text h.lease_duration) [] in
      elim (option_texts h.options texts) [
        | none ↦ none
        | some options ↦ elim (members_of h.start (ints.items h.hwcache)) [
          | none ↦ none
          | some members ↦ elim (ips_from_range world.parse_ipv6 inc fuel h.ip_reserved) [
            | none ↦ none
            | some reserved ↦ some (record {
              ethernet_name = name;
              net = net_string world.long_string v.network;
              free = available;
              percent_free = percent available h.lease_range;
              used = used;
              percent_used = percent used h.lease_range;
              category = h.role;
              options = options;
              members = members;
              status = status_of h.lease_range available (count_of members reserved);
              size = h.lease_range;
            })
          ]
        ]
      ]

  -- `net.ParseCIDR(text + "/32")` is an error where the text is no address; then no network is left
  -- out.
  unfoldable pub is_shown : String → Network lib → Bool
  is_shown net_work v =
      let ip = parse_ip world.parse_ipv6 (text_bytes net_work) in
      if length ip == 0 then true else contains v.network ip

  abbrev pub cons_stats : Option Stats → Option (List Stats) → Option (List Stats)
  cons_stats none rest = none
  cons_stats (some s) none = none
  cons_stats (some s) (some rest) = some (s ∷ rest)

  unfoldable pub stats_list : ApiReq → List (Network lib) → Option (List Stats)
  stats_list q [] = some []
  stats_list q (v ∷ rest) =
      let later = stats_list q rest in
      if is_shown q.net_work v then cons_stats (stats_of q.net_interface v) later else later

  unfoldable pub debug_list : ApiReq → List (Network lib) → List Stats
  debug_list q [] = []
  debug_list q (v ∷ rest) =
      let later = debug_list q rest in
      if q.role == v.dhcp_handler.role
      then record no_stats {
        ethernet_name = q.net_interface;
        net = net_string world.long_string v.network;
        free = safe_uint64_to_int (free_ips_remaining v.dhcp_handler.available);
        category = v.dhcp_handler.role;
        status = "Debug finished";
      }
        ∷ later
      else later

  -- `handleApiReq`; what is neither asked for is nil, which is the empty list.
  unfoldable pub handle_api_req : EthIf lib → ApiReq → Option (List Stats)
  handle_api_req e q =
      if q.req == "stats"
      then stats_list q e.network
      else if q.req == "debug"
      then some (debug_list q e.network)
      else some []
