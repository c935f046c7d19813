-- ===== src/Api/Configuration.antt =====
-- api.go: the handlers that show and replace the configuration file. The disk is the text of the file.
use standalone_dhcp.Prelude.{
  ℕ, Bool, Option, none, some, String, List, [], ◌∷◌, ◌++◌, ◌==◌, nat_eq, if◌then◌else◌, length,
}
use standalone_dhcp.Convert.{Bytes, split}
use standalone_dhcp.Texts.{text_bytes, network_name}
use standalone_dhcp.Ini.{Ini}

-- `ConfigSection`.
pub record ConfigSection : Type 0 where
  pub network : Bytes
  pub dns : Bytes
  pub gateway : Bytes
  pub dhcp_start : Bytes
  pub dhcp_end : Bytes
  pub netmask : Bytes
  pub domain_name : Bytes
  pub dhcp_default_lease_time : Bytes
  pub dhcp_max_lease_time : Bytes
  pub dhcp_enabled : Bytes
  pub ip_reserved : Bytes
  pub ip_assigned : Bytes
  pub algorithm : Bytes
  pub next_hop : Bytes

-- `ConfigResponse`, which is the body of an update too.
pub record ConfigResponse : Type 0 where
  pub interfaces : List Bytes
  pub relay : List Bytes
  pub networks : List ConfigSection

-- What is written: an error with its status, the configuration, or that it was updated.
pub data ConfigReply : Type 0 where
  fails : ℕ → ConfigReply
  shows : ConfigResponse → ConfigReply
  success : ConfigReply

-- `strings.Join(l, ",")`.
unfoldable pub join : List Bytes → Bytes
join [] = []
join (s ∷ []) = s
join (s ∷ t ∷ rest) = s ++ b',' ∷ join (t ∷ rest)

-- A section as it is shown, from the values of its keys.
unfoldable pub config_section : Bytes → (String → Bytes) → ConfigSection
config_section name sec = record {
  network = name;
  dns = sec "dns";
  gateway = sec "gateway";
  dhcp_start = sec "dhcp_start";
  dhcp_end = sec "dhcp_end";
  netmask = sec "netmask";
  domain_name = sec "domain-name";
  dhcp_default_lease_time = sec "dhcp_default_lease_time";
  dhcp_max_lease_time = sec "dhcp_max_lease_time";
  dhcp_enabled = sec "dhcpd";
  ip_reserved = sec "ip_reserved";
  ip_assigned = sec "ip_assigned";
  algorithm = sec "algorithm";
  next_hop = sec "next_hop";
}

-- The loop over the sections of the file, with their values.
unfoldable pub shown_networks : (Bytes → String → Bytes) → List Bytes → List ConfigSection
shown_networks value [] = []
shown_networks value (key ∷ keys) = elim (network_name key) [
  | none ↦ shown_networks value keys
  | some name ↦ config_section name (value key) ∷ shown_networks value keys
]

-- A list of names, which is nil for the empty text.
abbrev pub names_of : Bytes → List Bytes
names_of text = if length text == 0 then [] else split b',' text

-- The keys of a section in the order in which they are written, with the values of an update.
abbrev pub fields_of : ConfigSection → List (String × Bytes)
fields_of n =
    ("dns", n.dns)
    ∷ ("gateway", n.gateway)
    ∷ ("dhcp_start", n.dhcp_start)
    ∷ ("dhcp_end", n.dhcp_end)
    ∷ ("netmask", n.netmask)
    ∷ ("domain-name", n.domain_name)
    ∷ ("dhcp_default_lease_time", n.dhcp_default_lease_time)
    ∷ ("dhcp_max_lease_time", n.dhcp_max_lease_time)
    ∷ ("dhcpd", n.dhcp_enabled)
    ∷ ("ip_reserved", n.ip_reserved)
    ∷ ("ip_assigned", n.ip_assigned)
    ∷ ("algorithm", n.algorithm)
    ∷ ("next_hop", n.next_hop)
    ∷ []

abbrev pub section_name : ConfigSection → Bytes
section_name n = text_bytes "network " ++ n.network

module _ (ini : Ini) where
  abbrev pub shown_config : (Bytes → String → Bytes) → List Bytes → ConfigResponse
  shown_config value sections = record {
    interfaces = names_of (value (text_bytes "interfaces") "listen");
    relay = names_of (value (text_bytes "interfaces") "relay");
    networks = shown_networks value sections;
  }

  abbrev pub shown_file : Option ini.File → ConfigReply
  shown_file none = fails 500
  shown_file (some f) = shows (shown_config (ini.value f) (ini.section_strings f))

  unfoldable pub handle_get_config : Bytes → ConfigReply
  handle_get_config disk = shown_file (ini.load disk)

  -- `if v != "" { sec.Key(k).SetValue(v) }`.
  abbrev pub set_value_if : Bytes → String → Bytes → ini.File → ini.File
  set_value_if s k v f = if length v == 0 then f else ini.set_value f s k v

  unfoldable pub set_values : Bytes → List (String × Bytes) → ini.File → ini.File
  set_values s [] f = f
  set_values s ((k, v) ∷ rest) f = set_values s rest (set_value_if s k v f)

  -- The loop over the networks of an update.
  unfoldable pub add_networks : List ConfigSection → ini.File → Option ini.File
  add_networks [] f = some f
  add_networks (n ∷ rest) f = elim (ini.new_section f (section_name n)) [
    | none ↦ none
    | some f' ↦ add_networks rest (set_values (section_name n) (fields_of n) f')
  ]

  abbrev pub join_if : String → List Bytes → ini.File → ini.File
  join_if k l f = if length l == 0 then f else ini.set_value f (text_bytes "interfaces") k (join l)

  -- The file of an update.
  unfoldable pub updated_file : ConfigResponse → Option ini.File
  updated_file c = elim (ini.new_section ini.empty (text_bytes "interfaces")) [
    | none ↦ none
    | some f ↦ add_networks c.networks (join_if "relay" c.relay (join_if "listen" c.interfaces f))
  ]

  abbrev saved_file : Bool × Bytes → ConfigReply × Bytes
  saved_file (done, disk) = (if done then success else fails 500, disk)

  abbrev pub save_update : Bytes → Option ini.File → ConfigReply × Bytes
  save_update disk none = (fails 500, disk)
  save_update disk (some f) = saved_file (ini.save f disk)

  -- The body as it is decoded: `none` is text that is no configuration.
  unfoldable pub handle_update_config : Option ConfigResponse → Bytes → ConfigReply × Bytes
  handle_update_config none disk = (fails 400, disk)
  handle_update_config (some c) disk = save_update disk (updated_file c)
