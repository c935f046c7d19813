-- ===== src/Dictionary.antt =====
-- dictionary.go: the option codes that the statistics know, each with the decoder that writes a value
-- as text.
pub mod Addresses
use standalone_dhcp.Prelude.{
  ℕ, ◌+◌, Bool, Option, none, some, String, List, [], ◌∷◌, ◌==◌, nat_eq, if◌then◌else◌, set,
}
use standalone_dhcp.Prelude.Map.{Map, lookup}
use standalone_dhcp.Net.{IpAddr}
use standalone_dhcp.Convert.{Bytes}
use standalone_dhcp.Handler.{ip_string, decimal_text}
use Prim.Native.String.{◌++◌}

-- The variables of type `DataType`: one for each type with a method `String`.
pub data DataType : Type 0 where
  tlv_ip_addr tlv_nstring tlv_blob tlv_stime tlv_zero_size tlv_short tlv_bool : DataType
  tlv_range_short tlv_overload tlv_message tlv_int8 tlv_type_cn tlv_range_byte : DataType

pub record TlvType : Type 0 where
  pub option : String
  pub decode : DataType

-- The variables of the loop of `tlvIpAddrt.String`. `temp` is one buffer of four bytes.
pub record Loop : Type 0 where
  pub ips : String
  pub temp : IpAddr
  pub i : ℕ
  pub j : ℕ

-- One round, for the byte `x`.
unfoldable pub ip_round : (IpAddr → String) → ℕ → Loop → Loop
ip_round long x s =
    let temp = set s.temp s.i x in
    if s.i + 1 == 4
    then (if s.j == 0
        then record { ips = ip_string long temp; temp = temp; i = 0; j = s.j + 1 }
        else record { ips = s.ips ++ "," ++ ip_string long temp; temp = temp; i = 0; j = s.j })
    else record s { temp = temp; i = s.i + 1 }

unfoldable pub ip_rounds : (IpAddr → String) → Bytes → Loop → Loop
ip_rounds long [] s = s
ip_rounds long (x ∷ xs) s = ip_rounds long xs (ip_round long x s)

unfoldable pub ip_addr_string : (IpAddr → String) → Bytes → String
ip_addr_string long a =
    (ip_rounds long a (record { ips = ""; temp = 0 ∷ 0 ∷ 0 ∷ 0 ∷ []; i = 0; j = 0 })).ips

-- `a[0]` of an empty slice is a panic, `none`.
unfoldable pub bool_string : Bytes → Option String
bool_string [] = none
bool_string (b ∷ rest) = some (if b == 1 then "1" else "0")

unfoldable pub int8_string : Bytes → String
int8_string [] = "0"
int8_string (b ∷ rest) = decimal_text 3 b

-- The methods `String`. `of_bytes` is the conversion of bytes to a `string`.
unfoldable pub decode_string :
    (IpAddr → String) → (Bytes → String) → DataType → Bytes → Option String
decode_string long of_bytes tlv_ip_addr a = some (ip_addr_string long a)
decode_string long of_bytes tlv_nstring a = some (of_bytes a)
decode_string long of_bytes tlv_blob a = some "string"
decode_string long of_bytes tlv_stime a = some (of_bytes a)
decode_string long of_bytes tlv_zero_size a = some "string"
decode_string long of_bytes tlv_short a = some "string"
decode_string long of_bytes tlv_bool a = bool_string a
decode_string long of_bytes tlv_range_short a = some "string"
decode_string long of_bytes tlv_overload a = some "string"
decode_string long of_bytes tlv_message a = some "string"
decode_string long of_bytes tlv_int8 a = some (int8_string a)
decode_string long of_bytes tlv_type_cn a = some "string"
decode_string long of_bytes tlv_range_byte a = some "string"

unfoldable pub tlvlist : Map ℕ TlvType
tlvlist =
    (0, record { option = "Pad"; decode = tlv_ip_addr })
    ∷ (1, record { option = "OptionSubnetMask"; decode = tlv_ip_addr })
    ∷ (2, record { option = "OptionTimeOffset"; decode = tlv_stime })
    ∷ (3, record { option = "OptionRouter"; decode = tlv_ip_addr })
    ∷ (4, record { option = "OptionTimeServer"; decode = tlv_ip_addr })
    ∷ (5, record { option = "OptionNameServer"; decode = tlv_ip_addr })
    ∷ (6, record { option = "OptionDomainNameServer"; decode = tlv_ip_addr })
    ∷ (7, record { option = "OptionLogServer"; decode = tlv_ip_addr })
    ∷ (8, record { option = "OptionCookieServer"; decode = tlv_ip_addr })
    ∷ (9, record { option = "OptionLPRServer"; decode = tlv_ip_addr })
    ∷ (10, record { option = "OptionImpressServer"; decode = tlv_ip_addr })
    ∷ (11, record { option = "OptionResourceLocationServer"; decode = tlv_ip_addr })
    ∷ (12, record { option = "OptionHostName"; decode = tlv_nstring })
    ∷ (13, record { option = "OptionBootFileSize"; decode = tlv_short })
    ∷ (14, record { option = "OptionMeritDumpFile"; decode = tlv_nstring })
    ∷ (15, record { option = "OptionDomainName"; decode = tlv_nstring })
    ∷ (16, record { option = "OptionSwapServer"; decode = tlv_ip_addr })
    ∷ (17, record { option = "OptionRootPath"; decode = tlv_nstring })
    ∷ (18, record { option = "OptionExtensionsPath"; decode = tlv_nstring })
    ∷ (19, record { option = "OptionIPForwardingEnableDisable"; decode = tlv_bool })
    ∷ (20, record { option = "OptionNonLocalSourceRoutingEnableDisable"; decode = tlv_bool })
    ∷ (21, record { option = "OptionPolicyFilter"; decode = tlv_ip_addr })
    ∷ (22, record { option = "OptionMaximumDatagramReassemblySize"; decode = tlv_short })
    ∷ (23, record { option = "OptionDefaultIPTimeToLive"; decode = tlv_range_byte })
    ∷ (24, record { option = "OptionPathMTUAgingTimeout"; decode = tlv_stime })
    ∷ (25, record { option = "OptionPathMTUPlateauTable"; decode = tlv_range_short })
    ∷ (26, record { option = "OptionInterfaceMTU"; decode = tlv_range_short })
    ∷ (27, record { option = "OptionAllSubnetsAreLocal"; decode = tlv_bool })
    ∷ (28, record { option = "OptionBroadcastAddress"; decode = tlv_ip_addr })
    ∷ (29, record { option = "OptionPerformMaskDiscovery"; decode = tlv_bool })
    ∷ (30, record { option = "OptionMaskSupplier"; decode = tlv_bool })
    ∷ (31, record { option = "OptionPerformRouterDiscovery"; decode = tlv_bool })
    ∷ (32, record { option = "OptionRouterSolicitationAddress"; decode = tlv_ip_addr })
    ∷ (33, record { option = "OptionStaticRoute"; decode = tlv_ip_addr })
    ∷ (34, record { option = "OptionTrailerEncapsulation"; decode = tlv_bool })
    ∷ (35, record { option = "OptionARPCacheTimeout"; decode = tlv_stime })
    ∷ (36, record { option = "OptionEthernetEncapsulation"; decode = tlv_bool })
    ∷ (37, record { option = "OptionTCPDefaultTTL"; decode = tlv_range_byte })
    ∷ (38, record { option = "OptionTCPKeepaliveInterval"; decode = tlv_stime })
    ∷ (39, record { option = "OptionTCPKeepaliveGarbage"; decode = tlv_bool })
    ∷ (40, record { option = "OptionNetworkInformationServiceDomain"; decode = tlv_nstring })
    ∷ (41, record { option = "OptionNetworkInformationServers"; decode = tlv_ip_addr })
    ∷ (42, record { option = "OptionNetworkTimeProtocolServers"; decode = tlv_ip_addr })
    ∷ (43, record { option = "OptionVendorSpecificInformation"; decode = tlv_blob })
    ∷ (44, record { option = "OptionNetBIOSOverTCPIPNameServer"; decode = tlv_ip_addr })
    ∷ (
      45,
      record { option = "OptionNetBIOSOverTCPIPDatagramDistributionServer"; decode = tlv_ip_addr },
    )
    ∷ (46, record { option = "OptionNetBIOSOverTCPIPNodeType"; decode = tlv_range_byte })
    ∷ (47, record { option = "OptionNetBIOSOverTCPIPScope"; decode = tlv_nstring })
    ∷ (48, record { option = "OptionXWindowSystemFontServer"; decode = tlv_ip_addr })
    ∷ (49, record { option = "OptionXWindowSystemDisplayManager"; decode = tlv_ip_addr })
    ∷ (50, record { option = "OptionRequestedIPAddress"; decode = tlv_ip_addr })
    ∷ (51, record { option = "OptionIPAddressLeaseTime"; decode = tlv_stime })
    ∷ (52, record { option = "OptionOverload"; decode = tlv_overload })
    ∷ (53, record { option = "OptionDHCPMessageType"; decode = tlv_message })
    ∷ (54, record { option = "OptionServerIdentifier"; decode = tlv_ip_addr })
    ∷ (55, record { option = "OptionParameterRequestList"; decode = tlv_int8 })
    ∷ (56, record { option = "OptionMessage"; decode = tlv_nstring })
    ∷ (57, record { option = "OptionMaximumDHCPMessageSize"; decode = tlv_short })
    ∷ (58, record { option = "OptionRenewalTimeValue"; decode = tlv_stime })
    ∷ (59, record { option = "OptionRebindingTimeValue"; decode = tlv_stime })
    ∷ (60, record { option = "OptionVendorClassIdentifier"; decode = tlv_stime })
    ∷ (61, record { option = "OptionClientIdentifier"; decode = tlv_blob })
    ∷ (62, record { option = "OptionNetwareIPDomain"; decode = tlv_nstring })
    ∷ (63, record { option = "OptionNetwareIPInformation"; decode = tlv_blob })
    ∷ (64, record { option = "OptionNetworkInformationServicePlusDomain"; decode = tlv_nstring })
    ∷ (65, record { option = "OptionNetworkInformationServicePlusServers"; decode = tlv_ip_addr })
    ∷ (66, record { option = "OptionTFTPServerName"; decode = tlv_nstring })
    ∷ (67, record { option = "OptionBootFileName"; decode = tlv_nstring })
    ∷ (68, record { option = "OptionMobileIPHomeAgent"; decode = tlv_ip_addr })
    ∷ (69, record { option = "OptionSimpleMailTransportProtocol"; decode = tlv_ip_addr })
    ∷ (70, record { option = "OptionPostOfficeProtocolServer"; decode = tlv_ip_addr })
    ∷ (71, record { option = "OptionNetworkNewsTransportProtocol"; decode = tlv_ip_addr })
    ∷ (72, record { option = "OptionDefaultWorldWideWebServer"; decode = tlv_ip_addr })
    ∷ (73, record { option = "OptionDefaultFingerServer"; decode = tlv_ip_addr })
    ∷ (74, record { option = "OptionDefaultInternetRelayChatServer"; decode = tlv_ip_addr })
    ∷ (75, record { option = "OptionStreetTalkServer"; decode = tlv_ip_addr })
    ∷ (76, record { option = "OptionStreetTalkDirectoryAssistance"; decode = tlv_ip_addr })
    ∷ (77, record { option = "OptionUserClass"; decode = tlv_type_cn })
    ∷ (82, record { option = "OptionRelayAgentInformation"; decode = tlv_blob })
    ∷ (93, record { option = "OptionClientArchitecture"; decode = tlv_short })
    ∷ (100, record { option = "OptionTZPOSIXString"; decode = tlv_nstring })
    ∷ (101, record { option = "OptionTZDatabaseString"; decode = tlv_nstring })
    ∷ (121, record { option = "OptionClasslessRouteFormat"; decode = tlv_blob })
    ∷ (255, record { option = "end"; decode = tlv_zero_size })
    ∷ []

-- `Tlv.Tlvlist[code].Decode.String(value)`: a code that is not in the map has a nil decoder, and its
-- method is a panic.
unfoldable pub option_string : (IpAddr → String) → (Bytes → String) → ℕ → Bytes → Option String
option_string long of_bytes code value = elim (lookup code tlvlist) [
  | none ↦ none
  | some t ↦ decode_string long of_bytes t.decode value
]
