-- ===== src/Tests/Relays.antt =====
-- The relay at a concrete input: packets as records, whose options are those of the list that have a
-- code and a length of an option, each once.
use standalone_dhcp.Prelude.{
  ℕ, ◌≡◌, refl, Bool, true, false, not, ◌&&◌, some, none, List, [], ◌∷◌, ◌==◌, nat_eq, ltb,
  if◌then◌else◌, length, All, arith, Bool-cases, inl, inr,
}
use standalone_dhcp.Prelude.Map.{Map, lookup, insert, lookup-insert, IsDistinct, insert-IsDistinct}
use standalone_dhcp.Net.{to4, ipv4}
use standalone_dhcp.Convert.{Bytes}
use standalone_dhcp.Dhcp.{Dhcp4, Lib, request}
use standalone_dhcp.Relay.{relay}
use standalone_dhcp.Relay.Headers.{header, IsOption, IsPacketApi}
use standalone_dhcp.Relay.Forwarded.{IsForwarded, relay-IsForwarded}
use standalone_dhcp.Tests.Libraries.{lib_of, field_packets, Fields}
use standalone_dhcp.Tests.Networks.{client}

abbrev is_option : ℕ → Bytes → Bool
is_option k v = not (k == 0) && (not (k == 255) && ltb (length v) 256)

unfoldable read_clean : Map ℕ Bytes → Map ℕ Bytes
read_clean [] = []
read_clean ((k, v) ∷ l) = if is_option k v then insert k v (read_clean l) else read_clean l

insert-All :
    (k : ℕ) (v : Bytes) (l : Map ℕ Bytes)
    → IsOption (k, v)
    → All IsOption l
    → All IsOption (insert k v l)
unfolding insert
insert-All k v [] h all = (h, tt)
insert-All k v ((j, w) ∷ l) h all = elim (Bool-cases (j == k)) [
  | inl same ↦ rw same ((all.0.0, all.0.1, h.2), all.1)
  | inr other ↦ rw other (all.0, insert-All k v l h all.1)
]

is_option-IsOption : (k : ℕ) (v : Bytes) → is_option k v ≡ true → IsOption (k, v)
is_option-IsOption k v h = (ground (arith, h), ground (arith, h), ground (arith, h))

read_clean-IsDistinct : (l : Map ℕ Bytes) → IsDistinct (read_clean l)
unfolding read_clean
read_clean-IsDistinct [] = tt
read_clean-IsDistinct ((k, v) ∷ l) = elim (Bool-cases (is_option k v)) [
  | inl good ↦ rw good (insert-IsDistinct k v (read_clean l) (read_clean-IsDistinct l))
  | inr bad ↦ rw bad (read_clean-IsDistinct l)
]

read_clean-All : (l : Map ℕ Bytes) → All IsOption (read_clean l)
unfolding read_clean
read_clean-All [] = tt
read_clean-All ((k, v) ∷ l) = elim (Bool-cases (is_option k v)) [
  | inl good ↦
      rw good (insert-All k v (read_clean l) (is_option-IsOption k v good) (read_clean-All l))
  | inr bad ↦ rw bad (read_clean-All l)
]

abbrev clean_packets : Dhcp4
clean_packets = record field_packets {
  parse_options = λ p. read_clean p.options;
  set_giaddr = λ a p. record p { giaddr = to4 a };
  add_option = λ k v p. record p { options = (k, v) ∷ p.options };
}

abbrev is_whole : Fields → Bool
is_whole p = length p.giaddr == 4

short_same : (a : List ℕ) → (length a == 4) ≡ true → to4 a ≡ a
unfolding to4
short_same a h = ground arith

still_whole :
    (a : List ℕ) (q : Fields)
    → (length a == 4) ≡ true
    → is_whole q ≡ true
    → (length a == 4) ≡ is_whole q
still_whole a q h w = ground (arith, h, w)

read_added :
    (k : ℕ) (v : Bytes) (l : Map ℕ Bytes) (j : ℕ)
    → IsOption (k, v)
    → lookup j (read_clean ((k, v) ∷ l)) ≡ (if k == j then some v else lookup j (read_clean l))
unfolding read_clean
read_added k v l j h =
    let good : is_option k v ≡ true = ground (arith, h.0, h.1, h.2) in
    rw good (lookup-insert k j v (read_clean l))

no_options : (j : ℕ) → lookup {V = Bytes} j (read_clean []) ≡ none
unfolding lookup read_clean
no_options j = refl

clean-IsPacketApi : IsPacketApi clean_packets is_whole is_whole
clean-IsPacketApi = record {
  whole_new = λ n. refl;
  options_new = λ n j. no_options j;
  options-IsDistinct = λ p. read_clean-IsDistinct p.options;
  options-All = λ p. read_clean-All p.options;
  set_chaddr_lem = λ p q ok w. refl;
  set_giaddr_lem = λ p q ok w i. record (header clean_packets is_whole q) {
    whole = (still_whole (to4 p.giaddr) q (rw (short_same p.giaddr ok) ok) w) i;
    giaddr = short_same p.giaddr ok i;
  };
  set_giaddr_short = λ ip q short w i. record (header clean_packets is_whole q) {
    whole = (still_whole (to4 ip) q (ground (arith, short)) w) i;
    giaddr = to4 ip;
  };
  set_ciaddr_lem = λ p q ok w. refl;
  set_yiaddr_lem = λ p q ok w. refl;
  set_siaddr_lem = λ p q ok w. refl;
  set_xid_lem = λ p q ok w. refl;
  set_secs_lem = λ p q ok w. refl;
  set_flags_lem = λ p q ok w. refl;
  set_file_lem = λ p q ok w. refl;
  set_broadcast_lem = λ b q w. refl;
  add_option_lem = λ k v q h w i. record (header clean_packets is_whole q) {
    options = λ j. read_added k v q.options j h i;
  };
}

-- A request that comes through the relay 192.0.2.1.
abbrev clean_lib : Lib
clean_lib = record (lib_of false) { dhcp4 = clean_packets }

short_address : length (to4 (ipv4 192 0 2 1)) ≡ 4
unfolding to4 ipv4
short_address = refl

relay-IsForwarded_example :
    IsForwarded clean_lib is_whole is_whole clean-IsPacketApi request
      (ipv4 192 0 2 1)
      client
      (relay clean_lib request (ipv4 192 0 2 1) client).d
    × ((relay clean_lib request (ipv4 192 0 2 1) client).mac ≡ client.chaddr)
relay-IsForwarded_example =
    relay-IsForwarded clean_lib is_whole is_whole clean-IsPacketApi request (ipv4 192 0 2 1) client
      refl short_address
