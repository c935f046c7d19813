-- ===== src/Convert/Bounds.antt =====
-- database.go: the lengths of the converted options.
use standalone_dhcp.Prelude.{
  ℕ, ◌+◌, ◌*◌, ◌<◌, ◌≡◌, refl, ◌⊎◌, inl, inr, Option, none, some, String, List, [], ◌∷◌, ◌++◌,
  nat_eq, string_eq, length, length-append, arith, Option-cases, ap, subst,
}
use standalone_dhcp.Prelude.Int.{ℤ, pos, negsuc}
use standalone_dhcp.Net.{IpAddr, to4, v4_prefix, after_prefix}
use standalone_dhcp.Convert.{
  Bytes, DhcpOption, to_option_code, v4_bytes, v4_list, option_bytes, convert_option_to_dhcp,
  parse_ip, trim_space, split, put_uint32, map_bytes,
}

length-after_prefix :
    (ps ys : List ℕ)
    → (length (after_prefix ps ys) ≡ 0) ⊎ (length ps + length (after_prefix ps ys) ≡ length ys)
length-after_prefix [] ys = inr (omega arith)
length-after_prefix (p ∷ ps) [] = inl refl
length-after_prefix (p ∷ ps) (y ∷ ys) = ground (arith, length-after_prefix ps ys)

-- The short form of an address is nil or has four bytes.
pub length-to4 : (ip : IpAddr) → (length (to4 ip) ≡ 0) ⊎ (length (to4 ip) ≡ 4)
unfolding to4
length-to4 ip = ground (arith, length-after_prefix v4_prefix ip)

length-v4_bytes : (ip : IpAddr) (bytes : Bytes) → v4_bytes ip ≡ some bytes → length bytes ≡ 4
unfolding v4_bytes
length-v4_bytes ip bytes h = ground (arith, length-to4 ip)

length-v4_list :
    (parse_ipv6 : Bytes → IpAddr) (texts : List Bytes) (bytes : Bytes)
    → v4_list parse_ipv6 texts ≡ some bytes
    → length bytes ≡ 4 * length texts
unfolding v4_list
length-v4_list parse_ipv6 [] bytes h = ground arith
length-v4_list parse_ipv6 (s ∷ rest) bytes h =
    elim (Option-cases (v4_bytes (parse_ip parse_ipv6 (trim_space s)))) [
      | inl e ↦ absurd (ground arith)
      | inr (ip4, e) ↦ elim (Option-cases (v4_list parse_ipv6 rest)) [
        | inl e' ↦ absurd (ground arith)
        | inr (more, e') ↦
            let b : ip4 ++ more ≡ bytes = ground arith in
            rw (← b) (
              omega (
                arith,
                length-append ip4 more,
                length-v4_bytes _ ip4 e,
                length-v4_list parse_ipv6 rest more e',
              ))
      ]
    ]

to_option_code-lt : (c : ℤ) → to_option_code c < 256
unfolding to_option_code
to_option_code-lt (pos n) = omega arith
to_option_code-lt (negsuc n) = omega arith

-- What a value of each type must be to be sent.
pub record HasLength (type : String) (value bytes : Bytes) : Type 0 where
  pub of_ip : type ≡ "ip" → length bytes ≡ 4
  pub of_ips : type ≡ "ips" → length bytes ≡ 4 * length (split b',' value)
  pub of_string : type ≡ "string" → bytes ≡ value
  pub of_uint32 : type ≡ "uint32" → length bytes ≡ 4
  pub of_uint16 : type ≡ "uint16" → length bytes ≡ 2
  pub of_uint8 : type ≡ "uint8" → length bytes ≡ 1

length-map_bytes :
    (f : ℕ → Bytes) (n : ℕ) (o : Option ℕ) (bytes : Bytes)
    → ((x : ℕ) → length (f x) ≡ n)
    → map_bytes f o ≡ some bytes
    → length bytes ≡ n
length-map_bytes f n none bytes h e = absurd (cc)
length-map_bytes f n (some x) bytes h e =
    let b : f x ≡ bytes = ground arith in omega (arith, h x, ap length b)

option_bytes-HasLength :
    (parse_ipv6 : Bytes → IpAddr) (type : String) (value bytes : Bytes)
    → option_bytes parse_ipv6 type value ≡ some bytes
    → HasLength type value bytes
unfolding option_bytes put_uint32
option_bytes-HasLength parse_ipv6 type value bytes h = record {
  of_ip = λ e. length-v4_bytes _ bytes (as_type "ip" e);
  of_ips = λ e. length-v4_list parse_ipv6 _ bytes (as_type "ips" e);
  of_string = λ e. let h = as_type "string" e in ground arith;
  of_uint32 = λ e. length-map_bytes _ 4 _ bytes (λ x. refl) (as_type "uint32" e);
  of_uint16 = λ e. length-map_bytes _ 2 _ bytes (λ x. refl) (as_type "uint16" e);
  of_uint8 = λ e. length-map_bytes _ 1 _ bytes (λ x. refl) (as_type "uint8" e);
}
  where
    as_type : (t : String) → type ≡ t → option_bytes parse_ipv6 t value ≡ some bytes
    as_type t e = subst (λ u. option_bytes parse_ipv6 u value ≡ some bytes) e h

-- An option that converts has the code given, as one byte, and a value of as many bytes as its type
-- says; a text has its own bytes.
pub convert_option_to_dhcp-HasLength :
    (parse_ipv6 : Bytes → IpAddr) (option : DhcpOption) (code : ℕ) (bytes : Bytes)
    → convert_option_to_dhcp parse_ipv6 option ≡ some (code, bytes)
    → (code ≡ to_option_code option.option_code)
      × (code < 256)
      × HasLength option.option_type option.option_value bytes
unfolding convert_option_to_dhcp
convert_option_to_dhcp-HasLength parse_ipv6 option code bytes h =
    elim (Option-cases (option_bytes parse_ipv6 option.option_type option.option_value)) [
      | inl e ↦ absurd (ground arith)
      | inr (b, e) ↦
          let same : b ≡ bytes = ground arith in
          (
            ground arith,
            ground (arith, to_option_code-lt option.option_code),
            option_bytes-HasLength parse_ipv6 _ _ bytes (ground arith),
          )
    ]
