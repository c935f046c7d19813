-- ===== src/Dictionary/Addresses.antt =====
-- dictionary.go: the text of a list of addresses, against the list of its groups of four bytes.
use standalone_dhcp.Prelude.{
  ℕ, ◌≡◌, refl, String, List, [], ◌∷◌, map, ap, sym, ◌∙◌, nat_eq, false, ◌==◌,
}
use standalone_dhcp.Net.{IpAddr}
use standalone_dhcp.Convert.{Bytes}
use standalone_dhcp.Dictionary.{Loop, ip_round, ip_rounds, ip_addr_string}
use standalone_dhcp.Handler.{ip_string}
use text.Mathlib.TextLemmas.{append_assoc, append-nil}
use Prim.Native.String.{◌++◌}

-- The whole groups of four bytes; up to three bytes at the end are left out.
abbrev pub groups : Bytes → List IpAddr
groups (a ∷ b ∷ c ∷ d ∷ rest) = (a ∷ b ∷ c ∷ d ∷ []) ∷ groups rest
groups _ = []

-- The texts with a comma before each but the first.
abbrev pub with_commas : List String → String
with_commas [] = ""
with_commas (s ∷ rest) = "," ++ (s ++ with_commas rest)

abbrev pub joined : List String → String
joined [] = ""
joined (s ∷ rest) = s ++ with_commas rest

module _ (long : IpAddr → String) where
  abbrev texts : Bytes → List String
  texts a = map (ip_string long) (groups a)

  -- The fourth byte of a group, after the first group.
  round-closes :
      (s : String) (a b c d t j : ℕ)
      → (j == 0) ≡ false
      → ip_round long d (record { ips = s; temp = a ∷ b ∷ c ∷ t ∷ []; i = 3; j = j }) ≡ record {
        ips = s ++ "," ++ ip_string long (a ∷ b ∷ c ∷ d ∷ []);
        temp = a ∷ b ∷ c ∷ d ∷ [];
        i = 0;
        j = j;
      }
  unfolding ip_round
  round-closes s a b c d t j e = rw e refl

  -- Between two groups, after the first one.
  later_groups :
      (a : Bytes) (s : String) (p q r t j : ℕ)
      → (j == 0) ≡ false
      → (ip_rounds long a (record { ips = s; temp = p ∷ q ∷ r ∷ t ∷ []; i = 0; j = j })).ips
        ≡ s ++ with_commas (texts a)
  unfolding ip_rounds ip_round
  later_groups [] s p q r t j e = sym (append-nil s)
  later_groups (a ∷ []) s p q r t j e = sym (append-nil s)
  later_groups (a ∷ b ∷ []) s p q r t j e = sym (append-nil s)
  later_groups (a ∷ b ∷ c ∷ []) s p q r t j e = sym (append-nil s)
  later_groups (a ∷ b ∷ c ∷ d ∷ rest) s p q r t j e =
      let text = ip_string long (a ∷ b ∷ c ∷ d ∷ []) in
      ap (λ (l : Loop). (ip_rounds long rest l).ips) (round-closes s a b c d t j e)
      ∙ later_groups rest (s ++ "," ++ text) a b c d j e
      ∙ append_assoc s ("," ++ text) (with_commas (texts rest))
      ∙ ap (λ (w : String). s ++ w) (append_assoc "," text (with_commas (texts rest)))

  first_group :
      (a : Bytes) (p q r t : ℕ)
      → (ip_rounds long a (record { ips = ""; temp = p ∷ q ∷ r ∷ t ∷ []; i = 0; j = 0 })).ips
        ≡ joined (texts a)
  unfolding ip_rounds ip_round
  first_group [] p q r t = refl
  first_group (a ∷ []) p q r t = refl
  first_group (a ∷ b ∷ []) p q r t = refl
  first_group (a ∷ b ∷ c ∷ []) p q r t = refl
  first_group (a ∷ b ∷ c ∷ d ∷ rest) p q r t = later_groups rest _ a b c d 1 refl

  -- The text of a list of addresses is that of its groups of four bytes, with commas between them;
  -- up to three bytes at the end are left out.
  pub ip_addr_string-joined :
      (a : Bytes) → ip_addr_string long a ≡ joined (map (ip_string long) (groups a))
  unfolding ip_addr_string
  ip_addr_string-joined a = first_group a 0 0 0 0
