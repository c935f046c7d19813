-- ===== src/Relay/Options.antt =====
-- interface.go, `ServeDHCP`, the block `DHCP Relay`: the options that are copied, and a call
-- more on a packet.
use standalone_dhcp.Prelude.{
  ℕ, ◌≡◌, refl, sym, ap, ◌∙◌, Bool, true, Option, none, some, [], ◌∷◌, ◌==◌, nat_eq, if◌then◌else◌,
  All, Bool-cases, inl, inr,
}
use standalone_dhcp.Prelude.Map.{Map, lookup, IsDistinct}
use standalone_dhcp.Convert.{Bytes}
use standalone_dhcp.Dhcp.{Lib}
use standalone_dhcp.Relay.{add_options, copy_options}
use standalone_dhcp.Relay.Headers.{Header, header, IsOption, IsPacketApi}

-- The options of a packet over others.
abbrev or_option : Option Bytes → Option Bytes → Option Bytes
or_option none b = b
or_option (some v) b = some v

or_option-none : (a : Option Bytes) → or_option a none ≡ a
or_option-none none = refl
or_option-none (some v) = refl

-- An option more, under the ones that are still to come.
or_option-cons :
    (k : ℕ) (v : Bytes) (l : Map ℕ Bytes) (base : ℕ → Option Bytes) (j : ℕ)
    → lookup k l ≡ none
    → or_option (lookup j l) (if k == j then some v else base j)
      ≡ or_option (lookup j ((k, v) ∷ l)) (base j)
unfolding lookup
or_option-cons k v l base j new = elim (Bool-cases (k == j)) [
  | inr other ↦ rw other refl
  | inl same ↦
      let e : k ≡ j = (nat_eq.equal_iff k j).0 same in
      rw (same, sym (ap (λ i. lookup i l) e) ∙ new) refl
]

module _ (lib : Lib) (is_packet is_whole : lib.dhcp4.Packet → Bool)
    (api : IsPacketApi lib.dhcp4 is_packet is_whole) where
  open lib use {dhcp4}

  abbrev pub fields : dhcp4.Packet → Header
  fields p = header dhcp4 is_whole p

  -- A call more on a packet whose fields are known.
  pub step :
      (f : Header → Header) (q q' : dhcp4.Packet) (h : Header)
      → fields q ≡ h
      → h.whole ≡ true
      → (is_whole q ≡ true → fields q' ≡ f (fields q))
      → fields q' ≡ f h
  step f q q' h e w law = law (ap (λ (x : Header). x.whole) e ∙ w) ∙ ap f e

  -- The options of a packet are added to another one.
  add_options_lem :
      (l : Map ℕ Bytes) (q : dhcp4.Packet) (h : Header)
      → IsDistinct l
      → All IsOption l
      → fields q ≡ h
      → h.whole ≡ true
      → fields (add_options lib l q)
        ≡ record h { options = λ j. or_option (lookup j l) (h.options j) }
  unfolding lookup
  add_options_lem [] q h d all e w = e
  add_options_lem ((k, v) ∷ l) q h d all e w =
      let f : Header → Header =
        λ (x : Header). record x { options = λ j. if k == j then some v else x.options j } in
      add_options_lem l (dhcp4.add_option k v q) (f h) d.1 all.1
        (step f q (dhcp4.add_option k v q) h e w (λ whole. api.add_option_lem k v q all.0 whole)) w
      ∙ (λ i. record h { options = λ j. or_option-cons k v l h.options j d.0 i })

  pub copy_options_lem :
      (p q : dhcp4.Packet) (h : Header)
      → fields q ≡ h
      → h.whole ≡ true
      → ((j : ℕ) → h.options j ≡ none)
      → fields (copy_options lib p q) ≡ record h { options = (fields p).options }
  copy_options_lem p q h e w bare =
      add_options_lem (dhcp4.parse_options p) q h (api.options-IsDistinct p) (api.options-All p) e w
      ∙ (λ i. record h {
        options = λ j.
            (ap (or_option (lookup j (dhcp4.parse_options p))) (bare j)
                ∙ or_option-none (lookup j (dhcp4.parse_options p)))
              i;
      })
