-- ===== src/Serve/Twice.antt =====
-- interface.go: a second packet of a transaction.
use standalone_dhcp.Prelude.{
  ℕ, ◌≡◌, refl, ap, ◌∙◌, subst, inl, inr, true, Option, none, some, String, [], string_eq, nat_eq,
  if◌then◌else◌, is_some, Bool-cases, beq_self,
}
use standalone_dhcp.Prelude.Int.{pos, int_eq}
use standalone_dhcp.Net.{IpAddr}
use standalone_dhcp.Dhcp.{Lib, MessageType}
use standalone_dhcp.Handler.{mac_string, State, Answer}
use standalone_dhcp.Request.{Message, to_client}
use standalone_dhcp.Serve.{Interface, serve_once, message_of, transaction_key}
use Prim.Native.String.{◌++◌}
use standalone_dhcp.Serve.Transactions.{ResultKeeps, dispatch-keeps}

module _ (lib : Lib) where
  open lib use {ints, dhcp4, world}

  -- What one packet leaves: an entry for its transaction.
  abbrev ResultSeen : String → Option (Answer lib × State lib) → Type 0
  ResultSeen k none = Unit
  ResultSeen k (some (a, s)) = is_some (ints.get s.transactions k) ≡ true

  seen-from :
      (k : String) (c : ints.Cache) (r : Option (Answer lib × State lib))
      → ResultKeeps lib (ints.set c k (pos 1) (pos 1)) r
      → ResultSeen k r
  seen-from k c none h = tt
  seen-from k c (some (a, s)) h =
      ap (λ d. is_some (ints.get d k)) h
      ∙ ap is_some (ints.get-set c k (pos 1) (pos 1) k)
      ∙ ap (λ b. is_some (if b then some (pos 1) else ints.get c k)) (beq_self k)

  serve_once-ResultSeen :
      (fuel : ℕ) (i : Interface lib) (server : IpAddr) (network_ip : String) (t : MessageType)
      (m : Message lib) (s : State lib)
      → ResultSeen m.cache_key (serve_once lib fuel i server network_ip t m s)
  unfolding serve_once
  serve_once-ResultSeen fuel i server network_ip t m s =
      elim (Bool-cases (is_some (ints.get s.transactions m.cache_key))) [
        | inl seen ↦ rw seen seen
        | inr new ↦ rw new (
            seen-from m.cache_key s.transactions _ (
              dispatch-keeps lib fuel i server network_ip t m
                (record s { transactions = ints.set s.transactions m.cache_key (pos 1) (pos 1) })))
      ]

  seen_again :
      (fuel : ℕ) (i : Interface lib) (server : IpAddr) (network_ip : String) (t : MessageType)
      (m : Message lib) (s : State lib)
      → is_some (ints.get s.transactions m.cache_key) ≡ true
      → serve_once lib fuel i server network_ip t m s ≡ some (to_client lib m [] none, s)
  unfolding serve_once
  seen_again fuel i server network_ip t m s seen = rw seen refl

  -- Two packets of a transaction: of one client, with one transaction identifier and one type. The
  -- rest of the packets may differ.
  pub same_key :
      (i i' : Interface lib) (t : MessageType) (p p' : dhcp4.Packet)
      → dhcp4.chaddr p' ≡ dhcp4.chaddr p
      → dhcp4.xid p' ≡ dhcp4.xid p
      → (message_of lib i' t p').cache_key ≡ (message_of lib i t p).cache_key
  unfolding message_of transaction_key
  same_key i i' t p p' client transaction = λ k.
      mac_string (client k)
      ++ (" " ++ (dhcp4.message_text t ++ (" xID " ++ world.byte_to_string (transaction k))))

  -- A packet with the hardware address, the transaction identifier and the type of one that was
  -- just served on a network, which may differ from it in all else and may come in by another
  -- interface: it gets no packet, and changes nothing.
  pub serve_once_twice :
      (fuel fuel' : ℕ) (i i' : Interface lib) (server server' : IpAddr)
      (network_ip network_ip' : String) (t : MessageType) (p p' : dhcp4.Packet) (a : Answer lib)
      (s s' : State lib)
      → dhcp4.chaddr p' ≡ dhcp4.chaddr p
      → dhcp4.xid p' ≡ dhcp4.xid p
      → serve_once lib fuel i server network_ip t (message_of lib i t p) s ≡ some (a, s')
      → serve_once lib fuel' i' server' network_ip' t (message_of lib i' t p') s'
        ≡ some (to_client lib (message_of lib i' t p') [] none, s')
  serve_once_twice fuel fuel' i i' server server' network_ip network_ip' t p p' a s s' client
        transaction e =
      seen_again fuel' i' server' network_ip' t (message_of lib i' t p') s' (
        ap (λ k. is_some (ints.get s'.transactions k)) (same_key i i' t p p' client transaction)
        ∙ subst (ResultSeen (message_of lib i t p).cache_key) e
            (serve_once-ResultSeen fuel i server network_ip t (message_of lib i t p) s))
