-- ===== src/Sockets/Closed.antt =====
-- serverif.go: no descriptor is left open.
use standalone_dhcp.Prelude.{
  ℕ, ◌≡◌, refl, sym, ap, subst, Bool, true, false, Option, none, some, String, ◌∷◌, ◌==◌, nat_eq,
  string_eq, Option-cases, Bool-cases, beq_self, inl, inr,
}
use standalone_dhcp.Net.{IpAddr, copy_quad, to4, ipv4_zero}
use standalone_dhcp.Sockets.{
  Call, reuse_addr, broadcast_option, bind_to_device, bind, packet_conn, set_control_message,
  Kernel, Descriptors, close, Action, continue, ◌>>◌, open_socket, or_close, packet_conn_of,
  broadcast_open, unicast_open, bind_unless_relay, serve_if, deferring, listen_and_serve_if,
  listen_and_serve_if_unicast,
}

close_self : (s : ℕ) (fds : Descriptors) → close s (s ∷ fds) ≡ fds
close_self s fds = rw (beq_self s) refl

-- What an opening leaves: on an error the descriptors as they were, and else one more.
abbrev pub Opens : Descriptors → Option ℕ × Descriptors → Type 0
Opens fds (none, left) = left ≡ fds
Opens fds (some conn, left) = left ≡ conn ∷ fds

-- What a step on the socket leaves: on an error the socket is closed.
abbrev Steps : ℕ → Descriptors → Option (Unit {0}) × Descriptors → Type 0
Steps s fds (none, left) = left ≡ fds
Steps s fds (some done, left) = left ≡ s ∷ fds

-- The rest of an opening after a step.
continue-Opens :
    (s : ℕ) (fds : Descriptors) (n : Action ℕ) (r : Option (Unit {0}) × Descriptors)
    → Steps s fds r
    → Opens fds (n (s ∷ fds))
    → Opens fds (continue (λ (done : Unit {0}). n) r)
continue-Opens s fds n (none, left) h o = h
continue-Opens s fds n (some done, left) h o = subst (λ l. Opens fds (n l)) (sym h) o

module _ (k : Kernel) where
  packet_conn_of-Opens : (s : ℕ) (fds : Descriptors) → Opens fds (packet_conn_of k s (s ∷ fds))
  packet_conn_of-Opens s fds = elim (Bool-cases (k.succeeds s packet_conn)) [
    | inl good ↦ rw good (ap (λ l. k.dup s ∷ l) (close_self s fds))
    | inr bad ↦ rw bad (close_self s fds)
  ]

  or_close-Steps : (s : ℕ) (c : Call) (fds : Descriptors) → Steps s fds (or_close k s c (s ∷ fds))
  or_close-Steps s c fds = elim (Bool-cases (k.succeeds s c)) [
    | inl good ↦ rw good refl
    | inr bad ↦ rw bad (close_self s fds)
  ]

  device-Steps :
      (interface_type ifname : String) (s : ℕ) (fds : Descriptors)
      → Steps s fds (bind_unless_relay k interface_type ifname s (s ∷ fds))
  device-Steps interface_type ifname s fds = elim (Bool-cases (interface_type == "relay")) [
    | inl relay ↦ rw relay refl
    | inr server ↦ rw server (or_close-Steps s (bind_to_device ifname) fds)
  ]

  socket-Opens :
      (fds : Descriptors) (n : ℕ → Action ℕ)
      → ((s : ℕ) → Opens fds (n s (s ∷ fds)))
      → Opens fds (continue n (open_socket k fds))
  socket-Opens fds n h = elim (Option-cases (k.socket)) [
    | inl failed ↦ rw failed refl
    | inr (s, e) ↦ rw e (h s)
  ]

  -- The last two steps of both openings.
  bound-Opens :
      (s : ℕ) (c : Call) (fds : Descriptors)
      → Opens fds ((or_close k s c >> packet_conn_of k s) (s ∷ fds))
  bound-Opens s c fds =
      continue-Opens s fds (packet_conn_of k s) (or_close k s c (s ∷ fds)) (or_close-Steps s c fds)
        (packet_conn_of-Opens s fds)

  -- On an error the descriptors are as they were, and else there is one more. So for both openings.
  pub broadcast_open-Opens :
      (bind_addr : IpAddr) (port : ℕ) (ifname : String) (fds : Descriptors)
      → Opens fds (broadcast_open k bind_addr port ifname fds)
  unfolding broadcast_open
  broadcast_open-Opens bind_addr port ifname fds =
      let to : Call = bind port (copy_quad (to4 bind_addr)) in
      let bound : ℕ → Action ℕ = λ s. or_close k s to >> packet_conn_of k s in
      let device : ℕ → Action ℕ = λ s. or_close k s (bind_to_device ifname) >> bound s in
      let option : ℕ → Action ℕ = λ s. or_close k s broadcast_option >> device s in
      socket-Opens fds (λ s. or_close k s reuse_addr >> option s)
        (λ s.
          continue-Opens s fds (option s) (or_close k s reuse_addr (s ∷ fds))
            (or_close-Steps s reuse_addr fds)
            (continue-Opens s fds (device s) (or_close k s broadcast_option (s ∷ fds))
              (or_close-Steps s broadcast_option fds)
              (continue-Opens s fds (bound s) (or_close k s (bind_to_device ifname) (s ∷ fds))
                (or_close-Steps s (bind_to_device ifname) fds) (bound-Opens s to fds))))

  pub unicast_open-Opens :
      (interface_type ifname : String) (ipv4 : IpAddr) (listen_port : ℕ) (fds : Descriptors)
      → Opens fds (unicast_open k interface_type ifname ipv4 listen_port fds)
  unfolding unicast_open
  unicast_open-Opens interface_type ifname ipv4 listen_port fds =
      let to : Call = bind listen_port (copy_quad (to4 ipv4)) in
      let bound : ℕ → Action ℕ = λ s. or_close k s to >> packet_conn_of k s in
      let device : ℕ → Action ℕ = λ s. bind_unless_relay k interface_type ifname s >> bound s in
      socket-Opens fds (λ s. or_close k s reuse_addr >> device s)
        (λ s.
          continue-Opens s fds (device s) (or_close k s reuse_addr (s ∷ fds))
            (or_close-Steps s reuse_addr fds)
            (continue-Opens s fds (bound s) (bind_unless_relay k interface_type ifname s (s ∷ fds))
              (device-Steps interface_type ifname s fds) (bound-Opens s to fds)))

  -- A loop that closes what it opens itself.
  abbrev pub IsNeutral : (ℕ → Action (Unit {0})) → Type 0
  IsNeutral serve = (conn : ℕ) (fds : Descriptors) → (serve conn fds).1 ≡ fds

  serving-closes :
      (serve : ℕ → Action (Unit {0})) (conn : ℕ) (fds : Descriptors)
      → IsNeutral serve
      → (deferring k conn (serve_if k serve conn) (conn ∷ fds)).1 ≡ fds
  unfolding serve_if
  serving-closes serve conn fds h = elim (Bool-cases (k.succeeds conn set_control_message)) [
    | inl good ↦ rw (good, h conn (conn ∷ fds)) (close_self conn fds)
    | inr bad ↦ rw bad (close_self conn fds)
  ]

  -- After an opening that keeps count.
  opened-closes :
      (serve : ℕ → Action (Unit {0})) (fds : Descriptors) (r : Option ℕ × Descriptors)
      → IsNeutral serve
      → Opens fds r
      → (continue (λ conn. deferring k conn (serve_if k serve conn)) r).1 ≡ fds
  opened-closes serve fds (none, left) h o = o
  opened-closes serve fds (some conn, left) h o = rw o (serving-closes serve conn fds h)

  -- If the loop of a listener leaves the descriptors as they are: whether the interface is there or
  -- not, whichever calls of the kernel fail, and however the loop ends, both listeners leave the
  -- descriptors that were open before, and no others.
  pub listen_and_serve_if-closes :
      (serve : ℕ → Action (Unit {0})) (found : Bool) (interface_type ifname : String)
      (ipv4 : IpAddr) (listen_port : ℕ) (fds : Descriptors)
      → IsNeutral serve
      → ((listen_and_serve_if k serve found ifname fds).1 ≡ fds)
        × ((listen_and_serve_if_unicast k serve found interface_type ifname ipv4 listen_port fds).1
            ≡ fds)
  unfolding listen_and_serve_if listen_and_serve_if_unicast
  listen_and_serve_if-closes serve false interface_type ifname ipv4 listen_port fds h = (refl, refl)
  listen_and_serve_if-closes serve true interface_type ifname ipv4 listen_port fds h = (
    opened-closes serve fds _ h (broadcast_open-Opens ipv4_zero 67 ifname fds),
    opened-closes serve fds _ h (unicast_open-Opens interface_type ifname ipv4 listen_port fds),
  )
