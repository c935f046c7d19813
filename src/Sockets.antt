-- ===== src/Sockets.antt =====
-- serverif.go and rawClient.go: the sockets of a listener and of the raw client. The kernel is a
-- parameter: it answers each call, and what the program keeps is the descriptors that it has opened.
pub mod Closed
use standalone_dhcp.Prelude.{
  ℕ, zero, suc, Bool, true, false, not, Option, none, some, String, List, [], ◌∷◌, ◌==◌, nat_eq,
  string_eq, if◌then◌else◌,
}
use standalone_dhcp.Net.{IpAddr, Quad, copy_quad, to4, ipv4_zero}

-- The calls on a descriptor that can fail.
pub data Call : Type 0 where
  reuse_addr broadcast_option : Call
  bind_to_device : String → Call
  bind : ℕ → Quad → Call
  packet_conn : Call
  set_control_message : Call

-- What the kernel answers: a new descriptor or an error, and whether a call succeeds.
pub record Kernel : Type 0 where
  pub socket : Option ℕ
  pub succeeds : ℕ → Call → Bool
  -- The descriptor that `FilePacketConn` makes of another one.
  pub dup : ℕ → ℕ

-- A descriptor of the program is open once it was made, until it is closed.
abbrev pub Descriptors : Type 0
Descriptors = List ℕ

abbrev pub close : ℕ → Descriptors → Descriptors
close s [] = []
close s (t ∷ rest) = if t == s then rest else t ∷ close s rest

-- A function on the open descriptors with a result, or an error.
abbrev pub Action : Type 0 → Type 0
Action A = Descriptors → Option A × Descriptors

-- The rest of a chain, after a call.
abbrev pub continue :
    {A B : Type 0} → (A → Action B) → Option A × Descriptors → Option B × Descriptors
continue f (none, fds) = (none, fds)
continue f (some a, fds) = f a fds

infixl 5 ◌>>=◌ ◌>>◌
abbrev pub ◌>>=◌ : {A B : Type 0} → Action A → (A → Action B) → Action B
◌>>=◌ m f fds = continue f (m fds)

abbrev pub ◌>>◌ : {B : Type 0} → Action (Unit {0}) → Action B → Action B
m >> k = m >>= λ _. k

module _ (k : Kernel) where
  -- `syscall.Socket`.
  abbrev pub open_socket : Action ℕ
  open_socket fds = elim (k.socket) [ none ↦ (none, fds) | some s ↦ (some s, s ∷ fds) ]

  -- A call with `syscall.Close(s)` on an error.
  abbrev pub or_close : ℕ → Call → Action (Unit {0})
  or_close s c fds = if k.succeeds s c then (some tt, fds) else (none, close s fds)

  -- `net.FilePacketConn(f)` and `f.Close()`, which closes `s` in either case.
  abbrev pub packet_conn_of : ℕ → Action ℕ
  packet_conn_of s fds =
      if k.succeeds s packet_conn
      then (some (k.dup s), k.dup s ∷ close s fds)
      else (none, close s fds)

  -- `broadcastOpen`.
  unfoldable pub broadcast_open : IpAddr → ℕ → String → Action ℕ
  broadcast_open bind_addr port ifname = do
    s ← open_socket
    or_close s reuse_addr
    or_close s broadcast_option
    or_close s (bind_to_device ifname)
    or_close s (bind port (copy_quad (to4 bind_addr)))
    packet_conn_of s

  abbrev bind_unless_relay : String → String → ℕ → Action (Unit {0})
  bind_unless_relay interface_type ifname s =
      if interface_type == "relay"
      then (λ fds. (some tt, fds))
      else or_close s (bind_to_device ifname)

  -- `UnicastOpen`; a relay is not bound to its device.
  unfoldable pub unicast_open : String → String → IpAddr → ℕ → Action ℕ
  unicast_open interface_type ifname ipv4 listen_port = do
    s ← open_socket
    or_close s reuse_addr
    bind_unless_relay interface_type ifname s
    or_close s (bind listen_port (copy_quad (to4 ipv4)))
    packet_conn_of s

  -- `ServeIf`: the loop of `Serve` begins once the control messages are on. `serve` is that loop,
  -- which ends with an error of the connection.
  unfoldable pub serve_if : (ℕ → Action (Unit {0})) → ℕ → Action (Unit {0})
  serve_if serve conn fds =
      if k.succeeds conn set_control_message then serve conn fds else (none, fds)

  -- `defer p.Close()` around a call.
  abbrev pub deferring : ℕ → Action (Unit {0}) → Action (Unit {0})
  deferring conn m fds = let (r, left) = m fds in (r, close conn left)

  -- `ListenAndServeIf` and `ListenAndServeIfUnicast`; `found` is whether the interface is there.
  unfoldable pub listen_and_serve_if : (ℕ → Action (Unit {0})) → Bool → String → Action (Unit {0})
  listen_and_serve_if serve found ifname fds =
      if found
      then ◌>>=◌ (broadcast_open ipv4_zero 67 ifname) (λ conn. deferring conn (serve_if serve conn))
          fds
      else (none, fds)

  unfoldable pub listen_and_serve_if_unicast :
      (ℕ → Action (Unit {0})) → Bool → String → String → IpAddr → ℕ → Action (Unit {0})
  listen_and_serve_if_unicast serve found interface_type ifname ipv4 listen_port fds =
      if found
      then continue (λ conn. deferring conn (serve_if serve conn))
          (unicast_open interface_type ifname ipv4 listen_port fds)
      else (none, fds)
