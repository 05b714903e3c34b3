-- ===== src/Network/Address.antt =====
-- network/Address.h and network/Address.cpp: CAddress, an IPv4 address and a port in network order.
pub mod Laws
mod Tests
use zlnet.Base.{ℕ, Bool, not, ◌&&◌, ◌||◌, ltb, ◌==◌}
use zlnet.Network.ByteOrder.{Host, host_to_network16, host_to_network32}

-- `_ip` and `_port`.
pub record Address : Type 0 where
  pub ip : ℕ
  pub port : ℕ

-- `sin_addr.s_addr` and `sin_port` of a sockaddr_in, which are in network order as well.
pub record Sockaddr : Type 0 where
  pub s_addr : ℕ
  pub sin_port : ℕ

pub nowhere : Address
nowhere = record { ip = 0; port = 0 }

-- `CAddress(uint32 ip, uint16 port)`
pub create : Host → ℕ → ℕ → Address
create h ip port = record { ip = host_to_network32 h ip; port = host_to_network16 h port }

pub of_sockaddr : Sockaddr → Address
of_sockaddr addr = record { ip = addr.s_addr; port = addr.sin_port }

-- `get_sockaddr_in`
pub to_sockaddr : Address → Sockaddr
to_sockaddr a = record { s_addr = a.ip; sin_port = a.port }

-- `operator ==`, `operator !=` and `operator <`.
pub same : Address → Address → Bool
same a b = a.ip == b.ip && a.port == b.port

pub differs : Address → Address → Bool
differs a b = not (a.ip == b.ip) || not (a.port == b.port)

pub less : Address → Address → Bool
less a b = ltb a.ip b.ip || (a.ip == b.ip && ltb a.port b.port)
