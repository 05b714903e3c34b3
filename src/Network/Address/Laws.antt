-- ===== src/Network/Address/Laws.antt =====
-- The comparisons of addresses, and the two ways to and from the network order.
use zlnet.Base.{ℕ, ◌≡◌, refl, arith, true, false, not, ◌&&◌, ◌||◌}
use zlnet.Network.ByteOrder.{Host, be_bytes, to_memory}
use zlnet.Network.ByteOrder.Laws.{host_to_network_lem}
use zlnet.Network.Address.{Address, create, same, differs, less, of_sockaddr, to_sockaddr}

-- For every three addresses: == is the negation of !=, < is irreflexive and transitive and holds
-- for no two equal addresses, and two addresses are equal or one is less than the other, so <
-- orders the keys of a map.
pub less_lem :
    (a b c : Address)
    → (same a b ≡ not (differs a b))
      × (less a a ≡ false)
      × ((less a b && less b c && not (less a c)) ≡ false)
      × ((same a b || less a b || less b a) ≡ true)
      × ((same a b && less a b) ≡ false)
unfolding same differs less
less_lem a b c = (ground arith, ground arith, ground arith, ground arith, ground arith)

-- On every machine the sockaddr_in of an address made of an ip and a port has both in memory with
-- the highest byte first, and the address made of that sockaddr_in is the same.
pub create_lem :
    (h : Host) (ip port : ℕ)
    → (to_memory h.endian 4 (to_sockaddr (create h ip port)).s_addr ≡ be_bytes 4 ip)
      × (to_memory h.endian 2 (to_sockaddr (create h ip port)).sin_port ≡ be_bytes 2 port)
      × (of_sockaddr (to_sockaddr (create h ip port)) ≡ create h ip port)
unfolding create to_sockaddr of_sockaddr
create_lem h ip port = ((host_to_network_lem h ip).1, (host_to_network_lem h port).2, refl)
