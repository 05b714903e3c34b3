-- ===== src/Network/Address/Tests.antt =====
-- Addresses of two hosts.
use zlnet.Base.{◌≡◌, true, false, not, ◌&&◌, ◌||◌}
use zlnet.Network.ByteOrder.{Host, little}
use zlnet.Network.Address.{Address, same, differs, less}
use zlnet.Network.Address.Laws.{less_lem}

abbrev host : Host
host = record { endian = little; long_size = 8 }

abbrev local_address : Address
local_address = record { ip = 16777343; port = 20480 }

abbrev remote : Address
remote = record { ip = 16777343; port = 36895 }

abbrev other : Address
other = record { ip = 33554442; port = 1 }

less_lem_example :
    (same local_address remote ≡ not (differs local_address remote))
    × (less local_address local_address ≡ false)
    × ((less local_address remote && less remote other && not (less local_address other)) ≡ false)
    × ((same local_address remote || less local_address remote || less remote local_address) ≡ true)
    × ((same local_address remote && less local_address remote) ≡ false)
less_lem_example = less_lem local_address remote other
