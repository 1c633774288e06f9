-- ===== src/Util/Host.antt =====
-- util/helper.go: a value of the metadata of a context, and the addresses of the host. What the network
-- package tells is given; `none` is a panic.
use j7f.Base.{Bool, ◌&&◌, not, List, [], ◌∷◌, ◌++◌, Option, none, some, Text, codes, if◌then◌else◌}
use j7f.Base.Maps.{Map, find}

meta_value : Text → Option (List Text) → Option Text
meta_value meta none = some (codes "mock-metadata-" ++ meta)
meta_value meta (some []) = none
meta_value meta (some (value ∷ values)) = some value

-- `GetMetaData`, for the incoming metadata of the context.
get_meta_data : Option (Map (List Text)) → Text → Option Text
unfolding meta_value
get_meta_data none meta = meta_value meta none
get_meta_data (some md) meta = meta_value meta (find meta md)

-- An address of an interface: an `IPNet`, or another.
pub data Address : Type 0 where
  ip_net : Bool → Bool → Text → Address
  other_address : Address

pub record Interface : Type 0 where
  pub is_up : Bool
  pub addrs : List Address

-- The text of an address that is no loopback and of version 4.
local_ip : Address → List Text
local_ip (ip_net is_loopback is_v4 ip) = if not is_loopback && is_v4 then ip ∷ [] else []
local_ip other_address = []

local_ips : List Text → List Address → List Text
unfolding local_ip
local_ips ips [] = ips
local_ips ips (address ∷ addrs) = local_ips (ips ++ local_ip address) addrs

interface_rounds : List Text → List Interface → List Text
unfolding local_ips
interface_rounds ips [] = ips
interface_rounds ips (i ∷ interfaces) =
    interface_rounds (if i.is_up then local_ips ips i.addrs else ips) interfaces

-- `GetLocalIps`; an error of the interfaces is printed, and there are none.
get_local_ips : Option (List Interface) → List Text
unfolding interface_rounds
get_local_ips none = []
get_local_ips (some interfaces) = interface_rounds [] interfaces
