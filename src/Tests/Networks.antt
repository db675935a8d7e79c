-- ===== src/Tests/Networks.antt =====
-- The default range of 10.1.2.0/29.
use virtualis_agent.Common.{◌≡◌, refl, arith}
use virtualis_agent.Network.{network_base, subnet_size, default_dhcp_range}
use virtualis_agent.Network.Bounds.{Inside, default_dhcp_range-Inside}

base_value : network_base 167838208 29 ≡ 167838208
unfolding network_base subnet_size
base_value = refl

default_dhcp_range-Inside_example :
    Inside (network_base 167838208 29) (subnet_size 29) (default_dhcp_range 167838208 29)
default_dhcp_range-Inside_example =
    default_dhcp_range-Inside 167838208 29 (omega arith) (omega (arith, base_value))
