-- ===== src/Net/Order/Laws.antt =====
-- The laws of ip_range_less, nstl/nstl/ip_tools.hpp.
use nstl.Prelude.{◌≡◌, refl, ◌⊎◌, inl, inr, true, false, arith}
use nstl.Net.Order.{addr_less_addr}
use nstl.Net.Print.{IpAddrGen, ipv4_addr, ipv6_addr}
use nstl.Net.Order.Bytes.{less_bytes_irrefl, less_bytes_trans, less_bytes_total}

pub addr_less_addr_irrefl : (a : IpAddrGen) → addr_less_addr a a ≡ false
unfolding addr_less_addr
addr_less_addr_irrefl (ipv4_addr a) = less_bytes_irrefl a
addr_less_addr_irrefl (ipv6_addr a) = less_bytes_irrefl a

-- `addr_less_addr`, which ip_range_less is on addresses of either family, is transitive.
pub addr_less_addr_trans :
    (a b c : IpAddrGen)
    → addr_less_addr a b ≡ true
    → addr_less_addr b c ≡ true
    → addr_less_addr a c ≡ true
unfolding addr_less_addr
addr_less_addr_trans (ipv4_addr a) (ipv4_addr b) (ipv4_addr c) p q = less_bytes_trans a b c p q
addr_less_addr_trans (ipv6_addr a) (ipv6_addr b) (ipv6_addr c) p q = less_bytes_trans a b c p q
addr_less_addr_trans (ipv4_addr a) (ipv4_addr b) (ipv6_addr c) p q = refl
addr_less_addr_trans (ipv4_addr a) (ipv6_addr b) (ipv6_addr c) p q = refl
addr_less_addr_trans (ipv4_addr a) (ipv6_addr b) (ipv4_addr c) p q = cc
addr_less_addr_trans (ipv6_addr a) (ipv4_addr b) c p q = cc
addr_less_addr_trans (ipv6_addr a) (ipv6_addr b) (ipv4_addr c) p q = cc

pub addr_less_addr_total :
    (a b : IpAddrGen) → (addr_less_addr a b ≡ true) ⊎ (a ≡ b) ⊎ (addr_less_addr b a ≡ true)
unfolding addr_less_addr
addr_less_addr_total (ipv4_addr a) (ipv4_addr b) = ground (arith, less_bytes_total a b)
addr_less_addr_total (ipv4_addr a) (ipv6_addr b) = inl refl
addr_less_addr_total (ipv6_addr a) (ipv4_addr b) = inr (inr refl)
addr_less_addr_total (ipv6_addr a) (ipv6_addr b) = ground (arith, less_bytes_total a b)
