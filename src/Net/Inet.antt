-- ===== src/Net/Inet.antt =====
-- The C library's address conversions, inet_pton and inet_ntop, which the program calls and does
-- not implement: a record of the two functions, and a record of what their documentation promises.
use nstl.Prelude.{
  ℕ, ◌<◌, ◌≡◌, ◌≢◌, List, ◌∷◌, ◌++◌, Option, some, length, All, Bool, leb, ◌&&◌, false,
}
use nstl.Net.Address.{IpAddrBase, IsAddr, ipv4_size, ipv6_size}

-- AF_INET and AF_INET6.
pub data Family : Type 0 where
  inet inet6 : Family

abbrev pub family_size : Family → ℕ
family_size Family.inet = ipv4_size
family_size Family.inet6 = ipv6_size

-- INET_ADDRSTRLEN and INET6_ADDRSTRLEN: the longest text of an address, its end included.
abbrev pub addr_str_len : Family → ℕ
addr_str_len Family.inet = 16
addr_str_len Family.inet6 = 46

-- A C string is the list of its bytes without the terminating NUL.
pub record Inet : Type 0 where
  pub pton : Family → List ℕ → Option IpAddrBase
  pub ntop : Family → IpAddrBase → Option (List ℕ)

abbrev pub is_digit : ℕ → Bool
is_digit c = leb b'0' c && leb c b'9'

-- `ntop` writes a text that fits its buffer, that `pton` reads back, and that is made of other
-- characters than NUL and `/`; a separator `.` or `:` stands in it.
pub record InetLaws (lib : Inet) : Type 0 where
  pub pton-IsAddr :
      (f : Family) (t : List ℕ) (a : IpAddrBase) → lib.pton f t ≡ some a → IsAddr (family_size f) a
  pub pton-ntop :
      (f : Family) (a : IpAddrBase) (t : List ℕ) → lib.ntop f a ≡ some t → lib.pton f t ≡ some a
  pub ntop_fits :
      (f : Family) (a : IpAddrBase) (t : List ℕ) → lib.ntop f a ≡ some t → length t < addr_str_len f
  pub ntop_chars :
      (f : Family) (a : IpAddrBase) (t : List ℕ)
      → lib.ntop f a ≡ some t
      → All (λ c. (c ≢ 0) × (c ≢ b'/')) t
  pub ntop_separator :
      (f : Family) (a : IpAddrBase) (t : List ℕ)
      → lib.ntop f a ≡ some t
      → (p : List ℕ) × (q : List ℕ) × (c : ℕ) × (t ≡ p ++ c ∷ q) × (is_digit c ≡ false)
