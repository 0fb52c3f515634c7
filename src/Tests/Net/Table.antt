-- ===== src/Tests/Net/Table.antt =====
-- A C library that knows two IPv4 addresses, which meets the laws of address conversions.
use nstl.Prelude.{
  ℕ, ◌<◌, ◌≡◌, refl, ◌≢◌, inl, inr, false, Option, none, some, List, [], ◌∷◌, ◌++◌, arith,
  if◌then◌else◌, Bool-cases, length, All, codes,
}
use nstl.Net.Address.{IpAddrBase, IsAddr, equal_bytes}
use nstl.Net.Inet.{Inet, InetLaws, Family, inet, inet6, addr_str_len, family_size, is_digit}
use nstl.Net.Order.Bytes.{equal_bytes_iff}

abbrev pub ten : IpAddrBase
ten = 10 ∷ 0 ∷ 0 ∷ 0 ∷ []

abbrev pub class_a : IpAddrBase
class_a = 255 ∷ 0 ∷ 0 ∷ 0 ∷ []

abbrev pub ten_text : List ℕ
ten_text = codes "10.0.0.0"

abbrev pub class_a_text : List ℕ
class_a_text = codes "255.0.0.0"

unfoldable pub table_ntop : Family → IpAddrBase → Option (List ℕ)
table_ntop inet a =
    if equal_bytes a ten
    then some ten_text
    else if equal_bytes a class_a
    then some class_a_text
    else none
table_ntop inet6 a = none

unfoldable pub table_pton : Family → List ℕ → Option IpAddrBase
table_pton inet t =
    if equal_bytes t ten_text
    then some ten
    else if equal_bytes t class_a_text
    then some class_a
    else none
table_pton inet6 t = none

abbrev pub table : Inet
table = record { pton = table_pton; ntop = table_ntop }

ntop_known :
    (P : Family → IpAddrBase → List ℕ → Type 0)
    → P inet ten ten_text
    → P inet class_a class_a_text
    → (f : Family) (a : IpAddrBase) (t : List ℕ) → table_ntop f a ≡ some t
    → P f a t
unfolding table_ntop
ntop_known P p q inet a t e = elim (Bool-cases (equal_bytes a ten)) [
  | inl h ↦
      let known : t ≡ ten_text = ground (arith, h) in rw (known, (equal_bytes_iff a ten).0 h) p
  | inr h ↦ elim (Bool-cases (equal_bytes a class_a)) [
    | inl k ↦
        let known : t ≡ class_a_text = ground (arith, h, k) in
        rw (known, (equal_bytes_iff a class_a).0 k) q
    | inr k ↦ absurd (ground (arith, h, k))
  ]
]
ntop_known P p q inet6 a t e = cc

table_pton-IsAddr :
    (f : Family) (t : List ℕ) (a : IpAddrBase) → table_pton f t ≡ some a → IsAddr (family_size f) a
unfolding table_pton
table_pton-IsAddr inet t a e = elim (Bool-cases (equal_bytes t ten_text)) [
  | inl h ↦ let known : a ≡ ten = ground (arith, h) in rw known (omega arith)
  | inr h ↦ elim (Bool-cases (equal_bytes t class_a_text)) [
    | inl k ↦ let known : a ≡ class_a = ground (arith, h, k) in rw known (omega arith)
    | inr k ↦ absurd (ground (arith, h, k))
  ]
]
table_pton-IsAddr inet6 t a e = cc

ten_back : (table_pton inet ten_text ≡ some ten) × (table_pton inet class_a_text ≡ some class_a)
unfolding table_pton equal_bytes
ten_back = (refl, refl)

abbrev Separated : Family → IpAddrBase → List ℕ → Type 0
Separated f a t = (p : List ℕ) × (q : List ℕ) × (c : ℕ) × (t ≡ p ++ c ∷ q) × (is_digit c ≡ false)

pub table-InetLaws : InetLaws table
table-InetLaws = record {
  pton-IsAddr = table_pton-IsAddr;
  pton-ntop = ntop_known (λ f a t. table_pton f t ≡ some a) ten_back.0 ten_back.1;
  ntop_fits = ntop_known (λ f a t. length t < addr_str_len f) (omega arith) (omega arith);
  ntop_chars = ntop_known (λ f a t. All (λ c. (c ≢ 0) × (c ≢ b'/')) t) (omega arith) (omega arith);
  ntop_separator =
      ntop_known Separated (codes "10", codes "0.0.0", b'.', refl, refl)
        (codes "255", codes "0.0.0", b'.', refl, refl);
}

pub ten_known : table_ntop inet ten ≡ some ten_text
unfolding table_ntop equal_bytes
ten_known = refl

pub class_a_known : table_ntop inet class_a ≡ some class_a_text
unfolding table_ntop equal_bytes
class_a_known = refl
