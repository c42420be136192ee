-- ===== src/Dynamic/Subnet.antt =====
-- models/records.py: what replacing the subnet bits of addresses keeps and changes.
use desec_stack.Common.{
  ℕ, zero, suc, ◌+◌, ◌%◌, ◌^◌, ◌≤◌, ◌<◌, ◌≡◌, refl, sym, ap, ◌∙◌, Bool, true, false, not, List,
  arith, differ, nat_eq, string_eq, pair_eq, option_eq, In, In-map, In-map_inv, In-keep, keep-In,
}
use desec_stack.Dynamic.{Address, Network, replace_prefix, replace_ip_subnet}
use mathlib.Core.Path.{subst}
use native.Mathlib.Nat.{mod-lt, mod-mod, mod-add-mod}

-- The address within the subnet with the host part of another address of the same version.
pub record IsMoved (subnet : Network) (a b : Address) : Type 0 where
  pub version : a.is_v6 ≡ subnet.is_v6
  pub version_kept : b.is_v6 ≡ subnet.is_v6
  pub above : subnet.network_address ≤ b.value
  pub below : b.value < subnet.network_address + 2 ^ subnet.host_bits
  pub host_kept : b.value % 2 ^ subnet.host_bits ≡ a.value % 2 ^ subnet.host_bits

size_pos : (bits : ℕ) → 0 < 2 ^ bits
size_pos zero = omega arith
size_pos (suc bits) = let ih = size_pos bits in omega arith

host_part :
    (network value size : ℕ) → network % size ≡ 0 → (network + value % size) % size ≡ value % size
host_part network value size h =
    let drop_zero : 0 + value % size ≡ value % size = omega arith in
    sym (mod-add-mod network size (value % size))
    ∙ ap (λ n. (n + value % size) % size) h
    ∙ ap (λ n. n % size) drop_zero
    ∙ mod-mod value size

replace_prefix-IsMoved :
    (subnet : Network) (a : Address)
    → subnet.network_address % 2 ^ subnet.host_bits ≡ 0
    → not (differ subnet.is_v6 a.is_v6) ≡ true
    → IsMoved subnet a (replace_prefix subnet a)
replace_prefix-IsMoved subnet a h same =
    let bound = mod-lt a.value (size_pos subnet.host_bits) in
    record {
      version = ground arith;
      version_kept = refl;
      above = omega arith;
      below = omega arith;
      host_kept = host_part subnet.network_address a.value (2 ^ subnet.host_bits) h;
    }

moved :
    (subnet : Network) (a b : Address)
    → b ≡ replace_prefix subnet a
    → IsMoved subnet a (replace_prefix subnet a)
    → IsMoved subnet a b
moved subnet a b e m = subst (λ c. IsMoved subnet a c) (sym e) m

same_version : (v : Bool) → not (differ v v) ≡ true
same_version true = refl
same_version false = refl

-- For a network address without host bits, every address that comes out of replacing the subnet lies
-- within it and has the host part of one of the addresses that went in, of the subnet's version;
-- and each of those, with the others left out, has such an image.
pub replace_ip_subnet-IsMoved :
    (records : List Address) (subnet : Network)
    → subnet.network_address % 2 ^ subnet.host_bits ≡ 0
    → ((b : Address)
        → In b (replace_ip_subnet records subnet)
        → (a : Address) × In a records × IsMoved subnet a b)
      × ((a : Address)
          → In a records
          → a.is_v6 ≡ subnet.is_v6
          → (b : Address) × In b (replace_ip_subnet records subnet) × IsMoved subnet a b)
unfolding replace_ip_subnet
replace_ip_subnet-IsMoved records subnet h = (
  λ b i.
      let (a, j, e) = In-map_inv (replace_prefix subnet) b _ i in
      let (k, same) = In-keep (λ x. not (differ subnet.is_v6 x.is_v6)) a records j in
      (a, k, moved subnet a b e (replace_prefix-IsMoved subnet a h same)),
  λ a i e.
      let same : not (differ subnet.is_v6 a.is_v6) ≡ true =
        ap (λ v. not (differ subnet.is_v6 v)) e ∙ same_version subnet.is_v6 in
      (
        replace_prefix subnet a,
        In-map (replace_prefix subnet) a _ (keep-In _ a records i same),
        replace_prefix-IsMoved subnet a h same,
      ),
)
