-- ===== src/Cidr/Prefix.antt =====
-- The masks of `matches_cidr` select the leading bits of an address.
-- (crates/neoncore-routing/src/lib.rs, crates/neoncore-kernel/src/routing.rs)

use native.Mathlib.Nat.{
  pow-zero, pow-suc, one-le-pow, mod-eq_of_lt, mul-le-mul_right, div-eq_of_lt, sub-zero, zero-mul,
}
use neon_core_atlas.Cidr.{mask, same_network, ip_in}
use neon_core_atlas.Prelude.{
  ◌==◌, length, All, zero, suc, ◌+◌, ◌-◌, ◌*◌, ◌/◌, ◌^◌, ◌≤◌, ◌<◌, bit_and, ◌≡◌, refl, sym, ap,
  subst, ◌∙◌, ◌↔◌, true, [], ◌∷◌, arith, ℕ, ==_iff, leb, ◌%◌, Bool, ◌&&◌, le→leb, leb→le, &&_iff,
}
use neon_core_atlas.Prelude.Bits.{bit_and-zero, shl_ones, bit_and_prefix, mul_cancel}
use neon_core_atlas.Std.Bytes.{IsByte, Bytes}
use neon_core_atlas.Std.Net.{IpAddr, be_number, ip_bits}

pub be_number-lt :
    (acc : ℕ) (bs : Bytes) → All IsByte bs → be_number acc bs < (acc + 1) * 256 ^ length bs
unfolding be_number
be_number-lt acc [] h = omega (arith, pow-zero 256)
be_number-lt acc (b ∷ bs) (hb, hs) = omega (
  arith,
  be_number-lt (acc * 256 + b) bs hs,
  ap (λ (t : ℕ). (acc + 1) * t) (pow-suc 256 (length bs)),
  mul-le-mul_right {m = b + 1} {n = 256} (256 ^ length bs) (omega arith),
)

-- An address of its family's length, octet by octet a byte.
abbrev pub IsAddr : IpAddr → Type 0
IsAddr (IpAddr.v4 a) = (length a ≡ 4) × All IsByte a
IsAddr (IpAddr.v6 a) = (length a ≡ 16) × All IsByte a

ip_bits-lt : (n : ℕ) (a : Bytes) → length a ≡ n → All IsByte a → ip_bits a < 256 ^ n
ip_bits-lt n a e h =
    omega (arith, subst (λ (t : ℕ). ip_bits a < (0 + 1) * 256 ^ t) e (be_number-lt 0 a h))

mask-zero : (w : ℕ) → mask w 0 ≡ 0
unfolding mask
mask-zero w = refl

mask_shl : (w p : ℕ) → mask w (suc p) ≡ (2 ^ w - 1) * 2 ^ (w - suc p) % 2 ^ w
unfolding mask
mask_shl w p = ground arith

mask-suc : (w p : ℕ) → suc p ≤ w → mask w (suc p) ≡ 2 ^ w - 2 ^ (w - suc p)
mask-suc w p h =
    mask_shl w p
    ∙ shl_ones (w - suc p) w (omega arith)
    ∙ mod-eq_of_lt
        (omega (arith, one-le-pow (w - suc p) 2 (omega arith), one-le-pow w 2 (omega arith)))

masked : (w p x : ℕ) → p ≤ w → x < 2 ^ w → bit_and x (mask w p) ≡ x / 2 ^ (w - p) * 2 ^ (w - p)
masked w zero x h lt = rw (mask-zero w, bit_and-zero x, sub-zero w) (rw (div-eq_of_lt lt, zero-mul))
masked w (suc p) x h lt =
    ap (bit_and x) (mask-suc w p h) ∙ bit_and_prefix (w - suc p) w x (omega arith) lt

same_network_iff :
    (w p : ℕ) (ip base : Bytes)
    → p ≤ w
    → ip_bits ip < 2 ^ w
    → ip_bits base < 2 ^ w
    → (same_network w p ip base ≡ true) ↔ (ip_bits ip / 2 ^ (w - p) ≡ ip_bits base / 2 ^ (w - p))
unfolding same_network
same_network_iff w p ip base h hi hb = (to, from)
  where
    mi : bit_and (ip_bits ip) (mask w p) ≡ ip_bits ip / 2 ^ (w - p) * 2 ^ (w - p)
    mi = masked w p (ip_bits ip) h hi

    mb : bit_and (ip_bits base) (mask w p) ≡ ip_bits base / 2 ^ (w - p) * 2 ^ (w - p)
    mb = masked w p (ip_bits base) h hb

    to :
        (bit_and (ip_bits ip) (mask w p) == bit_and (ip_bits base) (mask w p)) ≡ true
        → ip_bits ip / 2 ^ (w - p) ≡ ip_bits base / 2 ^ (w - p)
    to e = mul_cancel (2 ^ (w - p)) (one-le-pow (w - p) 2 (omega arith)) (
        omega (
          arith,
          mi,
          mb,
          (==_iff (bit_and (ip_bits ip) (mask w p)) (bit_and (ip_bits base) (mask w p))).0 e,
        ))

    from :
        ip_bits ip / 2 ^ (w - p) ≡ ip_bits base / 2 ^ (w - p)
        → (bit_and (ip_bits ip) (mask w p) == bit_and (ip_bits base) (mask w p)) ≡ true
    from e = (==_iff _ _).1 (mi ∙ ap (λ (t : ℕ). t * 2 ^ (w - p)) e ∙ sym mb)

-- The address and the base are of one family, the prefix fits it, and the leading `prefix` bits of
-- the two addresses are the same number.
abbrev pub InNetwork : ℕ → IpAddr → IpAddr → Type 0
InNetwork prefix (IpAddr.v4 ip) (IpAddr.v4 base) =
    (prefix ≤ 32) × (ip_bits ip / 2 ^ (32 - prefix) ≡ ip_bits base / 2 ^ (32 - prefix))
InNetwork prefix (IpAddr.v4 ip) (IpAddr.v6 base) = ⊥
InNetwork prefix (IpAddr.v6 ip) (IpAddr.v4 base) = ⊥
InNetwork prefix (IpAddr.v6 ip) (IpAddr.v6 base) =
    (prefix ≤ 128) × (ip_bits ip / 2 ^ (128 - prefix) ≡ ip_bits base / 2 ^ (128 - prefix))

both_tests :
    {P : Type 0} (p w : ℕ) (test : Bool)
    → (p ≤ w → (test ≡ true) ↔ P)
    → ((leb p w && test) ≡ true) ↔ ((p ≤ w) × P)
both_tests {P} p w test h = (to, from)
  where
    to : (leb p w && test) ≡ true → (p ≤ w) × P
    to e = let (l, t) = (&&_iff (leb p w) test).0 e in (leb→le p w l, (h (leb→le p w l)).0 t)

    from : (p ≤ w) × P → (leb p w && test) ≡ true
    from q = (&&_iff (leb p w) test).1 (le→leb p w q.0, (h q.0).1 q.1)

-- The mask test of `matches_cidr` holds exactly when the address lies in the network, for both
-- families and every prefix, 0 and the whole width included.
pub ip_in_iff :
    (prefix : ℕ) (ip base : IpAddr)
    → IsAddr ip
    → IsAddr base
    → (ip_in prefix ip base ≡ true) ↔ InNetwork prefix ip base
unfolding ip_in
ip_in_iff prefix (IpAddr.v4 a) (IpAddr.v4 b) (la, ha) (lb, hb) =
    both_tests prefix 32 (same_network 32 prefix a b)
      λ h. same_network_iff 32 prefix a b h (ip_bits-lt 4 a la ha) (ip_bits-lt 4 b lb hb)
ip_in_iff prefix (IpAddr.v4 a) (IpAddr.v6 b) ha hb = (λ e. cc, absurd)
ip_in_iff prefix (IpAddr.v6 a) (IpAddr.v4 b) ha hb = (λ e. cc, absurd)
ip_in_iff prefix (IpAddr.v6 a) (IpAddr.v6 b) (la, ha) (lb, hb) =
    both_tests prefix 128 (same_network 128 prefix a b)
      λ h. same_network_iff 128 prefix a b h (ip_bits-lt 16 a la ha) (ip_bits-lt 16 b lb hb)
