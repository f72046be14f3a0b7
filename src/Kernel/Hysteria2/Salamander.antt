-- ===== src/Kernel/Hysteria2/Salamander.antt =====
-- The Salamander obfuscation of crates/neoncore-kernel/src/adapter/hysteria2.rs.

use neon_core_atlas.Kernel.Hysteria2.{
  xor_from, salamander_deobfuscate, salamander_obfuscate, salamander_xor,
}
use neon_core_atlas.Prelude.{
  length, get_or, length-append, take-append_length, drop-append_length, ok, suc, ◌%◌, ◌≡◌, refl,
  [], ◌∷◌, ◌++◌, arith, ℕ, ap₂,
}
use neon_core_atlas.Prelude.Bits.{bit_xor-twice}
use neon_core_atlas.Std.Bytes.{Bytes}

xor_from-twice : (i : ℕ) (key payload : Bytes) → xor_from i key (xor_from i key payload) ≡ payload
unfolding xor_from
xor_from-twice i key [] = refl
xor_from-twice i key (b ∷ payload) =
    ap₂ (◌∷◌) (bit_xor-twice b (get_or key (i % length key) 0)) (xor_from-twice (suc i) key payload)

-- Whatever the hash function, and with any salt of eight bytes, the holder of the key gets the packet back.
pub salamander_deobfuscate-obfuscate :
    (hash : Bytes → Bytes) (salt packet key : Bytes)
    → length salt ≡ 8
    → salamander_deobfuscate hash (salamander_obfuscate hash salt packet key) key ≡ ok packet
unfolding salamander_deobfuscate salamander_obfuscate salamander_xor
salamander_deobfuscate-obfuscate hash salt packet key e = ground (
  arith,
  take-append_length 8 salt (xor_from 0 (hash (key ++ salt)) packet) e,
  drop-append_length 8 salt (xor_from 0 (hash (key ++ salt)) packet) e,
  length-append salt (xor_from 0 (hash (key ++ salt)) packet),
  xor_from-twice 0 (hash (key ++ salt)) packet,
)
