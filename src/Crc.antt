-- ===== src/Crc.antt =====
-- `crc32.ChecksumIEEE` of Go's `hash/crc32`, bit by bit, over bytes.
use Prim.Native.Nat.{bit_xor}
use j7f.Base.{ℕ, zero, suc, ◌/◌, ◌%◌, ◌≡◌, refl, [], ◌∷◌, Text, codes, ◌==◌, if◌then◌else◌}

crc_bits : ℕ → ℕ → ℕ
crc_bits zero x = x
crc_bits (suc k) x = crc_bits k (if x % 2 == 1 then bit_xor (x / 2) 0xEDB88320 else x / 2)

crc_bytes : ℕ → Text → ℕ
crc_bytes crc [] = crc
crc_bytes crc (b ∷ s) = crc_bytes (crc_bits 8 (bit_xor crc b)) s

unfoldable pub checksum_ieee : Text → ℕ
unfolding crc_bits crc_bytes
checksum_ieee s = bit_xor (crc_bytes 0xFFFFFFFF s) 0xFFFFFFFF

check_value : checksum_ieee (codes "123456789") ≡ 0xCBF43926
unfolding checksum_ieee
check_value = refl
