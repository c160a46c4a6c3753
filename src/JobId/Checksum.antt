-- ===== src/JobId/Checksum.antt =====
-- `crc16` of internal/jobid/jobid.go, with the CRC-32 (IEEE) of hash/crc32 that it calls.
use Prim.Native.Nat.{bit_xor}
use jack_service.Common.{ℕ, zero, suc, ◌/◌, ◌%◌, ◌≡◌, refl, List, [], ◌∷◌, eqb, if◌then◌else◌, ◌^◌}

-- One bit of the byte that has been mixed in, the lowest first.
crc_bits : ℕ → ℕ → ℕ
crc_bits zero crc = crc
crc_bits (suc n) crc =
    crc_bits n (if eqb (crc % 2) 1 then bit_xor (crc / 2) 0xedb88320 else crc / 2)

crc_bytes : ℕ → List ℕ → ℕ
crc_bytes crc [] = crc
crc_bytes crc (b ∷ bs) = crc_bytes (crc_bits 8 (bit_xor crc b)) bs

-- crc32.ChecksumIEEE
unfoldable pub checksum_ieee : List ℕ → ℕ
unfolding crc_bits crc_bytes
checksum_ieee bytes = bit_xor (crc_bytes 0xffffffff bytes) 0xffffffff

-- The low sixteen bits.
unfoldable pub crc16 : List ℕ → ℕ
unfolding checksum_ieee
crc16 bytes = checksum_ieee bytes % 2 ^ 16

-- The CRC-32 of "123456789" is 0xcbf43926.
crc16_check : crc16 (49 ∷ 50 ∷ 51 ∷ 52 ∷ 53 ∷ 54 ∷ 55 ∷ 56 ∷ 57 ∷ []) ≡ 0x3926
unfolding crc16
crc16_check = refl
