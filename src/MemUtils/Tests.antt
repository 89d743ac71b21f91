-- ===== src/MemUtils/Tests.antt =====
-- A number in a memory of zeroes.
use partman.Base.{◌≡◌, refl}
use partman.MemUtils.{write_pu8, write_pu16, read_pu8, read_pu16}

cut_to_16_bits : read_pu16 100 (write_pu16 100 0x112233 (λ q. 0)) ≡ 0x2233
unfolding read_pu16 write_pu16 read_pu8 write_pu8
cut_to_16_bits = refl
