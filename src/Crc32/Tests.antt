-- ===== src/Crc32/Tests.antt =====
-- The CRC-32 of the digits 1 to 9, the check value of the standard.
use partman.Base.{ℕ, ◌≡◌, refl, List, [], ◌∷◌, inl}
use partman.Crc32.{Crc, zero_table, crc32_init, crc32_finalize}
use partman.Crc32.Reference.{checksum}
use partman.Crc32.Table.{IsTable}
use partman.Crc32.Laws.{feed, crc32_compute8_lem}

abbrev digits : List ℕ
digits = 0x32 ∷ 0x33 ∷ 0x34 ∷ 0x35 ∷ 0x36 ∷ 0x37 ∷ 0x38 ∷ 0x39 ∷ []

abbrev fresh : Crc
fresh = record { table = zero_table; crc32 = crc32_init }

crc32_compute8_lem_example :
    (crc32_finalize (feed (0x31 ∷ digits) fresh).crc32 ≡ checksum (0x31 ∷ digits))
    × IsTable (feed (0x31 ∷ digits) fresh).table
crc32_compute8_lem_example = crc32_compute8_lem 0x31 digits zero_table (inl refl)
