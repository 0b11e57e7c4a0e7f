-- ===== src/Fdt/Tests.antt =====
-- A word as the device tree stores it.
use riscv_hobby_os.Base.{◌≡◌, refl}
use riscv_hobby_os.Fdt.{bswap, swap_bytes, swap_halves}

bswap_runs : bswap 0x12345678 ≡ 0x78563412
unfolding bswap swap_bytes swap_halves
bswap_runs = refl
