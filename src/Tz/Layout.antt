-- ===== src/Tz/Layout.antt =====
-- examples/minimal-tz/include/tz_layout.h: the address map of the two worlds.
use rp2350_tz_tee.Prelude.{ℕ, ◌+◌, ◌-◌}

abbrev pub s_flash_start : ℕ
s_flash_start = 0x1000_0000

abbrev pub s_flash_size : ℕ
s_flash_size = 0x0010_0000

abbrev pub s_flash_limit : ℕ
s_flash_limit = s_flash_start + s_flash_size - 1

abbrev pub veneer_size : ℕ
veneer_size = 0x0000_1000

abbrev pub veneer_start : ℕ
veneer_start = s_flash_start + s_flash_size - veneer_size

abbrev pub veneer_limit : ℕ
veneer_limit = s_flash_start + s_flash_size - 1

abbrev pub ns_flash_start : ℕ
ns_flash_start = 0x1010_0000

abbrev pub ns_flash_size : ℕ
ns_flash_size = 0x0010_0000

abbrev pub ns_flash_limit : ℕ
ns_flash_limit = ns_flash_start + ns_flash_size - 1

abbrev pub s_ram_start : ℕ
s_ram_start = 0x2000_0000

abbrev pub s_ram_size : ℕ
s_ram_size = 0x0004_0000

abbrev pub s_ram_limit : ℕ
s_ram_limit = s_ram_start + s_ram_size - 1

abbrev pub ns_ram_start : ℕ
ns_ram_start = 0x2004_0000

abbrev pub ns_ram_size : ℕ
ns_ram_size = 0x0004_0000

abbrev pub ns_ram_limit : ℕ
ns_ram_limit = ns_ram_start + ns_ram_size - 1

abbrev pub ns_mailbox_addr : ℕ
ns_mailbox_addr = 0x2007_C000
