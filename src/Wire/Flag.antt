-- ===== src/Wire/Flag.antt =====
-- `enum melodi_wire_flag` of src/proto/wire.h.
use melodi.Base.{ℕ}

abbrev pub broadcast : ℕ
broadcast = 1

abbrev pub encrypted : ℕ
encrypted = 2

abbrev pub final : ℕ
final = 16

-- These, with `reliable`, `ordered` and `ignorable`.
abbrev pub every : ℕ
every = 0x801f
