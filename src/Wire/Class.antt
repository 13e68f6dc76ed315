-- ===== src/Wire/Class.antt =====
-- `enum melodi_wire_class` of src/proto/wire.h.
use melodi.Base.{ℕ}

abbrev pub hello : ℕ
hello = 1

abbrev pub challenge : ℕ
challenge = 2

abbrev pub response : ℕ
response = 3

abbrev pub message : ℕ
message = 4

abbrev pub ack : ℕ
ack = 5

abbrev pub conflict : ℕ
conflict = 6

abbrev pub control : ℕ
control = 7
