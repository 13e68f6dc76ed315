-- ===== src/Radio/Kind.antt =====
-- enum melodi_radio_type of src/proto/radio.h.
use melodi.Base.{ℕ}

abbrev pub identify : ℕ
identify = 1

abbrev pub configure : ℕ
configure = 2

abbrev pub transmit : ℕ
transmit = 3

abbrev pub reset : ℕ
reset = 4

abbrev pub info : ℕ
info = 0x81

abbrev pub status : ℕ
status = 0x82

abbrev pub receive : ℕ
receive = 0x83

abbrev pub result : ℕ
result = 0x84
