-- ===== src/MngState.antt =====
-- `enum mng_state` of include/mng_nio.h: the numbers of the states of a management connection.
use proyecto_protos.Prelude.{ℕ}

abbrev pub hello_read : ℕ
hello_read = 0

abbrev pub hello_write : ℕ
hello_write = 1

abbrev pub userpass_read : ℕ
userpass_read = 2

abbrev pub userpass_write : ℕ
userpass_write = 3

abbrev pub request_read_index : ℕ
request_read_index = 4

abbrev pub request_read : ℕ
request_read = 5

abbrev pub request_write : ℕ
request_write = 6

abbrev pub done : ℕ
done = 7

abbrev pub error : ℕ
error = 8
