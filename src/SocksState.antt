-- ===== src/SocksState.antt =====
-- `enum socks_v5state` of include/socks5nio.h: the numbers of the states of a proxy connection.
use proyecto_protos.Prelude.{ℕ}

abbrev pub hello_read : ℕ
hello_read = 0

abbrev pub hello_write : ℕ
hello_write = 1

abbrev pub userpass_read : ℕ
userpass_read = 2

abbrev pub userpass_write : ℕ
userpass_write = 3

abbrev pub request_read : ℕ
request_read = 4

abbrev pub request_resolv : ℕ
request_resolv = 5

abbrev pub request_connecting : ℕ
request_connecting = 6

abbrev pub request_write : ℕ
request_write = 7

abbrev pub copy : ℕ
copy = 8

abbrev pub done : ℕ
done = 9

abbrev pub error : ℕ
error = 10
