-- ===== src/Globals.antt =====
-- The global variables of src/main.c that the handlers share: the tables of users, the options that a
-- management client sets, and the metrics.
use proyecto_protos.Users.{Users}
use proyecto_protos.Prelude.{ℕ}

-- How many values a `size_t` has.
abbrev pub word : ℕ
word = 18446744073709551616

pub record Globals : Type 0 where
  pub users : Users
  pub admins : Users
  pub auth_method : ℕ
  pub password_dissectors : ℕ
  pub metrics_historic_connections : ℕ
  pub metrics_concurrent_connections : ℕ
  pub metrics_max_concurrent_connections : ℕ
  pub metrics_historic_byte_transfer : ℕ
  pub metrics_historic_auth_attempts : ℕ
  pub metrics_historic_connections_attempts : ℕ
  pub metrics_average_bytes_per_read : ℕ
  pub metrics_average_bytes_per_write : ℕ
  pub total_reads : ℕ
  pub total_writes : ℕ
