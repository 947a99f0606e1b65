-- ===== src/Tests/Fixtures.antt =====
-- A buffer, a selector, a connection and a table of users for the tests.
use mathlib.Core.Path.{subst}
use proyecto_protos.Buffer.{Buffer}
use proyecto_protos.Buffer.Valid
use proyecto_protos.Connection.{Connection, Key}
use proyecto_protos.Globals.{Globals}
use proyecto_protos.Selector.{
  Selector, Item, success, used, op_read, op_write, no_handler, unused_item, update_fdset,
  set_interest,
}
use proyecto_protos.Selector.Table
use proyecto_protos.Users.{User, Users}
use proyecto_protos.Users.Table.{Holds}
use proyecto_protos.Prelude.{
  ℕ, zero, suc, ◌≡◌, refl, inl, inr, [], ◌∷◌, true, false, none, some, replicate, get_elem?,
  length-replicate, pos, negsuc, ◌==◌, the_some, arith, sym,
}

abbrev pub empty_buffer : Buffer
empty_buffer = record { mem = replicate 32 0; limit = 32; read = 0; write = 0 }

pub empty_buffer-IsValid : Valid.IsValid empty_buffer
empty_buffer-IsValid = record {
  read_le = omega arith;
  write_le = omega arith;
  storage = omega arith;
}

-- A table of so many free entries.
abbrev pub blank : ℕ → Selector
blank k = record {
  allocated = true;
  fds = replicate k unused_item;
  fd_size = k;
  max_fd = 0;
  master_r = λ n. false;
  master_w = λ n. false;
  resolution_jobs = [];
}

get_elem?-replicate : (k n : ℕ) (x : Item) {y : Item} → get_elem? (replicate k x) n ≡ some y → x ≡ y
get_elem?-replicate zero n x e = cc
get_elem?-replicate (suc k) zero x e = cc
get_elem?-replicate (suc k) (suc n) x e = get_elem?-replicate k n x e

unused_entry : (n : ℕ) (i : Item) → unused_item ≡ i → Table.Entry 0 (λ m. false) (λ m. false) n i
unfolding used
unused_entry n i e =
    subst (Table.Entry 0 (λ m. false) (λ m. false) n) e
      (record { own = inl refl; watch_r = refl; watch_w = refl })

pub blank-IsValid : (k : ℕ) → Table.IsValid (blank k)
blank-IsValid k = record {
  size = sym (length-replicate k unused_item);
  entries = λ n i e. unused_entry n i (get_elem?-replicate k n unused_item e);
}

-- A table whose only entry is in use, for reading.
abbrev pub busy_item : Item
busy_item = record { fd = some 0; interest = op_read; handler = no_handler; attachment = 7 }

abbrev pub busy : Selector
busy = record {
  allocated = true;
  fds = busy_item ∷ [];
  fd_size = 1;
  max_fd = 0;
  master_r = λ n. n == 0;
  master_w = λ n. false;
  resolution_jobs = [];
}

busy_entry :
    (n : ℕ) (i : Item)
    → get_elem? (busy_item ∷ []) n ≡ some i
    → Table.Entry 0 (λ m. m == 0) (λ m. false) n i
unfolding used
busy_entry zero i e =
    subst (Table.Entry 0 (λ m. m == 0) (λ m. false) 0) (the_some e)
      (record { own = inr (refl, omega arith); watch_r = refl; watch_w = refl })
busy_entry (suc n) i e = cc

pub busy-IsValid : Table.IsValid busy
busy-IsValid = record { size = refl; entries = busy_entry }

-- The table once it asks for writing.
abbrev pub writing : Selector
unfolding update_fdset
writing =
    update_fdset (record busy { fds = record busy_item { interest = op_write } ∷ [] }) 0 op_write

pub busy_writes : set_interest busy (pos 0) op_write ≡ some (success, writing)
unfolding set_interest
busy_writes = refl

abbrev pub connection : Connection
connection = record {
  client_fd = pos 0;
  origin_fd = negsuc 0;
  error_state = 10;
  done_state = 9;
  is_socks = true;
  read_buffer = empty_buffer;
  write_buffer = empty_buffer;
  authentication = 0;
  user_index = 0;
}

abbrev pub key : Key
key = record { fd = pos 0; selector = busy; conn = connection }

abbrev pub ana : User
ana = record { name = 97 ∷ []; pass = 49 ∷ [] }

abbrev pub beto : User
beto = record { name = 98 ∷ []; pass = 50 ∷ [] }

abbrev pub two_users : Users
two_users = record { slots = some ana ∷ some beto ∷ replicate 253 none; nusers = 2 }

pub two_users-Holds : Holds two_users (ana ∷ beto ∷ [])
two_users-Holds = record { free = replicate 253 none; filled = refl; count = refl; capacity = refl }

abbrev pub globals : Globals
globals = record {
  users = two_users;
  admins = two_users;
  auth_method = 2;
  password_dissectors = 0;
  metrics_historic_connections = 1;
  metrics_concurrent_connections = 1;
  metrics_max_concurrent_connections = 1;
  metrics_historic_byte_transfer = 0;
  metrics_historic_auth_attempts = 0;
  metrics_historic_connections_attempts = 0;
  metrics_average_bytes_per_read = 0;
  metrics_average_bytes_per_write = 0;
  total_reads = 0;
  total_writes = 0;
}
