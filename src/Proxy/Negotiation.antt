-- ===== src/Proxy/Negotiation.antt =====
-- The first exchange of a connection, through the table of src/socks5nio.c and the engine of
-- src/stm.c.
use proyecto_protos.Buffer.{contents, space}
use proyecto_protos.Buffer.Valid.{IsValid}
use proyecto_protos.Globals.{Globals}
use proyecto_protos.Hello.{HelloSt, success, version, done, socks_version, read, read_init}
use proyecto_protos.Hello.Message.{at, encode, chosen}
use proyecto_protos.Hello.Stage.{own_version, hello_read_message}
use proyecto_protos.Connection.{Key}
use proyecto_protos.Proxy.{World, client_statbl, hello_read_init, hello_read}
use proyecto_protos.Proxy.Lifetime.{on_event}
use proyecto_protos.Selector.{Item, op_write}
use proyecto_protos.Selector.Open.{IsOpen, asked, set_interest_at}
use proyecto_protos.Socket.{offered}
use proyecto_protos.SocksState
use proyecto_protos.Stm.{Machine, readable, handler, handle_first, call_ready, call_if_set, jump}
use proyecto_protos.Prelude.{
  ℕ, ◌≤◌, ◌<◌, ◌≡◌, refl, ◌∙◌, ap, true, none, some, List, [], ◌∷◌, ◌++◌, length, pos, arith,
}

-- The machine of a connection that `socks5_new` has made, and where it stands.
abbrev pub standing : Machine World
standing = record {
  initial = SocksState.hello_read;
  states = client_statbl;
  max_state = SocksState.error;
  current = none;
}

abbrev pub standing_in : ℕ → Machine World
standing_in n = record standing { current = some n }

-- The state that `hello_read_init` makes for a proxy connection.
abbrev pub start : Globals → HelloSt
start g = record {
  parser = record {
    protocol_version = socks_version;
    wanted_method = g.auth_method;
    state = version;
    remaining = 0;
  };
  method = 0xFF;
  status = success;
}

arrival :
    (w : World) (n : ℕ)
    → w.key.conn.is_socks ≡ true
    → w.answers.parser_memory ≡ true
    → hello_read_init n w ≡ some (record w { hello = start w.globals })
unfolding hello_read_init read_init
arrival w n socks memory = ground (arith, socks, memory)

-- A new connection, its client's descriptor registered and its memory given, that gets a whole hello
-- of a method list shorter than 256 in one read.
pub record Greeted (w : World) (c : ℕ) (it : Item) (ms rest : List ℕ) : Type 0 where
  pub socks : w.key.conn.is_socks ≡ true
  pub memory : w.answers.parser_memory ≡ true
  pub own : w.key.fd ≡ pos c
  pub opens : IsOpen w.key.selector c it
  pub reading : IsValid w.key.conn.read_buffer
  pub drained : contents w.key.conn.read_buffer ≡ []
  pub writing : IsValid w.key.conn.write_buffer
  pub room : 2 ≤ space w.key.conn.write_buffer
  pub few : length ms < 256
  pub fits : length (encode socks_version ms ++ rest) ≤ space w.key.conn.read_buffer
  pub hello : w.answers.incoming ≡ offered (encode socks_version ms ++ rest)

own_socks : (k : Key) → k.conn.is_socks ≡ true → own_version k ≡ socks_version
own_socks k h = rw h

read_lem :
    (w : World) (c : ℕ) (it : Item) (ms rest : List ℕ)
    → Greeted w c it ms rest
    → (k' : Key) × (hello_read (record w { hello = start w.globals })
        ≡ some (
          SocksState.hello_write,
          record w {
            hello = at (start w.globals) done 0 (chosen w.globals.auth_method 0xFF ms);
            key = k';
          },
        ))
      × (contents k'.conn.write_buffer
          ≡ contents w.key.conn.write_buffer
            ++ (socks_version ∷ chosen w.globals.auth_method 0xFF ms ∷ []))
      × (contents k'.conn.read_buffer ≡ rest)
      × (k'.selector ≡ asked w.key.selector c it op_write)
unfolding hello_read
read_lem w c it ms rest g =
    let (k', e, p, q, same) =
      hello_read_message w.key (start w.globals) ms rest
        (record {
          reading = g.reading;
          drained = g.drained;
          writing = g.writing;
          room = g.room;
          ready = refl;
        })
        g.few g.fits (set_interest_at op_write g.own g.opens) in
    (
      k',
      rw (ap (λ i. read w.key (start w.globals) i) g.hello ∙ e),
      p
          ∙ ap
              (λ v.
                contents w.key.conn.write_buffer ++ (v ∷ chosen w.globals.auth_method 0xFF ms ∷ []))
              (own_socks w.key g.socks),
      q,
      same,
    )

-- The event with the table that it leaves.
pub hello_event :
    (w : World) (c : ℕ) (it : Item) (ms rest : List ℕ)
    → Greeted w c it ms rest
    → (w' : World) × (on_event readable standing w ≡ some (standing_in SocksState.hello_write, w'))
      × (w'.hello.method ≡ chosen w.globals.auth_method 0xFF ms)
      × (contents w'.key.conn.write_buffer
          ≡ contents w.key.conn.write_buffer
            ++ (socks_version ∷ chosen w.globals.auth_method 0xFF ms ∷ []))
      × (contents w'.key.conn.read_buffer ≡ rest)
      × (w'.key.selector ≡ asked w.key.selector c it op_write)
unfolding on_event handler handle_first call_ready call_if_set jump
hello_event w c it ms rest g =
    let (k', e, p, q, same) = read_lem w c it ms rest g in
    (
      record w {
        hello = at (start w.globals) done 0 (chosen w.globals.auth_method 0xFF ms);
        key = k';
      },
      rw (arrival w 0 g.socks g.memory, e),
      refl,
      p,
      q,
      same,
    )

-- The first readable event of such a connection takes its machine from nowhere, over HELLO_READ, to
-- HELLO_WRITE: the reply waits for the client, and what followed the hello for the next stage.
pub hello_through_machine :
    (w : World) (c : ℕ) (it : Item) (ms rest : List ℕ)
    → Greeted w c it ms rest
    → (w' : World) × (on_event readable standing w ≡ some (standing_in SocksState.hello_write, w'))
      × (w'.hello.method ≡ chosen w.globals.auth_method 0xFF ms)
      × (contents w'.key.conn.write_buffer
          ≡ contents w.key.conn.write_buffer
            ++ (socks_version ∷ chosen w.globals.auth_method 0xFF ms ∷ []))
      × (contents w'.key.conn.read_buffer ≡ rest)
hello_through_machine w c it ms rest g =
    let (w', e, m, p, q, _) = hello_event w c it ms rest g in (w', e, m, p, q)
