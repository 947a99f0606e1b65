-- ===== src/Proxy/Faults.antt =====
-- How a connection to an origin ends the process in src/socks5nio.c.
use proyecto_protos.Connecting.{connected, socks5_handler}
use proyecto_protos.Proxy.{Answers, World, connecting_init}
use proyecto_protos.Proxy.Negotiation.{standing_in}
use proyecto_protos.Proxy.Lifetime.{on_event}
use proyecto_protos.Request.{succeeded}
use proyecto_protos.Selector.{Item, op_read}
use proyecto_protos.Selector.Open.{
  IsOpen, IsFree, asked-IsOpen, asked-IsFree, registered-IsOpen, registered-IsOpen_other,
}
use proyecto_protos.SocksState
use proyecto_protos.Stm.{readable, handler, handle_first, call_ready}
use proyecto_protos.Prelude.{ℕ, ◌≡◌, refl, sym, ◌≢◌, true, none, some, pos}
use proyecto_protos.Connecting.AtOnce.{attempted, waiting, opened, init_connected}

-- In REQUEST_CONNECTING there is no callback for reading: a readable descriptor ends the process.
read_aborts : (w : World) → on_event readable (standing_in SocksState.request_connecting) w ≡ none
unfolding on_event handler handle_first call_ready
read_aborts w = refl

-- Where `connect` succeeds at once, `connecting_init` makes both descriptors wait to be read and the
-- connection stays in REQUEST_CONNECTING, whose table entry has no callback for reading: the next byte
-- from either end ends the process by `abort`.
pub immediate_connect_aborts :
    (state : ℕ) (w : World) (c n : ℕ) (it jt : Item) (next : Answers)
    → w.key.fd ≡ pos c
    → c ≢ n
    → IsOpen w.key.selector c it
    → IsFree w.key.selector n jt
    → w.answers.socket ≡ some n
    → w.answers.nio ≡ true
    → w.answers.connect ≡ connected
    → (w' : World) × (connecting_init state w ≡ some w')
      × (w'.origin.request.conn_status ≡ succeeded)
      × IsOpen w'.key.selector c (record it { interest = op_read })
      × IsOpen w'.key.selector n (record {
        fd = some n;
        interest = op_read;
        handler = socks5_handler;
        attachment = w.origin.object;
      })
      × (on_event readable
            (standing_in SocksState.request_connecting)
            (record w' { answers = next })
          ≡ none)
unfolding connecting_init
immediate_connect_aborts state w c n it jt next own ne opens free socket nio now =
    let free' = asked-IsFree it op_read ne free in
    (
      record w {
        globals = attempted w.globals;
        key = waiting w.key w.origin c n it;
        origin = opened w.key w.origin;
      },
      rw (
        socket,
        nio,
        now,
        init_connected w.globals w.key w.origin c n it jt w.answers.table_memory own ne opens free,
      ),
      refl,
      registered-IsOpen_other socks5_handler op_read w.origin.object (λ e. ne (sym e))
          (asked-IsOpen op_read opens),
      registered-IsOpen socks5_handler op_read w.origin.object free',
      read_aborts _,
    )
