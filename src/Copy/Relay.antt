-- ===== src/Copy/Relay.antt =====
-- What src/Etapas/copy.c passes on.
use proyecto_protos.Buffer.{Buffer}
use proyecto_protos.Connection.{Key}
use proyecto_protos.Copy.{active_user}
use proyecto_protos.Dissector.{Dissector}
use proyecto_protos.Globals.{Globals}
use proyecto_protos.Selector.{Selector}
use proyecto_protos.SocksState
use proyecto_protos.Prelude.{ℕ, ◌≡◌, ◌⊎◌, false, some, List, ◌==◌}

-- The dissector is off, or the connection's user has a name, which is printed without a test.
abbrev pub CanWatch : Globals → Key → Type 0
CanWatch g k =
    (g.password_dissectors == 0x00 ≡ false) ⊎ ((name : List ℕ) × (active_user g k ≡ some name))
