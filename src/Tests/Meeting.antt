-- ===== src/Tests/Meeting.antt =====
-- The client of the management, alone and with the server.
use proyecto_protos.Auth.{UserpassSt, unset_parser}
use proyecto_protos.Auth
use proyecto_protos.Auth.Message as AuthMessage
use proyecto_protos.Auth.Stage as AuthStage
use proyecto_protos.Buffer.{contents}
use proyecto_protos.Client.{
  ClientUser, Typed, handshake, handshake_response, send_credentials, credentials_response,
  send_request,
}
use proyecto_protos.Client.Adding.{told, told_lem, client_adds_user}
use proyecto_protos.Client.Counting.{counted, client_shows_metric}
use proyecto_protos.Client.Encode.{send_credentials_lem}
use proyecto_protos.Client.Entering.{method_agreed, Learnt, client_logs_in}
use proyecto_protos.Client.Naming.{listed, client_lists_users}
use proyecto_protos.Client.Order.{session_complete, granted_first}
use proyecto_protos.Client.Reply.{request_response}
use proyecto_protos.Client.Requests.{send_add}
use proyecto_protos.Client.Session.{Answers, Arrays, answered, session}
use proyecto_protos.Connection.{Key}
use proyecto_protos.Globals.{Globals}
use proyecto_protos.Hello.{HelloSt, version}
use proyecto_protos.Hello
use proyecto_protos.Hello.Message.{at}
use proyecto_protos.Hello.Stage as HelloStage
use proyecto_protos.Mng.{MngSt, Status, code, succeeded, historic_connections}
use proyecto_protos.Mng
use proyecto_protos.Mng.Chosen.{index_parser}
use proyecto_protos.Mng.Message.{encode_add}
use proyecto_protos.Mng.Read.{index_read}
use proyecto_protos.Mng.Read as MngRead
use proyecto_protos.Mng.Stage.{Added}
use proyecto_protos.Mng.Stage as MngStage
use proyecto_protos.MngState
use proyecto_protos.Selector.{Selector, success, op_read, op_write, set_interest, update_fdset}
use proyecto_protos.Socket.{offered}
use proyecto_protos.SocksState
use proyecto_protos.Tests.Fixtures.{
  empty_buffer-IsValid, key, busy, busy_item, busy_writes, globals, two_users-Holds, ana, beto,
}
use proyecto_protos.Prelude.{
  ℕ, ◌≡◌, ◌≢◌, refl, true, false, none, some, List, [], ◌∷◌, ◌++◌, replicate, length-replicate,
  length, pos, arith,
}

-- A management connection.
abbrev mng_key : Key
mng_key = record key { conn = record (key.conn) { is_socks = false } }

abbrev caller : ClientUser
caller = record { text = some ana; credentials = true }

-- Arrays of zeros.
abbrev zeros : ℕ → List ℕ
zeros n = replicate n 0

zeros-length : (n : ℕ) → length (zeros n) ≡ n
zeros-length n = length-replicate n 0

send_credentials_lem_example :
    send_credentials (zeros 510) caller ≡ some (AuthMessage.encode (97 ∷ []) (49 ∷ []))
send_credentials_lem_example =
    send_credentials_lem (zeros 510) caller (97 ∷ []) (49 ∷ []) (zeros-length 510) refl
      (omega arith) (omega arith)

abbrev greeting : HelloSt
greeting = record {
  parser = record { protocol_version = 1; wanted_method = 2; state = version; remaining = 0 };
  method = 0xFF;
  status = Hello.Status.success;
}

greeting-Waits : HelloStage.Waits mng_key greeting
greeting-Waits = record {
  reading = empty_buffer-IsValid;
  drained = refl;
  writing = empty_buffer-IsValid;
  room = omega arith;
  ready = refl;
}

hello_fits : length (handshake caller) ≡ 4
unfolding handshake
hello_fits = refl

method_agreed_example :
    (d' : HelloSt) × (k' : Key) × (Hello.read mng_key
        (at greeting version 0 0xFF)
        (offered (handshake caller))
      ≡ some (SocksState.hello_write, d', k'))
    × (d'.method ≡ 2)
    × (handshake_response (offered (contents k'.conn.write_buffer)) ≡ 2)
method_agreed_example =
    method_agreed caller mng_key greeting greeting-Waits refl refl refl refl
      (omega (arith, hello_fits)) busy_writes

abbrev entering : UserpassSt
entering = record { parser = unset_parser; status = Auth.Status.success }

entering-Waits : AuthStage.Waits mng_key entering
entering-Waits = record {
  reading = empty_buffer-IsValid;
  drained = refl;
  ready = refl;
  fresh = refl;
}

client_logs_in_example :
    (message : List ℕ) × (d' : UserpassSt) × (k1 : Key) × (k2 : Key) × (g' : Globals) × (answer : ℕ)
    × (send_credentials (zeros 510) caller ≡ some message)
    × (Auth.read globals mng_key entering (offered message)
        ≡ some (SocksState.userpass_write, d', k1, g'))
    × (Auth.reply k1 ≡ some k2)
    × (credentials_response (offered (contents k2.conn.write_buffer)) ≡ answer)
    × Learnt (ana ∷ beto ∷ []) (97 ∷ []) (49 ∷ []) answer
client_logs_in_example =
    client_logs_in (zeros 510) caller globals mng_key entering (ana ∷ beto ∷ []) (97 ∷ []) (49 ∷ [])
      (zeros-length 510) refl (omega arith) (omega arith) (omega arith) entering-Waits
      two_users-Holds refl empty_buffer-IsValid (omega arith) refl (omega arith) busy_writes

abbrev choosing : MngSt
choosing = record { parser = index_parser; status = succeeded; index = none }

choosing-Waits : MngStage.Waits mng_key choosing index_parser
choosing-Waits = record {
  reading = empty_buffer-IsValid;
  drained = refl;
  writing = empty_buffer-IsValid;
  room = omega arith;
  ready = refl;
  fresh = refl;
}

-- The table once it asks for reading.
abbrev reading : Selector
unfolding update_fdset
reading =
    update_fdset (record busy { fds = record busy_item { interest = op_read } ∷ [] }) 0 op_read

busy_reads : set_interest busy (pos 0) op_read ≡ some (success, reading)
unfolding set_interest
busy_reads = refl

abbrev writing_again : Selector
unfolding update_fdset
writing_again =
    update_fdset (record reading { fds = record busy_item { interest = op_write } ∷ [] }) 0 op_write

reading_writes : set_interest reading (pos 0) op_write ≡ some (success, writing_again)
unfolding set_interest update_fdset
reading_writes = refl

abbrev asks_to_add : Typed
asks_to_add = record { number = some (pos 10); first = some (99 ∷ []); second = some (51 ∷ []) }

client_adds_user_example :
    (message : List ℕ) × (d1 : MngSt) × (d2 : MngSt) × (d3 : MngSt) × (k1 : Key) × (k2 : Key)
    × (g' : Globals) × (status : Status) × (send_request (zeros 512) asks_to_add
        ≡ some (pos 10, some (0x0A ∷ message)))
    × (index_read globals mng_key choosing (offered (0x0A ∷ message))
        ≡ some (MngState.request_read, d1, k1))
    × (Mng.request_init d1 true ≡ some d2)
    × (MngRead.read globals k1 d2 (offered message) ≡ some (MngState.request_write, d3, k2, g'))
    × Added (ana ∷ beto ∷ []) (record { name = 99 ∷ []; pass = 51 ∷ [] }) globals g' status
    × (contents k2.conn.write_buffer ≡ contents mng_key.conn.write_buffer ++ (code status ∷ []))
    × (request_response (zeros 500) (offered (code status ∷ [])) (pos 10) false
        ≡ some (told status))
client_adds_user_example =
    client_adds_user (zeros 512) (zeros 500) asks_to_add globals mng_key choosing (ana ∷ beto ∷ [])
      (99 ∷ []) (51 ∷ []) (zeros-length 512) refl (omega arith) (omega arith) choosing-Waits
      two_users-Holds (omega arith) (omega arith) busy_reads reading_writes

abbrev asks_for : ℕ → Typed
asks_for n = record { number = some (pos n); first = none; second = none }

client_shows_metric_example :
    (d' : MngSt) × (k' : Key) × (send_request (zeros 512) (asks_for 2)
      ≡ some (pos 2, some (2 ∷ [])))
    × (index_read globals mng_key choosing (offered (2 ∷ []))
        ≡ some (MngState.request_write, d', k'))
    × (request_response (zeros 500) (offered (contents k'.conn.write_buffer)) (pos 2) true
        ≡ some (counted 2 1 true))
client_shows_metric_example =
    client_shows_metric (zeros 512) (zeros 500) (asks_for 2) true globals mng_key choosing
      historic_connections 2 1 (zeros-length 512) refl refl choosing-Waits refl (omega arith)
      (omega arith) busy_writes

client_lists_users_example :
    (d' : MngSt) × (k' : Key) × (send_request (zeros 512) (asks_for 1)
      ≡ some (pos 1, some (1 ∷ [])))
    × (index_read globals mng_key choosing (offered (1 ∷ []))
        ≡ some (MngState.request_write, d', k'))
    × (request_response (zeros 500) (offered (contents k'.conn.write_buffer)) (pos 1) false
        ≡ some (listed (ana ∷ beto ∷ [])))
client_lists_users_example =
    client_lists_users (zeros 512) (zeros 500) (asks_for 1) globals mng_key choosing
      (ana ∷ beto ∷ []) (zeros-length 512) refl choosing-Waits refl two_users-Holds
      (omega arith, (omega arith, tt)) (omega arith) (omega arith) (omega arith) (omega arith)
      busy_writes

-- A run in which the server grants access and adds a user.
abbrev friendly : Answers
friendly = record {
  connected = true;
  handshake_sent = true;
  method = offered (1 ∷ 2 ∷ []);
  credentials_sent = true;
  verdict = offered (1 ∷ 0 ∷ []);
  typed = asks_to_add;
  request_sent = true;
  reply = offered (0 ∷ []);
}

abbrev arrays : Arrays
arrays = record { credentials = zeros 510; request = zeros 512; reply = zeros 500 }

named : handshake_response friendly.method ≡ 0x02
unfolding handshake_response
named = refl

let_in : credentials_response friendly.verdict ≡ 0x00
unfolding credentials_response
let_in = refl

added_reply : request_response (zeros 500) (offered (0 ∷ [])) (pos 10) false ≡ some (told succeeded)
unfolding code
added_reply = told_lem (zeros 500) succeeded

friendly_run :
    session caller false friendly arrays
    ≡ some (
      handshake caller
          ∷ AuthMessage.encode (97 ∷ []) (49 ∷ [])
          ∷ (0x0A ∷ encode_add (99 ∷ []) (51 ∷ []))
          ∷ [],
      answered (told succeeded),
    )
friendly_run =
    session_complete caller false friendly arrays (97 ∷ []) (49 ∷ [])
      (0x0A ∷ encode_add (99 ∷ []) (51 ∷ [])) (pos 10) (told succeeded) (zeros-length 510) refl
      (omega arith) (omega arith) (omega arith) refl refl named refl let_in
      (send_add (zeros 512) asks_to_add (99 ∷ []) (51 ∷ []) (zeros-length 512) refl (omega arith)
        (omega arith))
      refl added_reply

granted_first_example :
    (friendly.connected ≡ true)
    × (friendly.handshake_sent ≡ true)
    × (handshake_response friendly.method ≢ 0xFF)
    × (credentials_response friendly.verdict ≡ 0x00)
granted_first_example =
    granted_first caller false friendly arrays
      (handshake caller
        ∷ AuthMessage.encode (97 ∷ []) (49 ∷ [])
        ∷ (0x0A ∷ encode_add (99 ∷ []) (51 ∷ []))
        ∷ [])
      (told succeeded) friendly_run
