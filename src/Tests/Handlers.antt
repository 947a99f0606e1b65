-- ===== src/Tests/Handlers.antt =====
-- The handlers on whole messages.
use proyecto_protos.Auth.{UserpassSt, unset_parser}
use proyecto_protos.Auth
use proyecto_protos.Auth.Stage.{Verdict, auth_read_message, wrong_version_faults}
use proyecto_protos.Auth.Stage as AuthStage
use proyecto_protos.Auth.Message.{parsed}
use proyecto_protos.Auth.Message as AuthMessage
use proyecto_protos.Buffer.{contents}
use proyecto_protos.Connection.{Key}
use proyecto_protos.Globals.{Globals}
use proyecto_protos.Mng.{MngSt, succeeded, add_user, delete_user}
use proyecto_protos.MngState
use proyecto_protos.Mng.Message.{add_parser, delete_parser, parsed_delete}
use proyecto_protos.Mng.Read as MngRead
use proyecto_protos.Mng.Stage.{Added, add_user_message, delete_user_message}
use proyecto_protos.Mng.Stage as MngStage
use proyecto_protos.Request.{RequestSt}
use proyecto_protos.Request
use proyecto_protos.Request.Stage.{located, never_answered, ip_request_connects}
use proyecto_protos.Request.Stage as RequestStage
use proyecto_protos.RequestParser.{Parser, addrtype_ipv4, error_unsupported_cmd}
use proyecto_protos.RequestParser
use proyecto_protos.RequestParser.Message.{encode_ip}
use proyecto_protos.RequestParser.Errors.{bad_cmd}
use proyecto_protos.Socket.{offered}
use proyecto_protos.SocksState
use proyecto_protos.Tests.Fixtures.{
  empty_buffer-IsValid, key, busy_writes, globals, two_users-Holds, ana, beto,
}
use proyecto_protos.Tests.Messages.{memory}
use proyecto_protos.Users.Table.{Holds}
use proyecto_protos.Users.Delete.{remove_first}
use proyecto_protos.Prelude.{◌≡◌, refl, inl, [], ◌∷◌, ◌++◌, true, none, some, arith}

abbrev requesting : RequestSt
requesting = record {
  parser = record {
    request = memory;
    state = RequestParser.State.version;
    remaining = 0;
    read = 0;
  };
  addr_family = 0;
  status = Request.Status.succeeded;
  origin = none;
  conn_status = Request.Status.succeeded;
}

requesting-Waits : RequestStage.Waits key requesting memory
unfolding RequestParser.init
requesting-Waits = record {
  reading = empty_buffer-IsValid;
  drained = refl;
  fresh = refl;
  ready = refl;
}

never_answered_example :
    (d' : RequestSt) × (k' : Key) × (Request.read key requesting
        (offered (5 ∷ 2 ∷ 0 ∷ []))
        true
        true
      ≡ some (SocksState.request_read, d', k'))
    × (d'.parser.state ≡ error_unsupported_cmd)
    × (k'.conn.write_buffer ≡ key.conn.write_buffer)
    × (k'.selector ≡ key.selector)
never_answered_example =
    never_answered key requesting memory 5 (2 ∷ 0 ∷ []) true true requesting-Waits (omega arith)
      (bad_cmd 2 (0 ∷ []) (omega arith))

ip_request_connects_example :
    (p : Parser) × (k' : Key) × (Request.read key requesting
        (offered (encode_ip 0 addrtype_ipv4 (127 ∷ 0 ∷ 0 ∷ 1 ∷ []) 0 80 ++ (9 ∷ [])))
        true
        true
      ≡ some (
        SocksState.request_connecting,
        located (record requesting { parser = p }) addrtype_ipv4 (127 ∷ 0 ∷ 0 ∷ 1 ∷ []) 0 80,
        k',
      ))
    × (contents k'.conn.read_buffer ≡ 9 ∷ [])
ip_request_connects_example =
    ip_request_connects key requesting memory 0 addrtype_ipv4 (127 ∷ 0 ∷ 0 ∷ 1 ∷ []) (9 ∷ []) 0 80
      true true requesting-Waits (inl (refl, refl)) (omega arith)

abbrev authenticating : UserpassSt
authenticating = record { parser = unset_parser; status = Auth.Status.success }

authenticating-Waits : AuthStage.Waits key authenticating
authenticating-Waits = record {
  reading = empty_buffer-IsValid;
  drained = refl;
  ready = refl;
  fresh = refl;
}

auth_read_message_example :
    (k' : Key) × (Auth.read globals key authenticating
        (offered (AuthMessage.encode (97 ∷ []) (49 ∷ []) ++ (9 ∷ [])))
      ≡ some (
        SocksState.userpass_write,
        record authenticating { parser = parsed (97 ∷ []) (49 ∷ []) },
        k',
        record globals { metrics_historic_auth_attempts = 1 },
      ))
    × Verdict (ana ∷ beto ∷ []) (97 ∷ []) (49 ∷ []) k'
    × (contents k'.conn.read_buffer ≡ 9 ∷ [])
auth_read_message_example =
    auth_read_message globals key authenticating (ana ∷ beto ∷ []) (97 ∷ []) (49 ∷ []) (9 ∷ [])
      authenticating-Waits two_users-Holds refl (omega arith) (omega arith) (omega arith)
      busy_writes

wrong_version_faults_example : Auth.read globals key authenticating (offered (5 ∷ 1 ∷ [])) ≡ none
wrong_version_faults_example =
    wrong_version_faults globals key authenticating ana (beto ∷ []) 5 (1 ∷ []) authenticating-Waits
      two_users-Holds refl (omega arith) (omega arith) busy_writes

abbrev adding : MngSt
adding = record { parser = add_parser; status = succeeded; index = some add_user }

adding-Waits : MngStage.Waits key adding add_parser
adding-Waits = record {
  reading = empty_buffer-IsValid;
  drained = refl;
  writing = empty_buffer-IsValid;
  room = omega arith;
  ready = refl;
  fresh = refl;
}

abbrev deleting : MngSt
deleting = record { parser = delete_parser; status = succeeded; index = some delete_user }

deleting-Waits : MngStage.Waits key deleting delete_parser
deleting-Waits = record {
  reading = empty_buffer-IsValid;
  drained = refl;
  writing = empty_buffer-IsValid;
  room = omega arith;
  ready = refl;
  fresh = refl;
}

delete_user_message_example :
    (g' : Globals) × (k' : Key) × Holds g'.users (remove_first (97 ∷ []) (ana ∷ beto ∷ []))
    × (MngRead.read globals key deleting (offered ((1 ∷ 97 ∷ []) ++ (9 ∷ [])))
        ≡ some
            (MngState.request_write, record deleting { parser = parsed_delete (97 ∷ []) }, k', g'))
    × (contents k'.conn.write_buffer ≡ contents key.conn.write_buffer ++ (0x00 ∷ []))
    × (contents k'.conn.read_buffer ≡ 9 ∷ [])
delete_user_message_example =
    delete_user_message globals key deleting (ana ∷ beto ∷ []) (97 ∷ []) (9 ∷ []) deleting-Waits
      two_users-Holds refl (omega arith) (omega arith) busy_writes
