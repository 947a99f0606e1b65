-- ===== src/Client/Session.antt =====
-- `main` of src/client/client.c, once the options are known: the order of its messages. What the system
-- and the server answer, what is typed and what the arrays hold is an argument.
use proyecto_protos.Args.{SockAddr, Listen}
use proyecto_protos.Client.{
  ClientUser, Typed, handshake, handshake_response, send_credentials, credentials_response,
  send_request,
}
use proyecto_protos.Client.Reply.{Outcome, request_response}
use proyecto_protos.Request.{Family, inet, inet6}
use proyecto_protos.Socket.{Incoming}
use proyecto_protos.Prelude.{
  ℕ, Bool, not, Option, none, some, List, [], ◌∷◌, ◌++◌, ◌==◌, if◌then◌else◌, ◌>>=◌,
}

-- The address that `connect` gets, and the family of the socket.
unfoldable pub target : Listen → Family × SockAddr
target l = elim l.family [
  | none ↦ (inet, l.addr_info)
  | some inet ↦ (inet, l.addr_info)
  | some inet6 ↦ (inet6, l.addr_info6)
]

-- Whether `connect` and each `send` succeed, what each `recv` gives, and what is typed.
pub record Answers : Type 0 where
  pub connected : Bool
  pub handshake_sent : Bool
  pub method : Incoming
  pub credentials_sent : Bool
  pub verdict : Incoming
  pub typed : Typed
  pub request_sent : Bool
  pub reply : Incoming

-- What the arrays of the functions hold before they are written.
pub record Arrays : Type 0 where
  pub credentials : List ℕ
  pub request : List ℕ
  pub reply : List ℕ

-- Where `main` ends.
pub data End : Type 0 where
  not_connected handshake_failed no_method credentials_failed not_authenticated request_failed : End
  answered : Outcome → End

-- The messages that are given to `send`, in their order, and the end.
abbrev pub Run : Type 0
Run = List (List ℕ) × End

-- From `send_request` on, with the messages so far.
unfoldable pub ask : Bool → Answers → Arrays → List (List ℕ) → Option Run
ask file w a sent = do
  (index, message) ← send_request a.request w.typed
  elim message [
    | none ↦ some (sent, request_failed)
    | some m ↦
        (let waited : Option Run = (do
          o ← request_response a.reply w.reply index file
          some (sent ++ (m ∷ []), answered o)) in
          if w.request_sent then waited else some (sent ++ (m ∷ []), request_failed))
  ]

-- From `credentials_response` on, which is called whether credentials were sent or not.
unfoldable pub enter : Bool → Answers → Arrays → List (List ℕ) → Option Run
enter file w a sent =
    let asked : Option Run = ask file w a sent in
    if credentials_response w.verdict == 0x00 then asked else some (sent, not_authenticated)

-- `main` from `handshake` on.
unfoldable pub greet : ClientUser → Bool → Answers → Arrays → Option Run
greet u file w a =
    let hello : List ℕ = handshake u in
    let response : ℕ = handshake_response w.method in
    let entered : Option Run = enter file w a (hello ∷ []) in
    let logging : Option Run = (do
      m ← send_credentials a.credentials u
      let next : Option Run = enter file w a (hello ∷ m ∷ [])
      if w.credentials_sent then next else some (hello ∷ m ∷ [], credentials_failed)) in
    if not w.handshake_sent
    then some (hello ∷ [], handshake_failed)
    else if response == 0xFF
    then some (hello ∷ [], no_method)
    else if response == 0x02
    then logging
    else entered

-- `main`.
unfoldable pub session : ClientUser → Bool → Answers → Arrays → Option Run
session u file w a =
    let greeted : Option Run = greet u file w a in
    if w.connected then greeted else some ([], not_connected)
