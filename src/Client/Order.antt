-- ===== src/Client/Order.antt =====
-- The order of the messages in `main` of src/client/client.c.
use proyecto_protos.Auth.Message as AuthMessage
use proyecto_protos.Client.{
  ClientUser, handshake, handshake_response, send_credentials, credentials_response, send_request,
}
use proyecto_protos.Client.Encode.{send_credentials_lem}
use proyecto_protos.Client.Reply.{Outcome, request_response}
use proyecto_protos.Client.Session.{
  Answers, Arrays, Run, credentials_failed, answered, ask, enter, greet, session,
}
use proyecto_protos.Prelude.{
  ℕ, ◌+◌, ◌<◌, ◌≡◌, ◌≢◌, refl, true, inl, inr, Bool-cases, ltb, ◌==◌, Option, none, some, List, [],
  ◌∷◌, length, ℤ, ap, ◌∙◌, Bool, ◌>>=◌, if◌then◌else◌, arith,
}

-- A run in which every send succeeds, the server chooses a name and a password, and grants them: the
-- messages are the hello, the credentials and the request, in this order, and the end is what the client
-- makes of the reply.
pub session_complete :
    (u : ClientUser) (file : Bool) (w : Answers) (a : Arrays) (name pass message : List ℕ)
    (index : ℤ) (o : Outcome)
    → length a.credentials ≡ 510
    → u.text ≡ some (record { name = name; pass = pass })
    → length name < 256
    → length pass < 256
    → length name + length pass < 507
    → w.connected ≡ true
    → w.handshake_sent ≡ true
    → handshake_response w.method ≡ 0x02
    → w.credentials_sent ≡ true
    → credentials_response w.verdict ≡ 0x00
    → send_request a.request w.typed ≡ some (index, some message)
    → w.request_sent ≡ true
    → request_response a.reply w.reply index file ≡ some o
    → session u file w a
      ≡ some (handshake u ∷ AuthMessage.encode name pass ∷ message ∷ [], answered o)
unfolding session greet enter ask
session_complete u file w a name pass message index o l e h k fits c1 c2 c3 c4 c5 c6 c7 c8 =
    let room : ltb (length name + length pass) 507 ≡ true = ground (arith, fits) in
    let sent : send_credentials a.credentials u ≡ some (AuthMessage.encode name pass) =
      send_credentials_lem a.credentials u name pass l e h k ∙ (rw room refl) in
    rw (c1, c2, c3, sent, c4, c5, c6, c7, c8) refl

enter_granted :
    (file : Bool) (w : Answers) (a : Arrays) (before sent : List (List ℕ)) (o : Outcome)
    → enter file w a before ≡ some (sent, answered o)
    → credentials_response w.verdict ≡ 0x00
unfolding enter
enter_granted file w a before sent o h =
    elim (Bool-cases (credentials_response w.verdict == 0x00)) [
      | inl granted ↦ ground (arith, granted)
      | inr other ↦ cc (rw other at h)
    ]

logging_granted :
    (file : Bool) (w : Answers) (a : Arrays) (hello : List ℕ) (creds : Option (List ℕ))
    (sent : List (List ℕ)) (o : Outcome)
    → (do
      m ← creds
      let next : Option Run = enter file w a (hello ∷ m ∷ [])
      if w.credentials_sent then next else some (hello ∷ m ∷ [], credentials_failed))
      ≡ some (sent, answered o)
    → credentials_response w.verdict ≡ 0x00
unfolding enter ask
logging_granted file w a hello none sent o h = cc
logging_granted file w a hello (some m) sent o h = elim (Bool-cases w.credentials_sent) [
  | inl taken ↦ enter_granted file w a (hello ∷ m ∷ []) sent o (rw taken at h)
  | inr lost ↦ cc (rw lost at h)
]

greet_granted :
    (u : ClientUser) (file : Bool) (w : Answers) (a : Arrays) (sent : List (List ℕ)) (o : Outcome)
    → greet u file w a ≡ some (sent, answered o)
    → (w.handshake_sent ≡ true)
      × (handshake_response w.method ≢ 0xFF)
      × (credentials_response w.verdict ≡ 0x00)
unfolding greet enter ask
greet_granted u file w a sent o h = elim (Bool-cases w.handshake_sent) [
  | inr lost ↦ cc (rw lost at h)
  | inl taken ↦ elim (Bool-cases (handshake_response w.method == 0xFF)) [
    | inl refused ↦ cc (rw (taken, refused) at h)
    | inr chosen ↦ (
      taken,
      (λ e. cc (chosen, ap (λ n. n == 0xFF) e)),
      elim (Bool-cases (handshake_response w.method == 0x02)) [
        | inl named ↦
            logging_granted file w a (handshake u) (send_credentials a.credentials u) sent o
              (rw (taken, chosen, named) at h)
        | inr plain ↦
            enter_granted file w a (handshake u ∷ []) sent o (rw (taken, chosen, plain) at h)
      ],
    )
  ]
]

-- If the client comes to a reply to a request, it was connected, its hello went out, the answer to that
-- was a method, and the next answer was that it is granted access, whatever the method.
pub granted_first :
    (u : ClientUser) (file : Bool) (w : Answers) (a : Arrays) (sent : List (List ℕ)) (o : Outcome)
    → session u file w a ≡ some (sent, answered o)
    → (w.connected ≡ true)
      × (w.handshake_sent ≡ true)
      × (handshake_response w.method ≢ 0xFF)
      × (credentials_response w.verdict ≡ 0x00)
unfolding session greet enter ask
granted_first u file w a sent o h = elim (Bool-cases w.connected) [
  | inl linked ↦
      (let (x, y, z) = greet_granted u file w a sent o (rw linked at h) in (linked, x, y, z))
  | inr lost ↦ cc (rw lost at h)
]
