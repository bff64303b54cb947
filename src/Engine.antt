-- ===== src/Engine.antt =====
-- core/src/msquic/engine.rs: the callback of a connection with the context that it shares, and
-- `MsQuicConnection::connect`. What MsQuic answers is an argument; SHA-1 in hexadecimal, as
-- `compute_thumbprint` writes it, is `sha1_hex`.
pub mod Events
pub mod Handles
mod Tests
use quiczilla.Prelude.{
  ℕ, ◌+◌, Bool, true, false, not, ◌&&◌, ◌||◌, Option, none, some, List, [], ◌∷◌, ◌++◌, Result, ok,
  err, leb, ◌==◌, if◌then◌else◌, any,
}
use quiczilla.Prelude.Bytes.{Bytes}
use quiczilla.Paths.{Text}
use quiczilla.Cert.{eq_ignore_ascii_case}

abbrev pub quic_status_success : ℕ
quic_status_success = 0

unfoldable pub is_quic_success_or_pending : ℕ → Bool
is_quic_success_or_pending status = (status == 0) || ((status == 0x703E5) || (status == 0xFFFFFFFE))

-- The messages of a shutdown, with the numbers that they show.
pub data Reason : Type 0 where
  tls_failure : (status code : ℕ) → Reason
  transport_failure : (status : ℕ) → Reason
  peer_rejected peer_shutdown : (code : ℕ) → Reason

-- `connect_tx` is there until it is taken; `answer` is what was sent on it.
pub record ConnectionContext : Type 0 where
  pub connect_tx : Bool
  pub answer : Option (Result Reason (Unit {0}))
  pub streams : List ℕ
  pub allowed_peer_thumbprints : List Text
  pub shutdown_reason : Option Reason

-- A certificate is its DER bytes behind a pointer that may be null.
pub data ConnectionEvent : Type 0 where
  connected : ConnectionEvent
  peer_certificate_received : Option Bytes → ConnectionEvent
  shutdown_initiated_by_transport : (status code : ℕ) → ConnectionEvent
  shutdown_initiated_by_peer : (code : ℕ) → ConnectionEvent
  peer_stream_started : (stream : ℕ) → ConnectionEvent
  other_event : ConnectionEvent

abbrev pub is_tls : ℕ → Bool
is_tls code = leb 0x0100 code && leb code 0x01FF

-- `ctx.connect_tx.take()`, and the send.
abbrev pub answer_connect : Result Reason (Unit {0}) → ConnectionContext → ConnectionContext
answer_connect result ctx = record ctx {
  connect_tx = false;
  answer = if ctx.connect_tx then some result else ctx.answer;
}

abbrev pub shut_down : Reason → ConnectionContext → ConnectionContext
shut_down reason ctx = answer_connect (err reason) (record ctx { shutdown_reason = some reason })

module _ (sha1_hex : Bytes → Text) (bad_certificate : ℕ) where
  abbrev pub transport_reason : (status code : ℕ) → Reason
  transport_reason status code =
      if is_tls code || (status == bad_certificate)
      then tls_failure status code
      else transport_failure status

  abbrev pub peer_reason : ℕ → Reason
  peer_reason code = if is_tls code then peer_rejected code else peer_shutdown code

  -- Without a list every certificate passes, also none.
  unfoldable pub check_certificate : List Text → Option Bytes → ℕ
  check_certificate [] certificate = quic_status_success
  check_certificate (t ∷ allowed) none = bad_certificate
  check_certificate (t ∷ allowed) (some der) =
      if any (λ expected. eq_ignore_ascii_case (sha1_hex der) expected) (t ∷ allowed)
      then quic_status_success
      else bad_certificate

  -- `api`: whether the library's table can be got.
  unfoldable pub connection_callback :
      (api : Bool) → ConnectionEvent → ConnectionContext → ℕ × ConnectionContext
  connection_callback api connected ctx = (quic_status_success, answer_connect (ok tt) ctx)
  connection_callback api (peer_certificate_received certificate) ctx =
      (check_certificate ctx.allowed_peer_thumbprints certificate, ctx)
  connection_callback api (shutdown_initiated_by_transport status code) ctx =
      (quic_status_success, shut_down (transport_reason status code) ctx)
  connection_callback api (shutdown_initiated_by_peer code) ctx =
      (quic_status_success, shut_down (peer_reason code) ctx)
  connection_callback api (peer_stream_started stream) ctx = (
    quic_status_success,
    if api then record ctx { streams = ctx.streams ++ (stream ∷ []) } else ctx,
  )
  connection_callback api other_event ctx = (quic_status_success, ctx)

-- What `connect` calls.
pub data Call : Type 0 where
  connection_open set_local_address connection_start connection_close : Call

pub data ConnectError : Type 0 where
  api_unavailable open_failed no_set_param bind_failed bad_host start_failed : ConnectError
  not_connected : Reason → ConnectError
  answer_lost : ConnectError

-- How the wait for the answer ends; `dropped`: the future is dropped meanwhile.
pub data Wait : Type 0 where
  answered : Result Reason (Unit {0}) → Wait
  lost dropped : Wait

-- The answers of the library. `local_bind`: whether there is a local address; `host_is_c_string`: the text
-- of the remote address has no zero byte.
pub record Answers : Type 0 where
  pub api : Bool
  pub open_status : ℕ
  pub local_bind : Bool
  pub set_param : Option ℕ
  pub host_is_c_string : Bool
  pub start_status : ℕ
  pub wait : Wait

-- The end of `connect`, where a future that is dropped has none.
pub data Connect : Type 0 where
  connection : Connect
  connect_error : ConnectError → Connect
  never : Connect

-- Leaving early drops the `PendingConnection`, which closes its handle.
abbrev pub close_pending : Connect → Connect × List Call
close_pending c = (c, connection_close ∷ [])

abbrev pub behind : Call → Connect × List Call → Connect × List Call
behind call (c, calls) = (c, call ∷ calls)

abbrev pub await_answer : Wait → Connect × List Call
await_answer (answered (ok u)) = (connection, [])
await_answer (answered (err reason)) = close_pending (connect_error (not_connected reason))
await_answer lost = close_pending (connect_error answer_lost)
await_answer dropped = close_pending never

abbrev pub start_connection : Answers → Connect × List Call
start_connection a =
    if a.host_is_c_string
    then behind connection_start (
        if is_quic_success_or_pending a.start_status
        then await_answer a.wait
        else close_pending (connect_error start_failed))
    else close_pending (connect_error bad_host)

abbrev pub bind_local : Option ℕ → Answers → Connect × List Call
bind_local none a = close_pending (connect_error no_set_param)
bind_local (some status) a =
    behind set_local_address
      (if status == 0 then start_connection a else close_pending (connect_error bind_failed))

unfoldable pub connect : Answers → Connect × List Call
connect a =
    if a.api
    then behind connection_open (
        if a.open_status == 0
        then (if a.local_bind then bind_local a.set_param a else start_connection a)
        else (connect_error open_failed, []))
    else (connect_error api_unavailable, [])
