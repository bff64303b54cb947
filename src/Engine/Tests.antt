-- ===== src/Engine/Tests.antt =====
-- Concrete events and answers.
use quiczilla.Prelude.{◌+◌, ◌≡◌, ◌↔◌, refl, true, arith, none, some, List, [], ◌∷◌, ◌++◌, ok}
use quiczilla.Prelude.Bytes.{Bytes, codes}
use quiczilla.Paths.{Text}
use quiczilla.Cert.{verify_client_cert}
use quiczilla.Engine.{
  quic_status_success, ConnectionContext, ConnectionEvent, connected, peer_certificate_received,
  shutdown_initiated_by_peer, peer_stream_started, connection_callback, Answers, answered, connect,
}
use quiczilla.Engine.Events.{
  run, first_decision, started, run-first_decision, connection_callback-verify_client_cert,
}
use quiczilla.Engine.Handles.{opens, returned, closes, connect-closes}

abbrev identity : Bytes → Text
identity bytes = bytes

abbrev waiting : ConnectionContext
waiting = record {
  connect_tx = true;
  answer = none;
  streams = [];
  allowed_peer_thumbprints = codes "AB" ∷ [];
  shutdown_reason = none;
}

abbrev events : List ConnectionEvent
events = peer_stream_started 7 ∷ connected ∷ shutdown_initiated_by_peer 0x0101 ∷ []

run-first_decision_example :
    ((run identity 1 events waiting).answer ≡ first_decision identity 1 events)
    × ((run identity 1 events waiting).streams ≡ waiting.streams ++ started identity 1 events)
run-first_decision_example = run-first_decision identity 1 events waiting refl refl

connection_callback-verify_client_cert_example :
    ((connection_callback identity 1 true (peer_certificate_received (some (codes "ab"))) waiting).0
      ≡ quic_status_success)
    ↔ ((der : Bytes) × (some (codes "ab") ≡ some der)
        × (verify_client_cert waiting.allowed_peer_thumbprints (identity der) ≡ true))
connection_callback-verify_client_cert_example =
    connection_callback-verify_client_cert identity 1 true (some (codes "ab")) waiting
      (λ e. omega arith) (λ e. cc)

abbrev answers : Answers
answers = record {
  api = true;
  open_status = 0;
  local_bind = true;
  set_param = some 5;
  host_is_c_string = true;
  start_status = 0;
  wait = answered (ok tt);
}

connect-closes_example : opens answers ≡ returned (connect answers).0 + closes (connect answers).1
connect-closes_example = connect-closes answers
