-- ===== src/Engine/Events.antt =====
-- Whatever events a connection sees: the answer to `connect`, the streams, and the reason of a shutdown.
use quiczilla.Prelude.{
  ◌↔◌, ℕ, ◌≡◌, ◌≢◌, refl, sym, ap, ◌∙◌, Bool, true, false, Option, none, some, List, [], ◌∷◌, ◌++◌,
  Result, ok, err, arith, if◌then◌else◌, some_inj,
}
use mathlib.Core.Option.{or_else}
use mathlib.Core.List.{append_assoc, append-nil}
use quiczilla.Prelude.Bytes.{Bytes}
use quiczilla.Paths.{Text}
use quiczilla.Cert.{verify_client_cert}
use quiczilla.Engine.{
  quic_status_success, Reason, ConnectionContext, ConnectionEvent, connected,
  peer_certificate_received, shutdown_initiated_by_transport, shutdown_initiated_by_peer,
  peer_stream_started, other_event, transport_reason, peer_reason, check_certificate,
  connection_callback,
}

decided_iff : (b : Bool) (x y : ℕ) → y ≢ x → ((if b then x else y) ≡ x) ↔ (b ≡ true)
decided_iff true x y h = ((λ e. refl), (λ e. refl))
decided_iff false x y h = ((λ e. absurd (h e)), (λ e. ground arith))

none-some : {A : Type 0} {a : A} → none ≡ some a → ⊥
none-some e = cc

module _ (sha1_hex : Bytes → Text) (bad_certificate : ℕ) where
  pub run : List ConnectionEvent → ConnectionContext → ConnectionContext
  run [] ctx = ctx
  run (e ∷ events) ctx = run events (connection_callback sha1_hex bad_certificate true e ctx).1

  -- The first event that decides a connection.
  abbrev pub decides : ConnectionEvent → Option (Result Reason (Unit {0}))
  decides connected = some (ok tt)
  decides (shutdown_initiated_by_transport status code) =
      some (err (transport_reason sha1_hex bad_certificate status code))
  decides (shutdown_initiated_by_peer code) = some (err (peer_reason sha1_hex bad_certificate code))
  decides _ = none

  abbrev pub first_decision : List ConnectionEvent → Option (Result Reason (Unit {0}))
  first_decision [] = none
  first_decision (e ∷ events) = or_else (decides e) (first_decision events)

  abbrev pub started : List ConnectionEvent → List ℕ
  started [] = []
  started (peer_stream_started stream ∷ events) = stream ∷ started events
  started (_ ∷ events) = started events

  abbrev after : ConnectionEvent → ConnectionContext → ConnectionContext
  after e ctx = (connection_callback sha1_hex bad_certificate true e ctx).1

  after-kept :
      (e : ConnectionEvent) (ctx : ConnectionContext)
      → ctx.connect_tx ≡ false
      → ((after e ctx).connect_tx ≡ false) × ((after e ctx).answer ≡ ctx.answer)
  unfolding connection_callback
  after-kept connected ctx h = (refl, ground (arith, h))
  after-kept (peer_certificate_received c) ctx h = (h, refl)
  after-kept (shutdown_initiated_by_transport status code) ctx h = (refl, ground (arith, h))
  after-kept (shutdown_initiated_by_peer code) ctx h = (refl, ground (arith, h))
  after-kept (peer_stream_started stream) ctx h = (h, refl)
  after-kept other_event ctx h = (h, refl)

  answer-kept :
      (events : List ConnectionEvent) (ctx : ConnectionContext)
      → ctx.connect_tx ≡ false
      → (run events ctx).answer ≡ ctx.answer
  unfolding run
  answer-kept [] ctx h = refl
  answer-kept (e ∷ events) ctx h =
      let (gone, same) = after-kept e ctx h in answer-kept events (after e ctx) gone ∙ same

  answer-first :
      (events : List ConnectionEvent) (ctx : ConnectionContext)
      → ctx.connect_tx ≡ true
      → ctx.answer ≡ none
      → (run events ctx).answer ≡ first_decision events
  unfolding run connection_callback or_else
  answer-first [] ctx h n = n
  answer-first (connected ∷ events) ctx h n =
      answer-kept events (after connected ctx) refl ∙ ground (arith, h)
  answer-first (peer_certificate_received c ∷ events) ctx h n = answer-first events ctx h n
  answer-first (shutdown_initiated_by_transport status code ∷ events) ctx h n =
      answer-kept events (after (shutdown_initiated_by_transport status code) ctx) refl
      ∙ ground (arith, h)
  answer-first (shutdown_initiated_by_peer code ∷ events) ctx h n =
      answer-kept events (after (shutdown_initiated_by_peer code) ctx) refl ∙ ground (arith, h)
  answer-first (peer_stream_started stream ∷ events) ctx h n =
      answer-first events (after (peer_stream_started stream) ctx) h n
  answer-first (other_event ∷ events) ctx h n = answer-first events ctx h n

  streams-started :
      (events : List ConnectionEvent) (ctx : ConnectionContext)
      → (run events ctx).streams ≡ ctx.streams ++ started events
  unfolding run connection_callback
  streams-started [] ctx = sym (append-nil ctx.streams)
  streams-started (connected ∷ events) ctx = streams-started events (after connected ctx)
  streams-started (peer_certificate_received c ∷ events) ctx = streams-started events ctx
  streams-started (shutdown_initiated_by_transport status code ∷ events) ctx =
      streams-started events (after (shutdown_initiated_by_transport status code) ctx)
  streams-started (shutdown_initiated_by_peer code ∷ events) ctx =
      streams-started events (after (shutdown_initiated_by_peer code) ctx)
  streams-started (peer_stream_started stream ∷ events) ctx =
      streams-started events (after (peer_stream_started stream) ctx)
      ∙ append_assoc ctx.streams (stream ∷ []) (started events)
  streams-started (other_event ∷ events) ctx = streams-started events ctx

  -- A connection that waits for its answer, under any events: the first event that connects it or shuts
  -- it down is the answer, and no later one changes it; the streams of the peer are accepted in the
  -- order in which they were started, and none is lost.
  pub run-first_decision :
      (events : List ConnectionEvent) (ctx : ConnectionContext)
      → ctx.connect_tx ≡ true
      → ctx.answer ≡ none
      → ((run events ctx).answer ≡ first_decision events)
        × ((run events ctx).streams ≡ ctx.streams ++ started events)
  run-first_decision events ctx h n = (answer-first events ctx h n, streams-started events ctx)

  check-verify :
      (certificate : Option Bytes) (allowed : List Text)
      → bad_certificate ≢ quic_status_success
      → allowed ≢ []
      → (check_certificate sha1_hex bad_certificate allowed certificate ≡ quic_status_success) ↔ (
          (der : Bytes) × (certificate ≡ some der)
          × (verify_client_cert allowed (sha1_hex der) ≡ true))
  unfolding check_certificate verify_client_cert
  check-verify certificate [] bad listed = absurd (listed refl)
  check-verify none (t ∷ allowed) bad listed =
      ((λ e. absurd (bad e)), (λ (der, e, v). absurd (none-some e)))
  check-verify (some der) (t ∷ allowed) bad listed =
      let p = λ (x : Bytes). verify_client_cert (t ∷ allowed) (sha1_hex x) in
      let iff = decided_iff (p der) quic_status_success bad_certificate bad in
      ((λ e. (der, refl, iff.0 e)), (λ (x, e, v). iff.1 (ap p (some_inj e) ∙ v)))

  -- With a list of allowed thumbprints that is not empty, the handshake accepts exactly a certificate
  -- that is there and that the TLS verifier of the other transport would accept by the same list.
  pub connection_callback-verify_client_cert :
      (api : Bool) (certificate : Option Bytes) (ctx : ConnectionContext)
      → bad_certificate ≢ quic_status_success
      → ctx.allowed_peer_thumbprints ≢ []
      → ((connection_callback sha1_hex bad_certificate api
            (peer_certificate_received certificate)
            ctx).0
          ≡ quic_status_success)
        ↔ ((der : Bytes) × (certificate ≡ some der)
            × (verify_client_cert ctx.allowed_peer_thumbprints (sha1_hex der) ≡ true))
  unfolding connection_callback
  connection_callback-verify_client_cert api certificate ctx bad listed =
      check-verify certificate ctx.allowed_peer_thumbprints bad listed
