-- ===== src/Startup/Tests.antt =====
-- Streams by number, and the theorems at them.
use quiczilla.Prelude.{◌↔◌, ℕ, ◌≡◌, false, none, some}
use quiczilla.Startup.{serves, start_server, runs_peer, handle_incoming_connection}
use quiczilla.Startup.Pairing.{handle_incoming_connection-start_server}

abbrev first : ℕ
first = 7

abbrev second : ℕ
second = 8

handle_incoming_connection-start_server_example :
    (handle_incoming_connection false false none (some (first, some 2)) (some (second, some 1))
      ≡ runs_peer second first)
    ↔ (start_server (some (first, some 2)) (some (second, some 1)) ≡ serves second first)
handle_incoming_connection-start_server_example =
    handle_incoming_connection-start_server none (some (first, some 2)) (some (second, some 1))
      second first
