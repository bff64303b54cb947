-- ===== src/Startup/Pairing.antt =====
-- The server and the worker find the same two streams, in whatever order they come.
use quiczilla.Prelude.{◌↔◌, ◌≡◌, false, Option, none, some, arith}
use quiczilla.Paths.{Text}
use quiczilla.Startup.{Accepted, serves, start_server, runs_peer, handle_incoming_connection}

module _ {Stream : Type 0} where
  -- A worker that is in no other mode runs the peer over two accepted streams exactly if the server
  -- does, with the same control stream and the same file stream: whatever the headers are, whichever
  -- comes first, and whatever could not be accepted or read.
  pub handle_incoming_connection-start_server :
      (command : Option Text) (first second : Accepted Stream) (control file : Stream)
      → (handle_incoming_connection false false command first second ≡ runs_peer control file)
        ↔ (start_server first second ≡ serves control file)
  unfolding start_server handle_incoming_connection
  handle_incoming_connection-start_server command none none c f = ground arith
  handle_incoming_connection-start_server command none (some (t, none)) c f = ground arith
  handle_incoming_connection-start_server command none (some (t, some k)) c f = ground arith
  handle_incoming_connection-start_server command (some (s, none)) second c f = ground arith
  handle_incoming_connection-start_server command (some (s, some h)) none c f = ground arith
  handle_incoming_connection-start_server command (some (s, some h)) (some (t, none)) c f =
      ground arith
  handle_incoming_connection-start_server command (some (s, some h)) (some (t, some k)) c f =
      ground arith
