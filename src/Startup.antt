-- ===== src/Startup.antt =====
-- Pairing the streams of a session: core/src/server.rs, and `handle_incoming_connection` of
-- worker/src/main.rs up to the choice of the mode.
pub mod Pairing
mod Tests
use quiczilla.Prelude.{
  ℕ, ◌≡◌, Bool, true, false, not, ◌||◌, Option, none, some, List, [], ◌∷◌, Result, ok, err, ◌==◌,
  if◌then◌else◌,
}
use quiczilla.Paths.{Text}

abbrev pub control_stream_header : ℕ
control_stream_header = 0x01

abbrev pub file_stream_header : ℕ
file_stream_header = 0x02

abbrev pub pipe_stream_header : ℕ
pipe_stream_header = 0x03

abbrev pub directory_stream_header : ℕ
directory_stream_header = 0x04

-- What `accept_stream` gives: a stream, and its first byte if that can be read.
abbrev pub Accepted : Type 0 → Type 0
Accepted Stream = Option (Stream × Option ℕ)

-- The streams of a session that were found so far.
pub record Streams (Stream : Type 0) : Type 0 where
  pub control : Option Stream
  pub file : Option Stream

-- The end of `start_server`: with an error, with nothing to do, or with the peer.
pub data Served (Stream : Type 0) : Type 0 where
  stream_error no_pair : Served Stream
  serves : (control file : Stream) → Served Stream

-- What a connection of the worker becomes. `wrong_header` is its error.
pub data Session (Stream : Type 0) : Type 0 where
  nothing wrong_header : Session Stream
  receives_directory pipes : Stream → Session Stream
  runs_command : (command : Text) → Stream → Session Stream
  runs_peer : (control file : Stream) → Session Stream

module _ {Stream : Type 0} where
  abbrev pub no_streams : Streams Stream
  no_streams = record { control = none; file = none }

  -- A later stream with the same header replaces the earlier one.
  abbrev pub keep_stream : ℕ → Stream → Streams Stream → Streams Stream
  keep_stream header stream s =
      if header == control_stream_header
      then record s { control = some stream }
      else if header == file_stream_header
      then record s { file = some stream }
      else s

  -- The loop of `start_server`. A stream that ends before its header ends the server.
  pub accept_all : List (Accepted Stream) → Streams Stream → Option (Streams Stream)
  accept_all [] s = some s
  accept_all (none ∷ accepted) s = accept_all accepted s
  accept_all (some (stream, none) ∷ accepted) s = none
  accept_all (some (stream, some header) ∷ accepted) s =
      accept_all accepted (keep_stream header stream s)

  abbrev pub pair_of : Streams Stream → Option (Stream × Stream)
  pair_of s = elim s.control [
    | none ↦ none
    | some c ↦ elim s.file [ none ↦ none | some f ↦ some (c, f) ]
  ]

  unfoldable pub start_server : (first second : Accepted Stream) → Served Stream
  unfolding accept_all
  start_server first second = elim (accept_all (first ∷ second ∷ []) no_streams) [
    | none ↦ stream_error
    | some s ↦ elim (pair_of s) [ none ↦ no_pair | some (c, f) ↦ serves c f ]
  ]

  -- The second stream of a file transfer.
  abbrev pub accept_second : Accepted Stream → Streams Stream → Session Stream
  accept_second none s = nothing
  accept_second (some (stream, none)) s = nothing
  accept_second (some (stream, some header)) s = elim (pair_of (keep_stream header stream s)) [
    | none ↦ nothing
    | some (c, f) ↦ runs_peer c f
  ]

  abbrev pub serve :
      (is_pipe_mode is_directory_mode : Bool)
      → (exec_command : Option Text) → Stream
      → (header : ℕ) → Accepted Stream
      → Session Stream
  serve is_pipe_mode is_directory_mode exec_command stream header second =
      if (header == directory_stream_header) || is_directory_mode
      then (if header == directory_stream_header then receives_directory stream else wrong_header)
      else if (header == pipe_stream_header) || is_pipe_mode
      then elim exec_command [ none ↦ pipes stream | some command ↦ runs_command command stream ]
      else if (header == control_stream_header) || (header == file_stream_header)
      then accept_second second (keep_stream header stream no_streams)
      else nothing

  unfoldable pub handle_incoming_connection :
      (is_pipe_mode is_directory_mode : Bool)
      → (exec_command : Option Text) → (first second : Accepted Stream) → Session Stream
  handle_incoming_connection p d e none second = nothing
  handle_incoming_connection p d e (some (stream, none)) second = nothing
  handle_incoming_connection p d e (some (stream, some header)) second =
      serve p d e stream header second
