-- ===== src/Lib.antt =====
-- quiczilla moves files and directories between two peers over QUIC. The core crate holds the
-- protocol: a control stream that carries framed text messages, the coordination loop that answers
-- them, the adapter between MsQuic's callbacks and tokio's streams, and a STUN client that finds the
-- peer's public address. The command line and the worker daemon drive it.
--
-- Prelude: lists, options and results over the native numbers, bytes, UTF-8 and exclusive or.
--
-- Control: core/src/types.rs and core/src/peer.rs. Control.Text is `ControlMessage` with `serialize`
-- and `parse`, over serde_json as a parameter whose hypothesis is that it reads back what it
-- writes; Control.Decimal is `u64::to_string` and `parse::<u64>`; Control.Frames is
-- `send_control_message` and `read_control_message`. A `str` is its UTF-8 bytes, and a stream is the
-- bytes that have still to arrive before its end. `read_messages` runs on fuel, one for each message
-- and one for the end.
--
-- Stun: core/src/stun.rs, the request's bytes and `parse_binding_response`, with every index and
-- slice checked so that a panic would show. The loop over the attributes runs on as much fuel as
-- the declared length. Stun.Encoding is the encoding of RFC 8489. Sockets are not modelled.
--
-- Stream: core/src/msquic/stream.rs, `StreamShared`, `msquic_stream_callback` and the polls. Each
-- runs under the mutex and is one step. Stream.Flow puts the steps in every order, and Stream.Sleep
-- tells which tasks sleep from a poll that is pending until their waker is woken. A waker is a
-- number, and what MsQuic answers is an argument. The `usize` that counts bytes in flight does not
-- wrap within the bound that is kept.
--
-- Paths: the part of std::path on Unix that handle_accept and the directory transfer use.
--
-- Peer: core/src/peer.rs. Peer.Disk is the files that the loop looks at; Peer.Accept is
-- `handle_accept` with `get_part_path` of core/src/types.rs; Peer.Coordinator is the loop of
-- `run_peer` with the variables it keeps, its handlers of messages and of commands, and the effects
-- that it sends on channels to the other tasks. One message or one command is one step. The text
-- of a message is parsed in Control. Peer.Sending and Peer.Receiving are the file send task and the
-- file receive task of `run_peer`: a disk side and a network side with a channel of 16 chunks
-- between them, whose steps a list of moves puts in any order, together with the pause, the token,
-- failures, and what arrives on the stream. A turn of a task is a fixed round of its steps, and the
-- number of turns that is asked for is the work that is left, at most eight for each byte.
-- Peer.Receiving.Conclude is the end with the hashes and the rename, and Peer.Receiving.Agreement says
-- when two hashes agree; what the system answers at the start of sending is `SendAnswers`; Peer.Transfer puts both tasks
-- at the ends of one stream. The file that is sent does not change meanwhile. Speeds, times,
-- logging and the liveness pings are not modelled. SHA-256 is a
-- parameter of which nothing is assumed. A read of the first bytes of a file fills the buffer or
-- reaches the end of the file.
--
-- Directory: core/src/directory.rs. Directory.Names is `validate_relative_path` and `safe_child`;
-- Directory.Wire the integers and paths on the stream; Directory.Ack the acknowledgement, with
-- `from_utf8_lossy` of the standard library as an argument;
-- Directory.Copy the loop that both sides copy a file with, whose reads have any size that a
-- parameter gives; Directory.Send `send_directory` on a tree of entries, with its stack of open
-- iterators; Directory.Disk the file system calls of the receiver, on a disk that tells for each
-- path what lies there, links included; Directory.Receive `receive_directory`, with
-- Directory.Receive.Delivery for one file of it from end to end. Directory.Action is
-- the monad of the receiver: the disk keeps what was done before an error. The walk's fuel is one
-- round for each entry and one for each directory, the copy's is the size of the file, and the
-- receiver's is one for each frame, which is a byte at least. Paths are taken below a base that no
-- link leads to. SHA-256 is a parameter.
--
-- In Control and Directory a text is its UTF-8 bytes, elsewhere its code points; where both
-- are ASCII they are the same.
--
-- Cert: core/src/cert.rs, `normalize_thumbprint` and `verify_client_cert`. Worker: worker/src/main.rs,
-- the arguments (Worker.Arguments, with Worker.Arguments.Settings for what they mean) and the
-- thumbprints that are allowed (Worker.Thumbprints). Cli: cli/src/main.rs, `classify_error_message`,
-- `has_feature`, `directory_storage_profile` and `shell_quote`;
-- Cli.Output is `OutputOptions::from_args`, whose parsers of ports and addresses are arguments, and
-- Cli.Output.Meaning what the arguments mean;
-- Cli.Quote is how a POSIX shell reads a
-- quoted word. Upper and lower case of Unicode, the SHA-1 of a certificate, the decoding of
-- hexadecimal and the parsing of socket addresses are parameters of which nothing is assumed.
--
-- Startup: core/src/server.rs, the pairing of the two streams of a session by their headers, and the choice of the mode in `handle_incoming_connection` of worker/src/main.rs,
-- whose events are handled in Worker.Offers. A stream is whatever `accept_stream` gives.
--
-- Engine: core/src/msquic/engine.rs, `connection_callback` on the context of a connection, for any
-- order of events, and `MsQuicConnection::connect` with the calls that it makes of the library. The
-- answers of MsQuic and the SHA-1 of a certificate are arguments.
--
-- Pipe: core/src/pipe.rs, the two tasks of `run_pipe` at the two ends of a stream, with the places that
-- they wait at, for any order of their steps, of errors and of cancellation. SHA-256 is an argument.
-- `turn` is one step of each kind, and the steps that remain are counted by `work`.
--
-- Not modelled: the rest of the MsQuic engine and its generated bindings, the rest of the certificates, of the
-- command line and of the worker, and core/src/peer_generic.rs, which repeats
-- core/src/peer.rs over other streams.
pub mod Prelude
pub mod Control
pub mod Stun
pub mod Stream
pub mod Paths
pub mod Peer
pub mod Directory
pub mod Cert
pub mod Worker
pub mod Cli
pub mod Startup
pub mod Engine
pub mod Pipe
