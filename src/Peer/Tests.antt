-- ===== src/Peer/Tests.antt =====
-- A transfer between two peers, and the theorems at it.
use quiczilla.Prelude.{
  ◌≡◌, refl, true, false, none, some, List, [], ◌∷◌, ◌++◌, arith, if◌then◌else◌,
}
use quiczilla.Prelude.Bytes.{Bytes, codes}
use quiczilla.Paths.{Text, PathBuf, normal, components, file_name}
use quiczilla.Control.Text.{metadata, resume_ready, resume_ok}
use quiczilla.Peer.Disk.{Disk, compute_prefix_hash}
use quiczilla.Peer.Accept.{
  RecvTask, clean, handle_accept, dest_path_of, get_part_path, resume_fingerprint_size,
}
use quiczilla.Peer.Accept.Offsets.{OptionAll}
use quiczilla.Peer.Accept.Destination.{WritesTo, IsPending, handle_accept-inside, part_path-outside}
use quiczilla.Paths.Names.{IsName}
use quiczilla.Peer.Coordinator.{
  Coordinator, start_sending, start_receiving, Input, message, command, accept_file, run_loop,
  eq_hash,
}
use quiczilla.Peer.Coordinator.Offers.{run_loop-offer_accept}
use quiczilla.Peer.Coordinator.Resume.{StartsSound, run_loop-StartsSound, talk, talk-resume_ready}

abbrev empty_disk : Disk
empty_disk path = none

abbrev identity : Bytes → Bytes
identity bytes = bytes

abbrev idle : Disk → Coordinator
idle disk = record {
  disk = disk;
  pending_send_path = none;
  offered_file_name = none;
  offered_file_size = none;
  offered_resume = false;
  pending_accept = none;
  pending_resume_recv = none;
  current_part_path = none;
  paused = false;
  is_cancelled = false;
  stopped = false;
}

abbrev save_dir : Text
save_dir = codes "/in"

-- A hostile name.
abbrev offered : Text
offered = codes "../../etc/passwd"

handle_accept-inside_example :
    let a = handle_accept identity empty_disk save_dir true true offered 30000000 true none in
    let dir = components (clean save_dir) in
    IsName (codes "passwd")
    × OptionAll (WritesTo (dir ++ (normal (codes "passwd") ∷ []))) a.recv_file_trigger
    × IsPending (dir ++ (normal (codes "passwd") ∷ [])) none a.pending_resume_recv
    × OptionAll
        (λ p. p ≡ dir ++ (normal (codes "passwd" ++ codes ".quic-part") ∷ []))
        a.current_part_path
unfolding file_name components quiczilla.Paths.trim_matches quiczilla.Paths.trim_start
    quiczilla.Paths.is_control quiczilla.Paths.split_slash quiczilla.Paths.inner_components
handle_accept-inside_example =
    handle_accept-inside identity empty_disk save_dir true true offered (codes "passwd") 30000000
      true none refl

part_path-outside_example :
    (dest_path_of save_dir (codes "..") ≡ components (codes "/") ++ (normal (codes "in") ∷ []))
    × (get_part_path (dest_path_of save_dir (codes ".."))
        ≡ components (codes "/") ++ (normal (codes "in" ++ codes ".quic-part") ∷ []))
unfolding file_name components quiczilla.Paths.trim_matches quiczilla.Paths.trim_start
    quiczilla.Paths.is_control quiczilla.Paths.split_slash quiczilla.Paths.inner_components
part_path-outside_example =
    part_path-outside save_dir (codes "..") (codes "in") (components (codes "/")) refl refl

run_loop-offer_accept_example :
    run_loop identity
      (message (metadata (codes "a") 5 true true) ∷ command (accept_file save_dir true true) ∷ [])
      (idle empty_disk)
    ≡ run_loop identity
        (command (accept_file save_dir true true) ∷ message (metadata (codes "a") 5 true true) ∷ [])
        (idle empty_disk)
run_loop-offer_accept_example =
    run_loop-offer_accept identity (idle empty_disk) (codes "a") 5 true true save_dir true true refl
      refl refl

abbrev inputs : List Input
inputs =
    message (metadata (codes "a") 30000000 true true)
    ∷ command (accept_file save_dir true true)
    ∷ message resume_ok
    ∷ []

run_loop-StartsSound_example : StartsSound (run_loop identity inputs (idle empty_disk)).1
run_loop-StartsSound_example = run_loop-StartsSound identity inputs (idle empty_disk) tt

abbrev task : RecvTask
task = record {
  dest_path = components (codes "/in/a");
  file_size = 30000000;
  checksum = true;
  resume_offset = 2097152;
  use_part = true;
}

abbrev sender : Coordinator
sender = record (idle empty_disk) { pending_send_path = some (codes "/out/a", true, true) }

abbrev receiver : Coordinator
receiver = record (idle empty_disk) { pending_resume_recv = some task }

-- The sender cannot read the file, so that the fingerprints differ.
talk-resume_ready_example :
    talk identity 3 sender receiver (resume_ready 2097152 (some (7 ∷ [])) ∷ []) ≡ (
      let offset =
        if eq_hash
          (compute_prefix_hash identity empty_disk
            (components (codes "/out/a"))
            resume_fingerprint_size)
          (some (7 ∷ []))
        then 2097152
        else 0 in
      (
        start_sending (codes "/out/a") true offset ∷ [],
        start_receiving (record task { resume_offset = offset }) ∷ [],
      ))
talk-resume_ready_example =
    talk-resume_ready identity sender receiver task (codes "/out/a") true true (some (7 ∷ [])) 0
      refl refl (omega arith)
