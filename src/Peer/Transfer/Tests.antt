-- ===== src/Peer/Transfer/Tests.antt =====
-- A small file that is sent and received, and the theorems at it.
use quiczilla.Prelude.{
  ℕ, ◌≡◌, refl, ◌⊎◌, true, false, none, some, List, [], ◌∷◌, ◌++◌, arith, replicate,
}
use quiczilla.Prelude.Bytes.{Bytes, codes}
use quiczilla.Paths.{Text, normal}
use quiczilla.Peer.Disk.{Disk, file}
use quiczilla.Peer.Accept.{RecvTask}
use quiczilla.Peer.Signals.{Signals}
use quiczilla.Peer.Sending
use quiczilla.Peer.Sending.{Transfer}
use quiczilla.Peer.Sending.Sent.{announced, conclude-announced}
use quiczilla.Peer.Sending.Ends.{turns}
use quiczilla.Peer.Sending.Completes.{turns-announced}
use quiczilla.Peer.Receiving
use quiczilla.Peer.Receiving.{Receipt, ready}
use quiczilla.Peer.Receiving.Conclude.{conclude}
use quiczilla.Peer.Receiving.Whole.{IsReceived, conclude-IsReceived}
use quiczilla.Peer.Receiving.Untouched.{conclude-untouched}
use quiczilla.Peer.Transfer.{transfer-content}

abbrev identity : Bytes → Bytes
identity bytes = bytes

abbrev content : Bytes
content = codes "hello"

abbrev full_disk : Disk
full_disk path = some (file content)

abbrev empty_disk : Disk
empty_disk path = none

abbrev quiet : Signals
quiet = record { paused = false; unseen = false; is_closed = false; is_cancelled = false }

abbrev path : Text
path = codes "a"

-- The size cannot be had.
abbrev answers : Sending.SendAnswers
answers = record { os_error = []; has_metadata = false; rereads = true }

abbrev transfer : Transfer
transfer = Sending.opened identity answers (file content) true 0 quiet

-- A pause while the first chunk is on its way.
abbrev beginning : List Sending.Move
beginning =
    Sending.set_pause true
    ∷ Sending.read 2
    ∷ Sending.push
    ∷ Sending.take_chunk
    ∷ Sending.look_at_pause
    ∷ Sending.set_pause false
    ∷ []

abbrev sizes : List ℕ
sizes = replicate 50 2

conclude-announced_example :
    let t' = Sending.run identity (beginning ++ turns sizes) transfer in
    (Sending.conclude t' ≡ [])
    ⊎ ((Sending.conclude t' ≡ announced identity answers content true 0) × (t'.written ≡ content))
unfolding Sending.begin
conclude-announced_example =
    conclude-announced identity answers full_disk path true 0 quiet content transfer
      (beginning ++ turns sizes) refl refl

turns-announced_example :
    let t' = Sending.run identity (beginning ++ turns sizes) transfer in
    (Sending.conclude t' ≡ announced identity answers content true 0) × (t'.written ≡ content)
unfolding Sending.begin Sending.run Sending.step
turns-announced_example =
    turns-announced identity answers full_disk path true 0 quiet content transfer beginning sizes
      refl refl refl refl refl refl (omega arith)

abbrev task : RecvTask
task = record {
  dest_path = normal (codes "b") ∷ [];
  file_size = 5;
  checksum = true;
  resume_offset = 0;
  use_part = true;
}

abbrev receipt : Receipt
receipt = ready task [] quiet [] false

abbrev turn : List Receiving.Move
turn =
    Receiving.test_loop
    ∷ Receiving.look_at_pause
    ∷ Receiving.read 3
    ∷ Receiving.push true
    ∷ Receiving.store
    ∷ []

abbrev received : List Receiving.Move
received =
    (Receiving.arrive (codes "hell") ∷ turn)
    ++ (turn ++ (Receiving.arrive (codes "o") ∷ (turn ++ turn)))

conclude-IsReceived_example :
    IsReceived identity task []
      (codes "hello")
      true
      (some content)
      (conclude identity true (some content) empty_disk (Receiving.run identity received receipt))
unfolding Receiving.begin Receiving.run Receiving.step conclude quiczilla.Peer.Disk.create_dir_all
    Receiving.parent quiczilla.Peer.Receiving.Conclude.compare_hashes
    quiczilla.Peer.Receiving.Conclude.hash_ok quiczilla.Peer.Disk.rename
    quiczilla.Peer.Disk.write_at quiczilla.Peer.Accept.get_part_path quiczilla.Paths.file_name
    quiczilla.Paths.with_file_name
conclude-IsReceived_example =
    conclude-IsReceived identity 0 empty_disk empty_disk empty_disk task quiet [] false receipt
      received true (some content) refl (omega arith) refl

transfer-content_example :
    (conclude identity true
        (some content)
        empty_disk
        (Receiving.run identity received receipt)).disk
      task.dest_path
    ≡ some (file content)
unfolding Sending.begin Sending.run Sending.step Receiving.begin Receiving.run Receiving.step
    conclude quiczilla.Peer.Disk.create_dir_all Receiving.parent
    quiczilla.Peer.Receiving.Conclude.compare_hashes quiczilla.Peer.Receiving.Conclude.hash_ok
    quiczilla.Peer.Disk.rename quiczilla.Peer.Disk.write_at quiczilla.Peer.Accept.get_part_path
    quiczilla.Paths.file_name quiczilla.Paths.with_file_name
transfer-content_example =
    transfer-content identity answers full_disk path true quiet content transfer
      (beginning ++ turns sizes) 0 empty_disk empty_disk empty_disk task quiet [] false receipt
      received true (some content) refl refl refl refl (omega arith) (λ positive. refl) ([], refl)
      refl

-- The other peer has sent the hash of another file.
conclude-untouched_example :
    (conclude identity true
        (some (codes "other"))
        full_disk
        (Receiving.run identity received receipt)).disk
      task.dest_path
    ≡ some (file content)
unfolding Receiving.run Receiving.step conclude quiczilla.Peer.Receiving.Conclude.compare_hashes
    quiczilla.Peer.Receiving.Conclude.hash_ok quiczilla.Peer.Disk.rename
    quiczilla.Peer.Disk.write_at quiczilla.Peer.Accept.get_part_path quiczilla.Paths.file_name
    quiczilla.Paths.with_file_name
conclude-untouched_example =
    conclude-untouched identity true (some (codes "other")) full_disk
      (Receiving.run identity received receipt) refl refl
