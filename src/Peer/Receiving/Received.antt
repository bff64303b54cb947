-- ===== src/Peer/Receiving/Received.antt =====
-- What a receiver that reports success has received.
use quiczilla.Prelude.{
  ◌≡◌, refl, ap, ◌∙◌, Bool, true, false, Option, none, some, List, [], ◌∷◌, arith, if_holds,
}
use quiczilla.Prelude.Bytes.{Bytes, eq_bytes_iff}
use quiczilla.Paths.{
  Component, normal, root_dir, cur_dir, parent_dir, PathBuf, eq_component, eq_path,
}
use quiczilla.Control.Text.{received_file_ok}
use quiczilla.Peer.Disk.{Disk, Node, file, directory, rename, update, move}
use quiczilla.Peer.Accept.{RecvTask}
use quiczilla.Peer.Coordinator.{Effect, control}
use quiczilla.Peer.Signals.{is_some, update-is_some}
use quiczilla.Peer.Receiving.{
  Net, at_loop, at_pause, at_changed, at_read, at_send, ended, DiskWriter, at_recv, finished,
  writer_failed, Receipt, Move, contents, target_write_path, step, run, test_loop, look_at_pause,
  read, push, read_error, store, flush_error, store_error, on_push, on_store,
}
use quiczilla.Peer.Receiving.Conclude.{
  Outcome, hash_ok, placed, moved, compare_hashes, actual_hash, conclude_with,
}

eq_component_self : (c : Component) → eq_component c c ≡ true
eq_component_self root_dir = refl
eq_component_self cur_dir = refl
eq_component_self parent_dir = refl
eq_component_self (normal s) = (eq_bytes_iff s s).1 refl

pub eq_path_self : (p : PathBuf) → eq_path p p ≡ true
eq_path_self [] = refl
eq_path_self (c ∷ p) = ground (arith, eq_component_self c, eq_path_self p)

update-same : (disk : Disk) (p : PathBuf) (new : Option Node) → update disk p new p ≡ new
update-same disk p new = ground (arith, eq_path_self p)

-- The peer is told that the file was received.
abbrev pub says_ok : List Effect → Bool
says_ok [] = false
says_ok (control received_file_ok ∷ effects) = true
says_ok (e ∷ effects) = says_ok effects

target-whole : (task : RecvTask) → task.use_part ≡ false → target_write_path task ≡ task.dest_path
target-whole task e = ground arith

-- What no step changes: the task, the file as it was opened, and whether there is a hasher.
abbrev pub settings : Receipt → RecvTask × Bytes × Bool
settings r = (r.task, r.base, is_some r.hasher)

module _ (sha256_hex : Bytes → Bytes) where
  moved-there :
      (r : Receipt) (disk : Disk) (node : Option Node)
      → says_ok (moved r (move (target_write_path r.task) r.task.dest_path disk node)).effects
        ≡ true
      → (moved r (move (target_write_path r.task) r.task.dest_path disk node)).disk r.task.dest_path
        ≡ disk (target_write_path r.task)
  moved-there r disk (some (directory n)) e = absurd (ground arith)
  moved-there r disk none e =
      update-same (update disk (target_write_path r.task) none) r.task.dest_path _
  moved-there r disk (some (file b)) e =
      update-same (update disk (target_write_path r.task) none) r.task.dest_path _

  pub compare_hashes-there :
      (r : Receipt) (disk : Disk) (actual expected : Bytes)
      → says_ok (compare_hashes (placed disk r) r actual expected).effects ≡ true
      → (compare_hashes (placed disk r) r actual expected).disk r.task.dest_path
        ≡ some (file (contents r))
  unfolding compare_hashes rename
  compare_hashes-there r disk actual expected =
      if_holds There (hash_ok expected actual) _ _
        (λ same.
          if_holds There r.task.use_part _ _
            (λ part ok.
              moved-there r (placed disk r) (placed disk r r.task.dest_path) ok
              ∙ update-same disk (target_write_path r.task) _)
            (λ whole ok.
              ap (λ p. update disk p (some (file (contents r))) r.task.dest_path)
                (target-whole r.task whole)
              ∙ update-same disk r.task.dest_path _))
        (λ other ok. absurd (ground arith))
    where
      There : Outcome → Type 0
      There o = says_ok o.effects ≡ true → o.disk r.task.dest_path ≡ some (file (contents r))

  pub compare_hashes-agree :
      (r : Receipt) (disk : Disk) (actual expected : Bytes)
      → says_ok (compare_hashes disk r actual expected).effects ≡ true
      → hash_ok expected actual ≡ true
  unfolding compare_hashes
  compare_hashes-agree r disk actual expected =
      if_holds (λ (o : Outcome). says_ok o.effects ≡ true → hash_ok expected actual ≡ true)
        (hash_ok expected actual) _ _ (λ same ok. same) (λ other ok. absurd (ground arith))

  -- A task that says so has ended both loops, and has compared the hashes.
  pub conclude_with-ok :
      (net : Net) (w : DiskWriter) (rereads : Bool) (expected : Option Bytes) (disk : Disk)
      (r : Receipt)
      → says_ok (conclude_with sha256_hex net w rereads expected disk r).effects ≡ true
      → (net ≡ ended true)
        × ((i : Bytes) × (w ≡ finished i)
            × ((h : Bytes) × (expected ≡ some h)
                × (says_ok (compare_hashes disk r (actual_hash sha256_hex rereads r i) h).effects
                    ≡ true)
                × (conclude_with sha256_hex net w rereads expected disk r
                    ≡ compare_hashes disk r (actual_hash sha256_hex rereads r i) h)))
  conclude_with-ok (ended true) (finished i) rereads (some h) disk r e =
      (refl, (i, refl, (h, refl, e, refl)))
  conclude_with-ok (ended true) (finished i) rereads none disk r e = absurd (ground arith)
  conclude_with-ok (ended true) at_recv rereads expected disk r e = absurd (ground arith)
  conclude_with-ok (ended true) writer_failed rereads expected disk r e = absurd (ground arith)
  conclude_with-ok (ended false) w rereads expected disk r e = absurd (ground arith)
  conclude_with-ok at_loop w rereads expected disk r e = absurd (ground arith)
  conclude_with-ok at_pause w rereads expected disk r e = absurd (ground arith)
  conclude_with-ok at_changed w rereads expected disk r e = absurd (ground arith)
  conclude_with-ok at_read w rereads expected disk r e = absurd (ground arith)
  conclude_with-ok (at_send c) w rereads expected disk r e = absurd (ground arith)

  on_store-settings :
      (w : DiskWriter) (channel : List Bytes) (r : Receipt)
      → settings (on_store sha256_hex w channel r) ≡ settings r
  unfolding on_store
  on_store-settings at_recv [] r = ground arith
  on_store-settings at_recv (c ∷ channel) r = ground (arith, update-is_some r.hasher c)
  on_store-settings _ channel r = refl

  on_push-settings : (net : Net) (b : Bool) (r : Receipt) → settings (on_push net b r) ≡ settings r
  unfolding on_push
  on_push-settings (at_send c) b r = ground arith
  on_push-settings _ b r = refl

  step-settings : (m : Move) (r : Receipt) → settings (step sha256_hex m r) ≡ settings r
  unfolding step
  step-settings test_loop r = ground arith
  step-settings look_at_pause r = ground arith
  step-settings (read size) r = ground arith
  step-settings (push b) r = on_push-settings r.net b r
  step-settings read_error r = ground arith
  step-settings store r = on_store-settings r.disk_writer r.channel r
  step-settings (store_error k) r = ground arith
  step-settings flush_error r = ground arith
  step-settings _ r = refl

  pub run-settings :
      (moves : List Move) (r : Receipt) → settings (run sha256_hex moves r) ≡ settings r
  unfolding run
  run-settings [] r = refl
  run-settings (m ∷ moves) r = run-settings moves _ ∙ step-settings m r
