-- ===== src/Peer/Receiving/Whole.antt =====
-- Success of a receiver, from the start of its task on.
use quiczilla.Prelude.{
  ℕ, zero, suc, ◌+◌, ◌-◌, ◌≤◌, ◌≡◌, refl, sym, ap, ◌∙◌, Bool, true, false, ◌&&◌, ◌||◌, Option, none,
  some, List, [], ◌∷◌, ◌++◌, arith, length, length-append, take, take-append, if◌then◌else◌, ltb,
  ◌==◌, some_inj, drop-nil,
}
use mathlib.Core.List.{append-nil}
use quiczilla.Prelude.Bytes.{Bytes, codes}
use quiczilla.Peer.Disk.{Disk, Node, file, directory, write_at, create_dir_all}
use quiczilla.Peer.Accept.{RecvTask}
use quiczilla.Peer.Accept.Offsets.{OptionAll}
use quiczilla.Peer.Signals.{Signals, concat, digest, is_some}
use quiczilla.Peer.Receiving.{
  ended, finished, Receipt, Move, opened, ready, begin, begin_with, parent, target_write_path, run,
}
use mathlib.Core.Path.{subst}
use quiczilla.Peer.Receiving.Agreement.{Agrees, hash_ok-Agrees}
use quiczilla.Peer.Receiving.Conclude.{Outcome, placed, actual_hash, conclude}
use quiczilla.Peer.Receiving.Flow.{IsFlow, is_failed}
use quiczilla.Peer.Receiving.Flow.Steps.{run-IsFlow, ready-IsFlow, all_delivered}
use quiczilla.Peer.Receiving.Received.{
  says_ok, compare_hashes-there, compare_hashes-agree, conclude_with-ok, settings, run-settings,
}

some-none : {A : Type 0} {a : A} → none ≡ some a → ⊥
some-none e = cc

opened-truncated :
    (offset : ℕ) (node : Option Node) (base : Bytes)
    → opened offset node ≡ some base
    → offset ≡ 0
    → base ≡ []
opened-truncated offset none base e z = ground arith
opened-truncated offset (some (directory n)) base e z = absurd (ground arith)
opened-truncated offset (some (file b)) base e z = ground arith

begin_with-ready :
    (b : Bool) (o : Option Bytes) (made made' : Disk) (task : RecvTask) (signals : Signals)
    (incoming : Bytes) (is_finished : Bool) (r : Receipt)
    → begin_with b o made task signals incoming is_finished ≡ (made', some r)
    → (base : Bytes) × (o ≡ some base) × (r ≡ ready task base signals incoming is_finished)
begin_with-ready true (some base) made made' task signals incoming f r e =
    (base, refl, sym (some_inj (ap (λ (x : Disk × Option Receipt). x.1) e)))
begin_with-ready true none made made' task signals incoming f r e =
    absurd (some-none (ap (λ (x : Disk × Option Receipt). x.1) e))
begin_with-ready false o made made' task signals incoming f r e =
    absurd (some-none (ap (λ (x : Disk × Option Receipt). x.1) e))

pub begin-ready :
    (dir_len : ℕ) (disk made : Disk) (task : RecvTask) (signals : Signals) (incoming : Bytes)
    (is_finished : Bool) (r : Receipt)
    → begin dir_len disk task signals incoming is_finished ≡ (made, some r)
    → (base : Bytes) × (r ≡ ready task base signals incoming is_finished)
      × (task.resume_offset ≡ 0 → base ≡ [])
unfolding begin
begin-ready dir_len disk made task signals incoming f r e =
    let m = create_dir_all dir_len [] (parent task.dest_path) disk in
    let (base, found, same) =
      begin_with-ready m.1 (opened task.resume_offset (m.0 (target_write_path task))) m.0 made task
        signals incoming f r e in
    (base, same, opened-truncated task.resume_offset (m.0 (target_write_path task)) base found)

-- Writing from the start into an empty file.
write_at-start : (written : Bytes) → write_at 0 written [] ≡ written
unfolding write_at
write_at-start [] = refl
write_at-start (b ∷ written) =
    ap (λ z. b ∷ (written ++ z)) (drop-nil ℕ (0 + suc (length written)))
    ∙ ap (λ z. b ∷ z) (append-nil written)

ready_hasher :
    (task : RecvTask) (base : Bytes) (signals : Signals) (incoming : Bytes) (is_finished : Bool)
    → is_some (ready task base signals incoming is_finished).hasher
      ≡ (task.checksum && (task.resume_offset == 0))
ready_hasher task base signals incoming is_finished = ground arith

hasher_there :
    (r : Receipt) (task : RecvTask)
    → r.task ≡ task
    → is_some r.hasher ≡ (task.checksum && (task.resume_offset == 0))
    → is_some r.hasher ≡ (r.task.checksum && (r.task.resume_offset == 0))
hasher_there r task e h = h ∙ ap (λ (x : RecvTask). x.checksum && (x.resume_offset == 0)) (sym e)

module _ (sha256_hex : Bytes → Bytes) where
  -- The hash that a successful receiver compares: that of the file as it stands, where there is one.
  abbrev pub hash_of_file : RecvTask → (rereads : Bool) → Bytes → Bytes
  hash_of_file task rereads bytes =
      if task.checksum && ((task.resume_offset == 0) || rereads)
      then sha256_hex bytes
      else codes "NONE"

  compared :
      (checksum rereads : Bool) (offset : ℕ) (i stored base : Bytes) (hasher : Option Bytes)
      → (offset ≡ 0 → base ≡ [])
      → is_some hasher ≡ (checksum && (offset == 0))
      → OptionAll (λ h. h ≡ stored) hasher
      → i ≡ digest sha256_hex hasher
      → (if checksum && ltb 0 offset
          then (if rereads then sha256_hex (write_at offset stored base) else codes "NONE")
          else i)
        ≡ (if checksum && ((offset == 0) || rereads)
            then sha256_hex (write_at offset stored base)
            else codes "NONE")
  compared false rereads offset i stored base none b s h d = d
  compared false rereads offset i stored base (some a) b s h d = absurd (ground arith)
  compared true rereads zero i stored base none b s h d = absurd (ground arith)
  compared true rereads zero i stored base (some a) b s h d =
      d ∙ ap sha256_hex (h ∙ sym (ap (write_at 0 stored) (b refl) ∙ write_at-start stored))
  compared true rereads (suc offset) i stored base hasher b s h d = ground arith

  abbrev pub IsReceived :
      RecvTask → (base arrived : Bytes) → (rereads : Bool) → Option Bytes → Outcome → Type 0
  IsReceived task base arrived rereads expected o =
      let missing = task.file_size - task.resume_offset in
      let received = write_at task.resume_offset (take missing arrived) base in
      (missing ≤ length arrived)
      × (o.disk task.dest_path ≡ some (file received))
      × ((h : Bytes) × (expected ≡ some h) × Agrees h (hash_of_file task rereads received))

  -- The bytes that were stored, once both loops have ended well.
  all_stored :
      (r : Receipt) (arrived i : Bytes)
      → IsFlow sha256_hex arrived r
      → r.net ≡ ended true
      → r.disk_writer ≡ finished i
      → r.task.resume_offset ≤ r.task.file_size
      → (r.stored ≡ take (r.task.file_size - r.task.resume_offset) arrived)
        × (r.task.file_size - r.task.resume_offset ≤ length arrived)
  all_stored r arrived i h n w fits =
      let (empty, u, v) = h.drained i w in
      let whole : r.stored ++ r.incoming ≡ arrived =
        rw n at (rw empty at (h.order (ap is_failed w))) in
      let (enough, bound) = rw n at h.fits in
      let count : r.task.file_size - r.task.resume_offset ≡ length r.stored =
        omega (
          arith,
          h.count (ap is_failed w),
          enough,
          bound,
          fits,
          ap (λ z. length (concat z)) empty,
        ) in
      (
        sym (take-append _ r.stored r.incoming count) ∙ ap (take _) whole,
        omega (arith, count, ap length whole, length-append r.stored r.incoming),
      )

  ended-IsReceived :
      (r : Receipt) (arrived : Bytes) (disk : Disk) (rereads : Bool) (expected : Option Bytes)
      → IsFlow sha256_hex arrived r
      → (r.task.resume_offset ≡ 0 → r.base ≡ [])
      → is_some r.hasher ≡ (r.task.checksum && (r.task.resume_offset == 0))
      → r.task.resume_offset ≤ r.task.file_size
      → says_ok (conclude sha256_hex rereads expected disk r).effects ≡ true
      → IsReceived r.task r.base arrived rereads expected
          (conclude sha256_hex rereads expected disk r)
  unfolding conclude
  ended-IsReceived r arrived disk rereads expected h b k fits said =
      let (n, (i, w, (x, awaited, ok, same))) =
        conclude_with-ok sha256_hex r.net r.disk_writer rereads expected (placed disk r) r said in
      let (stored, enough) = all_stored r arrived i h n w fits in
      let hash = actual_hash sha256_hex rereads r i in
      let actual =
        compared r.task.checksum rereads r.task.resume_offset i r.stored r.base r.hasher b k
          (h.hashed (ap is_failed w)) (h.drained i w).2 in
      (
        enough,
        ap (λ (o : Outcome). o.disk r.task.dest_path) same
            ∙ compare_hashes-there sha256_hex r disk hash x ok
            ∙ ap (λ z. some (file (write_at r.task.resume_offset z r.base))) stored,
        (
          x,
          awaited,
          subst (Agrees x)
              (actual
                ∙ ap (λ z. hash_of_file r.task rereads (write_at r.task.resume_offset z r.base))
                    stored)
              (hash_ok-Agrees x hash (compare_hashes-agree sha256_hex r (placed disk r) hash x ok)),
        ),
      )

  IsReceived-path :
      {task task' : RecvTask} {base base' : Bytes} (arrived : Bytes) (rereads : Bool)
      (expected : Option Bytes) (o : Outcome)
      → task ≡ task'
      → base ≡ base'
      → IsReceived task base arrived rereads expected o
      → IsReceived task' base' arrived rereads expected o
  IsReceived-path arrived rereads expected o e f h = rw (sym e) (rw (sym f) h)

  -- A task that says that the file was received, whatever order of steps came before: the file was not
  -- longer than what arrived; the bytes that were missing, in the order of the stream, stand behind
  -- the offset in the file at the destination; and the expected hash had come, and it is NONE or SKIP,
  -- or the receiver has no hash of the file, or the two are the same up to the case of letters.
  pub conclude-IsReceived :
      (dir_len : ℕ) (disk made disk' : Disk) (task : RecvTask) (signals : Signals)
      (incoming : Bytes) (is_finished : Bool) (t : Receipt) (moves : List Move) (rereads : Bool)
      (expected : Option Bytes)
      → begin dir_len disk task signals incoming is_finished ≡ (made, some t)
      → task.resume_offset ≤ task.file_size
      → let o = conclude sha256_hex rereads expected disk' (run sha256_hex moves t) in
        says_ok o.effects ≡ true
        → IsReceived task t.base (incoming ++ all_delivered moves) rereads expected o
  conclude-IsReceived dir_len disk made disk' task signals incoming is_finished t moves rereads
        expected e fits said =
      let (base, started, truncated) =
        begin-ready dir_len disk made task signals incoming is_finished t e in
      let r = run sha256_hex moves t in
      let same : settings r
          ≡ (task, base, is_some (ready task base signals incoming is_finished).hasher) =
        run-settings sha256_hex moves t ∙ ap settings started in
      let same_task : r.task ≡ task = ap (λ (x : RecvTask × Bytes × Bool). x.0) same in
      let same_base : r.base ≡ base = ap (λ (x : RecvTask × Bytes × Bool). x.1) same in
      let flow =
        run-IsFlow sha256_hex moves incoming t
          (rw started (ready-IsFlow sha256_hex task base signals incoming is_finished)) in
      let opened_base : t.base ≡ base = ap (λ (x : Receipt). x.base) started in
      let offset : r.task.resume_offset ≡ task.resume_offset =
        ap (λ (x : RecvTask). x.resume_offset) same_task in
      IsReceived-path (incoming ++ all_delivered moves) rereads expected
        (conclude sha256_hex rereads expected disk' r) same_task (same_base ∙ sym opened_base)
        (ended-IsReceived r (incoming ++ all_delivered moves) disk' rereads expected flow
          (λ z. same_base ∙ truncated (sym offset ∙ z))
          (hasher_there r task same_task (
            ap (λ (x : RecvTask × Bytes × Bool). x.2) same
            ∙ ready_hasher task base signals incoming is_finished))
          (omega (arith, offset, ap (λ (x : RecvTask). x.file_size) same_task)) said)
