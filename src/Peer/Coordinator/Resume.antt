-- ===== src/Peer/Coordinator/Resume.antt =====
-- Resuming: every offset that a receiver starts at is sound, and the two peers of a handshake start
-- at the same one.
use quiczilla.Prelude.{
  ℕ, zero, suc, ◌<◌, ◌≡◌, refl, ap, ◌∙◌, Bool, true, false, Option, none, some, List, [], ◌∷◌, ◌++◌,
  if◌then◌else◌, arith, Bool-cases, inl, inr,
}
use quiczilla.Prelude.Bytes.{Bytes}
use quiczilla.Paths.{Text, components}
use quiczilla.Control.Text.{
  ControlMessage, metadata, ready, resume_ready, resume_ok, restart_from_zero,
}
use quiczilla.Peer.Disk.{compute_prefix_hash}
use quiczilla.Peer.Accept.{RecvTask, resume_fingerprint_size}
use quiczilla.Peer.Accept.Offsets.{IsResumable, OptionAll, handle_accept-IsResumable}
use quiczilla.Peer.Coordinator.{
  Coordinator, Effect, start_receiving, emit, control, start_sending, expected_hash, PeerCommand,
  send_file, accept_file, before, create_if, eq_hash, Input, message, command, handle, run_loop,
  handle_message, handle_command, accept, on_metadata, on_accept, on_resume_ready, on_ready,
  on_restart, start_receiving_if,
}

-- Every task that the effects start is sound.
abbrev pub StartsSound : List Effect → Type 0
StartsSound [] = Unit
StartsSound (start_receiving t ∷ effects) = IsResumable t × StartsSound effects
StartsSound (emit e ∷ effects) = StartsSound effects
StartsSound (control m ∷ effects) = StartsSound effects
StartsSound (start_sending p c o ∷ effects) = StartsSound effects
StartsSound (expected_hash h ∷ effects) = StartsSound effects

abbrev HoldsSound : Coordinator → Type 0
HoldsSound s = OptionAll IsResumable s.pending_resume_recv

abbrev IsSound : Coordinator × List Effect → Type 0
IsSound (s, effects) = HoldsSound s × StartsSound effects

module _ (sha256_hex : Bytes → Bytes) where
  accept-IsSound :
      (s : Coordinator) (dir : Text) (checksum r : Bool) (name : Text) (size : ℕ)
      → HoldsSound s
      → IsSound (accept sha256_hex s dir checksum r name size)
  unfolding accept
  accept-IsSound s dir checksum r name size h = ground (
    arith,
    handle_accept-IsResumable sha256_hex s.disk dir checksum r name size s.offered_resume
        s.pending_resume_recv h,
  )

  on_metadata-IsSound :
      (p : Option (Text × Bool × Bool)) (s : Coordinator) (name : Text) (size : ℕ)
      → HoldsSound s
      → IsSound (on_metadata sha256_hex p s name size)
  unfolding on_metadata
  on_metadata-IsSound none s name size h = (h, tt)
  on_metadata-IsSound (some (dir, checksum, r)) s name size h =
      accept-IsSound _ dir checksum r name size h

  on_accept-IsSound :
      (o : Option Text) (n : Option ℕ) (s : Coordinator) (dir : Text) (checksum r : Bool)
      → HoldsSound s
      → IsSound (on_accept sha256_hex o n s dir checksum r)
  unfolding on_accept
  on_accept-IsSound (some name) (some size) s dir checksum r h =
      accept-IsSound _ dir checksum r name size h
  on_accept-IsSound (some name) none s dir checksum r h = (h, tt)
  on_accept-IsSound none n s dir checksum r h = (h, tt)

  handle_message-IsSound :
      (m : ControlMessage) (s : Coordinator)
      → HoldsSound s
      → IsSound (handle_message sha256_hex m s)
  unfolding handle_message
  handle_message-IsSound (metadata name size r c) s h =
      on_metadata-IsSound s.pending_accept (record s { offered_resume = r }) name size h
  handle_message-IsSound (resume_ready offset hash) s h = ground arith
  handle_message-IsSound ready s h = ground arith
  handle_message-IsSound resume_ok s h = ground arith
  handle_message-IsSound restart_from_zero s h = ground arith
  handle_message-IsSound _ s h = (h, tt)

  handle_command-IsSound :
      (c : PeerCommand) (s : Coordinator) → HoldsSound s → IsSound (handle_command sha256_hex c s)
  unfolding handle_command
  handle_command-IsSound (send_file path checksum r) s h = ground arith
  handle_command-IsSound (accept_file dir checksum r) s h =
      on_accept-IsSound s.offered_file_name s.offered_file_size s dir checksum r h
  handle_command-IsSound _ s h = (h, tt)

  StartsSound-append :
      (xs ys : List Effect) → StartsSound xs → StartsSound ys → StartsSound (xs ++ ys)
  StartsSound-append [] ys h k = k
  StartsSound-append (start_receiving t ∷ xs) ys h k = (h.0, StartsSound-append xs ys h.1 k)
  StartsSound-append (emit _ ∷ xs) ys h k = StartsSound-append xs ys h k
  StartsSound-append (control _ ∷ xs) ys h k = StartsSound-append xs ys h k
  StartsSound-append (start_sending _ _ _ ∷ xs) ys h k = StartsSound-append xs ys h k
  StartsSound-append (expected_hash _ ∷ xs) ys h k = StartsSound-append xs ys h k

  StartsSound-if :
      (b : Bool) (s : Coordinator) (p : Coordinator × List Effect)
      → StartsSound p.1
      → StartsSound (if b then (s, []) else p).1
  StartsSound-if true s p h = tt
  StartsSound-if false s p h = h

  handle-IsSound : (i : Input) (s : Coordinator) → HoldsSound s → IsSound (handle sha256_hex i s)
  unfolding handle
  handle-IsSound (message m) s h = handle_message-IsSound m s h
  handle-IsSound (command c) s h = handle_command-IsSound c s h

  -- Whatever messages and commands arrive, every task that the loop starts has an offset within its
  -- file, and one that writes a part file starts at a whole number of chunks.
  pub run_loop-StartsSound :
      (inputs : List Input) (s : Coordinator)
      → OptionAll IsResumable s.pending_resume_recv
      → StartsSound (run_loop sha256_hex inputs s).1
  unfolding run_loop
  run_loop-StartsSound [] s h = tt
  run_loop-StartsSound (i ∷ inputs) s h =
      let (h', e) = handle-IsSound i s h in
      StartsSound-if s.stopped s _ (
        StartsSound-append (handle sha256_hex i s).1 _ e
          (run_loop-StartsSound inputs (handle sha256_hex i s).0 h'))

-- The control messages among the effects of one peer, which the other receives in their order.
abbrev pub controls : List Effect → List ControlMessage
controls [] = []
controls (control m ∷ effects) = m ∷ controls effects
controls (emit _ ∷ effects) = controls effects
controls (start_receiving _ ∷ effects) = controls effects
controls (start_sending _ _ _ ∷ effects) = controls effects
controls (expected_hash _ ∷ effects) = controls effects

-- The starts of tasks among them.
abbrev pub starts : List Effect → List Effect
starts [] = []
starts (start_receiving t ∷ effects) = start_receiving t ∷ starts effects
starts (start_sending p c o ∷ effects) = start_sending p c o ∷ starts effects
starts (emit _ ∷ effects) = starts effects
starts (control _ ∷ effects) = starts effects
starts (expected_hash _ ∷ effects) = starts effects

module _ (sha256_hex : Bytes → Bytes) where
  pub handle_messages : List ControlMessage → Coordinator → Coordinator × List Effect
  handle_messages [] s = (s, [])
  handle_messages (m ∷ ms) s =
      let (s', effects) = handle_message sha256_hex m s in before effects (handle_messages ms s')

  -- Two peers in turn, `ms` first to `a`, for a number of turns: the starts of `a` and of `b`.
  pub talk : ℕ → Coordinator → Coordinator → List ControlMessage → List Effect × List Effect
  unfolding handle_messages
  talk zero a b ms = ([], [])
  talk (suc n) a b ms =
      let (a', effects) = handle_messages ms a in
      let (of_b, of_a) = talk n b a' (controls effects) in (starts effects ++ of_a, of_b)

  talk-nil : (n : ℕ) (a b : Coordinator) → talk n a b [] ≡ ([], [])
  unfolding talk
  talk-nil zero a b = refl
  talk-nil (suc n) a b = rw (talk-nil n b a)

  abbrev agrees : Coordinator → Text → Option Bytes → Bool
  agrees s path hash =
      eq_hash (compute_prefix_hash sha256_hex s.disk (components path) resume_fingerprint_size) hash

  module _ (s : Coordinator) (path : Text) (checksum resumable : Bool)
      (pending : s.pending_send_path ≡ some (path, checksum, resumable)) where
    sender_resumes :
        (offset : ℕ) (hash : Option Bytes)
        → 0 < offset
        → agrees s path hash ≡ true
        → handle_message sha256_hex (resume_ready offset hash) s ≡ (
          record s { pending_send_path = none },
          control resume_ok ∷ start_sending path checksum offset ∷ [],
        )
    unfolding handle_message
    sender_resumes offset hash h same =
        ap (λ o. on_resume_ready sha256_hex o s offset hash) pending ∙ ground arith

    sender_restarts :
        (offset : ℕ) (hash : Option Bytes)
        → 0 < offset
        → agrees s path hash ≡ false
        → handle_message sha256_hex (resume_ready offset hash) s ≡ (
          record s { pending_send_path = some (path, checksum, false) },
          control restart_from_zero ∷ [],
        )
    unfolding handle_message
    sender_restarts offset hash h other =
        ap (λ o. on_resume_ready sha256_hex o s offset hash) pending ∙ ground arith

  module _ (s : Coordinator) (task : RecvTask) (pending : s.pending_resume_recv ≡ some task) where
    receiver_resumes :
        handle_message sha256_hex resume_ok s
        ≡ (record s { pending_resume_recv = none }, start_receiving task ∷ [])
    unfolding handle_message
    receiver_resumes =
        ap (λ o. (record s { pending_resume_recv = none }, start_receiving_if o)) pending

    receiver_restarts : handle_message sha256_hex restart_from_zero s ≡ (
      record s { disk = create_if s.current_part_path s.disk; pending_resume_recv = none },
      start_receiving (record task { resume_offset = 0 }) ∷ control ready ∷ [],
    )
    unfolding handle_message
    receiver_restarts = ap (λ o. on_restart sha256_hex o s) pending

  sender_ready :
      (s : Coordinator) (path : Text) (checksum resumable : Bool)
      → s.pending_send_path ≡ some (path, checksum, resumable)
      → handle_message sha256_hex ready s
        ≡ (record s { pending_send_path = none }, start_sending path checksum 0 ∷ [])
  unfolding handle_message
  sender_ready s path checksum resumable pending = ap (λ o. on_ready sha256_hex o s) pending

  -- A receiver that asks for a positive offset and a sender with a pending file start, on whatever disks,
  -- at the same offset: the one asked for if the fingerprints agree, else zero.
  pub talk-resume_ready :
      (sender receiver : Coordinator) (task : RecvTask) (path : Text) (checksum resumable : Bool)
      (hash : Option Bytes) (more : ℕ)
      → sender.pending_send_path ≡ some (path, checksum, resumable)
      → receiver.pending_resume_recv ≡ some task
      → 0 < task.resume_offset
      → talk (suc (suc (suc more))) sender receiver (resume_ready task.resume_offset hash ∷ []) ≡ (
          let offset =
            if eq_hash
              (compute_prefix_hash sha256_hex sender.disk (components path) resume_fingerprint_size)
              hash
            then task.resume_offset
            else 0 in
          (
            start_sending path checksum offset ∷ [],
            start_receiving (record task { resume_offset = offset }) ∷ [],
          ))
  unfolding talk
  talk-resume_ready sender receiver task path checksum resumable hash more p q h =
      elim (Bool-cases (agrees sender path hash)) [
        | inl same ↦
            rw (sender_resumes sender path checksum resumable p task.resume_offset hash h same) (
              rw (receiver_resumes receiver task q) (
                rw
                  (talk-nil more (record receiver { pending_resume_recv = none })
                    (record sender { pending_send_path = none }))
                  (rw same)))
        | inr other ↦
            let waiting = record sender { pending_send_path = some (path, checksum, false) } in
            rw (sender_restarts sender path checksum resumable p task.resume_offset hash h other) (
              rw (receiver_restarts receiver task q)
                (rw (sender_ready waiting path checksum false refl) (rw talk-nil (rw other))))
      ]
