-- ===== src/Pipe/Completes.antt =====
-- A pipe none of whose reads and writes fails comes to its end.
use quiczilla.Prelude.{
  inl, inr, ℕ, suc, ◌+◌, ◌*◌, ◌≤◌, ◌<◌, ◌≡◌, refl, ap, ◌∙◌, Bool, true, false, Option, none, some,
  List, [], ◌∷◌, ◌++◌, arith, length, if◌then◌else◌, ◌==◌, Bool-cases,
}
use quiczilla.Prelude.Bytes.{Bytes}
use quiczilla.Pipe.{
  Place, at_select, at_write, behind_loop, closed, Sender, Receiver, Pipe, Move, read, write_chunk,
  shutdown, recv, store, flush, start, step, run, PipeResult, run_pipe, digest,
}
use quiczilla.Pipe.Parts.{are_clean, is_over, fed, IsWhole, start-IsWhole}
use quiczilla.Pipe.Whole.{run-IsWhole, HasArrived, IsWhole-HasArrived}
use quiczilla.Pipe.Work.{
  rank, work, read-work, write-work, shutdown-work, recv-work, store-work, flush-work, read_idle,
  write_idle, shutdown_idle, recv_idle, store_idle, run_le,
}

-- One step of each kind, in the order in which a chunk passes the pipe.
abbrev pub turn : ℕ → ℕ → List Move
turn size size' = read size ∷ write_chunk ∷ shutdown true ∷ recv size' ∷ store ∷ flush ∷ []

abbrev pub turns : List (ℕ × ℕ) → List Move
turns [] = []
turns (sizes ∷ rest) = turn sizes.0 sizes.1 ++ turns rest

run-less :
    (m : Move) (rest : List Move) (p : Pipe)
    → are_clean rest ≡ true
    → work (step m p) < work p
    → work (run (m ∷ rest) p) < work p
unfolding run
run-less m rest p e h = omega (arith, run_le rest (step m p) e)

run-idle :
    (m : Move) (rest : List Move) (p : Pipe)
    → step m p ≡ p
    → work (run rest p) < work p
    → work (run (m ∷ rest) p) < work p
unfolding run
run-idle m rest p e h =
    let same : work (run rest (step m p)) ≡ work (run rest p) = ap (λ q. work (run rest q)) e in
    omega (arith, same, h)

-- The receiver's part of a turn, once the end of the stream is sent.
receives-less :
    (place : Place) (size : ℕ) (p : Pipe)
    → p.receiver.place ≡ place
    → p.fin ≡ true
    → ¬ (place ≡ closed)
    → work (run (recv size ∷ store ∷ flush ∷ []) p) < work p
receives-less at_select size p e f h =
    run-less (recv size) (store ∷ flush ∷ []) p refl (recv-work size p f e)
receives-less (at_write chunk) size p e f h =
    run-idle (recv size) (store ∷ flush ∷ []) p (recv_idle p (at_write chunk) size e refl)
      (run-less store (flush ∷ []) p refl (store-work chunk p e))
receives-less behind_loop size p e f h =
    run-idle (recv size) (store ∷ flush ∷ []) p (recv_idle p behind_loop size e refl) (
      run-idle store (flush ∷ []) p (store_idle p behind_loop e refl)
        (run-less flush [] p refl (flush-work p e)))
receives-less closed size p e f h = absurd (h refl)

-- A turn does something, unless both tasks have ended.
turn-less :
    (place : Place) (size size' : ℕ) (p : Pipe)
    → p.sender.place ≡ place
    → (place ≡ closed → (p.fin ≡ true) × ¬ (p.receiver.place ≡ closed))
    → work (run (turn size size') p) < work p
turn-less at_select size size' p e h =
    run-less (read size) (write_chunk ∷ shutdown true ∷ recv size' ∷ store ∷ flush ∷ []) p refl
      (read-work size p e)
turn-less (at_write chunk) size size' p e h =
    run-idle (read size) _ p (read_idle p (at_write chunk) size e refl) (
      run-less write_chunk (shutdown true ∷ recv size' ∷ store ∷ flush ∷ []) p refl
        (write-work chunk p e))
turn-less behind_loop size size' p e h =
    run-idle (read size) _ p (read_idle p behind_loop size e refl) (
      run-idle write_chunk _ p (write_idle p behind_loop e refl)
        (run-less (shutdown true) (recv size' ∷ store ∷ flush ∷ []) p refl (shutdown-work p e)))
turn-less closed size size' p e h =
    let (f, g) = h refl in
    run-idle (read size) _ p (read_idle p closed size e refl) (
      run-idle write_chunk _ p (write_idle p closed e refl) (
        run-idle (shutdown true) _ p (shutdown_idle p closed e refl)
          (receives-less p.receiver.place size' p refl f g)))

run-append : (xs ys : List Move) (p : Pipe) → run (xs ++ ys) p ≡ run ys (run xs p)
unfolding run
run-append [] ys p = refl
run-append (x ∷ xs) ys p = run-append xs ys (step x p)

rank-closed : (place : Place) → rank place ≡ 0 → place ≡ closed
rank-closed at_select e = absurd (omega arith)
rank-closed (at_write chunk) e = absurd (omega arith)
rank-closed behind_loop e = absurd (omega arith)
rank-closed closed e = refl

-- What a process reports that has sent `a` and received `b`.
abbrev pub results : (Bytes → Bytes) → (compute_hash : Bool) → Bytes → Bytes → PipeResult
results sha256_hex compute_hash a b = record {
  bytes_sent = length a;
  bytes_received = length b;
  sent_hash = if compute_hash then some (sha256_hex a) else none;
  received_hash = if compute_hash then some (sha256_hex b) else none;
}

PipeResult-path :
    {n n' m m' : ℕ} {h h' k k' : Option Bytes}
    → n ≡ n'
    → m ≡ m'
    → h ≡ h'
    → k ≡ k'
    → ◌≡◌ {A = PipeResult}
        (record { bytes_sent = n; bytes_received = m; sent_hash = h; received_hash = k })
        (record { bytes_sent = n'; bytes_received = m'; sent_hash = h'; received_hash = k' })
PipeResult-path e f g h = cc

digest-fed :
    (sha256_hex : Bytes → Bytes) (compute_hash : Bool) (a : Bytes)
    → digest sha256_hex (fed compute_hash a) ≡ (if compute_hash then some (sha256_hex a) else none)
digest-fed sha256_hex true a = refl
digest-fed sha256_hex false a = refl

run_pipe-results :
    (sha256_hex : Bytes → Bytes) (compute_hash : Bool) (a b : Bytes) (s : Sender) (r : Receiver)
    → s.place ≡ closed
    → r.place ≡ closed
    → s.bytes_sent ≡ length a
    → r.bytes_received ≡ length b
    → s.hasher ≡ fed compute_hash a
    → r.hasher ≡ fed compute_hash b
    → run_pipe sha256_hex s r ≡ some (results sha256_hex compute_hash a b)
run_pipe-results sha256_hex compute_hash a b s r e f g h i j =
    rw (e, f)
      (ap some (
        PipeResult-path g h (ap (digest sha256_hex) i ∙ digest-fed sha256_hex compute_hash a)
          (ap (digest sha256_hex) j ∙ digest-fed sha256_hex compute_hash b)))

module _ (b c : Bool) (input : Bytes) where
  work-zero :
      (p : Pipe)
      → IsWhole b c input p
      → p.sender.place ≡ closed
      → p.receiver.place ≡ closed
      → work p ≡ 0
  work-zero p h e f =
      let unread : p.sender.unread ≡ [] = h.sends.ended (ap is_over e) in
      let in_flight : p.in_flight ≡ [] = (h.receives.ended (ap is_over f)).0 in
      rw (unread, in_flight, e, f) (omega arith)

  turn_le :
      (n size size' : ℕ) (p : Pipe)
      → IsWhole b c input p
      → work p ≤ suc n
      → work (run (turn size size') p) ≤ n
  turn_le n size size' p h k = elim (Bool-cases (work p == 0)) [
    | inl e ↦ ground (arith, e, run_le (turn size size') p refl)
    | inr e ↦ omega (
      arith,
      k,
      turn-less p.sender.place size size' p refl
          (λ q. (h.sends.finished q, λ r. ground (arith, e, work-zero p h q r))),
    )
  ]

  turns-closed :
      (sizes : List (ℕ × ℕ)) (p : Pipe)
      → IsWhole b c input p
      → work p ≤ length sizes
      → let q = run (turns sizes) p in (q.sender.place ≡ closed) × (q.receiver.place ≡ closed)
  unfolding run
  turns-closed [] p h k =
      (rank-closed p.sender.place (omega arith), rank-closed p.receiver.place (omega arith))
  turns-closed (s ∷ sizes) p h k =
      turns-closed sizes (run (turn s.0 s.1) p) (run-IsWhole b c input (turn s.0 s.1) p refl h)
        (turn_le (length sizes) s.0 s.1 p h k)

  are_clean-turns : (sizes : List (ℕ × ℕ)) → are_clean (turns sizes) ≡ true
  are_clean-turns [] = refl
  are_clean-turns (s ∷ sizes) = are_clean-turns sizes

  -- Any steps without an error or a cancellation, and then enough turns, whatever the sizes of the
  -- reads: both tasks have ended, and the input has arrived.
  turns-HasArrived :
      (moves : List Move) (sizes : List (ℕ × ℕ))
      → are_clean moves ≡ true
      → 6 * length input + 4 ≤ length sizes
      → let p = run (moves ++ turns sizes) (start (some input) true b c) in
        ((p.sender.place ≡ closed) × (p.receiver.place ≡ closed)) × HasArrived b c input p
  turns-HasArrived moves sizes clean enough =
      let begun = start (some input) true b c in
      let h = run-IsWhole b c input moves begun clean (start-IsWhole input b c) in
      let ends = turns-closed sizes (run moves begun) h (omega (arith, run_le moves begun clean)) in
      rw (run-append moves (turns sizes) begun) (
        ends,
        IsWhole-HasArrived b c input (run (turns sizes) (run moves begun)) ends.0 ends.1
            (run-IsWhole b c input (turns sizes) (run moves begun) (are_clean-turns sizes) h),
      )

-- Two processes that pipe `a` one way and `b` the other, each direction with any steps without an
-- error or a cancellation and then enough turns: `run_pipe` ends in both, what either flushes to its
-- output is the input of the other, and of each direction both report the number of its bytes, and
-- each the hash of its bytes if it was to compute one.
pub turns-results :
    (sha256_hex : Bytes → Bytes) (a b : Bytes) (compute_a compute_b : Bool)
    (moves moves' : List Move) (sizes sizes' : List (ℕ × ℕ))
    → are_clean moves ≡ true
    → are_clean moves' ≡ true
    → 6 * length a + 4 ≤ length sizes
    → 6 * length b + 4 ≤ length sizes'
    → let p = run (moves ++ turns sizes) (start (some a) true compute_a compute_b) in
      let q = run (moves' ++ turns sizes') (start (some b) true compute_b compute_a) in
      ((p.receiver.flushed ≡ a) × (q.receiver.flushed ≡ b))
      × ((run_pipe sha256_hex p.sender q.receiver ≡ some (results sha256_hex compute_a a b))
          × (run_pipe sha256_hex q.sender p.receiver ≡ some (results sha256_hex compute_b b a)))
turns-results sha256_hex a b compute_a compute_b moves moves' sizes sizes' h k m n =
    let (e, f) = turns-HasArrived compute_a compute_b a moves sizes h m in
    let (e', f') = turns-HasArrived compute_b compute_a b moves' sizes' k n in
    (
      (f.saved, f'.saved),
      (
        run_pipe-results sha256_hex compute_a a b _ _ e.0 e'.1 f.sent f'.received f.sent_hash
            f'.received_hash,
        run_pipe-results sha256_hex compute_b b a _ _ e'.0 e.1 f'.sent f.received f'.sent_hash
            f.received_hash,
      ),
    )
