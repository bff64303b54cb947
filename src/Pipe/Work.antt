-- ===== src/Pipe/Work.antt =====
-- What a pipe has left to do, and how its steps lessen it.
use quiczilla.Prelude.{
  inl, inr, ℕ, ◌+◌, ◌*◌, ◌≤◌, ◌<◌, ◌≡◌, refl, Bool, true, false, ◌||◌, List, [], ◌∷◌, arith, length,
  take, drop, if_holds, ◌==◌, length-append, length-take, length-drop, Bool-cases,
}
use quiczilla.Prelude.Bytes.{Bytes}
use quiczilla.Pipe.{
  Place, at_select, at_write, behind_loop, closed, Pipe, Move, read, read_error, see_cancel,
  write_chunk, write_error, shutdown, recv, recv_error, see_cancel_recv, store, store_error, flush,
  cancel, cancel_recv, read_len, step, run,
}
use quiczilla.Pipe.Parts.{is_clean, are_clean, held}

abbrev pub rank : Place → ℕ
rank at_select = 2
rank (at_write chunk) = 3
rank behind_loop = 1
rank closed = 0

-- What is left to do, each byte counted by the way that is before it.
abbrev pub work : Pipe → ℕ
work p =
    6 * length p.sender.unread
    + 4 * length (held p.sender.place)
    + rank p.sender.place
    + 3 * length p.in_flight
    + length (held p.receiver.place)
    + rank p.receiver.place

passes :
    (size : ℕ) (x : Bytes)
    → (length x == 0) ≡ false
    → (length (take (read_len size) x) + length (drop (read_len size) x) ≡ length x)
      × (1 ≤ length (take (read_len size) x))
passes size x e = ground (arith, length-take (read_len size) x, length-drop (read_len size) x)

pub read-work :
    (size : ℕ) (p : Pipe) → p.sender.place ≡ at_select → work (step (read size) p) < work p
unfolding step
read-work size p e = rw e (
    if_holds
      (λ s.
        work (record p { sender = s })
        < work (record p { sender = record p.sender { place = at_select } }))
      (p.sender.is_cancelled || (length p.sender.unread == 0)) _ _ (λ q. omega arith)
      (λ q. ground (arith, q, passes size p.sender.unread)))

pub write-work :
    (chunk : Bytes) (p : Pipe)
    → p.sender.place ≡ at_write chunk
    → work (step write_chunk p) < work p
unfolding step
write-work chunk p e = rw e (omega (arith, length-append p.in_flight chunk))

pub shutdown-work :
    (p : Pipe) → p.sender.place ≡ behind_loop → work (step (shutdown true) p) < work p
unfolding step
shutdown-work p e = rw e (omega arith)

pub recv-work :
    (size : ℕ) (p : Pipe)
    → p.fin ≡ true
    → p.receiver.place ≡ at_select
    → work (step (recv size) p) < work p
unfolding step
recv-work size p f e = rw e (
    if_holds (λ q. work q < work (record p { receiver = record p.receiver { place = at_select } }))
      p.receiver.is_cancelled _ _ (λ _. omega arith)
      (λ _.
        if_holds
          (λ q. work q < work (record p { receiver = record p.receiver { place = at_select } }))
          (length p.in_flight == 0) _ _ (λ _. rw f (omega arith))
          (λ i. ground (arith, i, passes size p.in_flight))))

pub store-work :
    (chunk : Bytes) (p : Pipe) → p.receiver.place ≡ at_write chunk → work (step store p) < work p
unfolding step
store-work chunk p e = rw e (omega arith)

pub flush-work : (p : Pipe) → p.receiver.place ≡ behind_loop → work (step flush p) < work p
unfolding step
flush-work p e = rw e (omega arith)

recv_pending :
    (size : ℕ) (p : Pipe)
    → p.fin ≡ false
    → p.receiver.place ≡ at_select
    → work (step (recv size) p) ≤ work p
unfolding step
recv_pending size p f e = rw e (
    if_holds (λ q. work q ≤ work (record p { receiver = record p.receiver { place = at_select } }))
      p.receiver.is_cancelled _ _ (λ _. omega arith)
      (λ _.
        if_holds
          (λ q. work q ≤ work (record p { receiver = record p.receiver { place = at_select } }))
          (length p.in_flight == 0) _ _ (λ _. rw f (omega arith))
          (λ i. ground (arith, i, passes size p.in_flight))))

-- Which step a place waits for.
abbrev pub reads : Place → Bool
reads at_select = true
reads _ = false

abbrev pub writes : Place → Bool
writes (at_write chunk) = true
writes _ = false

abbrev pub leaves : Place → Bool
leaves behind_loop = true
leaves _ = false

module _ (p : Pipe) where
  pub read_idle :
      (place : Place) (size : ℕ)
      → p.sender.place ≡ place
      → reads place ≡ false
      → step (read size) p ≡ p
  unfolding step
  read_idle at_select size e f = cc
  read_idle (at_write chunk) size e f = rw e refl
  read_idle behind_loop size e f = rw e refl
  read_idle closed size e f = rw e refl

  pub write_idle :
      (place : Place) → p.sender.place ≡ place → writes place ≡ false → step write_chunk p ≡ p
  unfolding step
  write_idle (at_write chunk) e f = cc
  write_idle at_select e f = rw e refl
  write_idle behind_loop e f = rw e refl
  write_idle closed e f = rw e refl

  pub shutdown_idle :
      (place : Place) → p.sender.place ≡ place → leaves place ≡ false → step (shutdown true) p ≡ p
  unfolding step
  shutdown_idle behind_loop e f = cc
  shutdown_idle at_select e f = rw e refl
  shutdown_idle (at_write chunk) e f = rw e refl
  shutdown_idle closed e f = rw e refl

  pub recv_idle :
      (place : Place) (size : ℕ)
      → p.receiver.place ≡ place
      → reads place ≡ false
      → step (recv size) p ≡ p
  unfolding step
  recv_idle at_select size e f = cc
  recv_idle (at_write chunk) size e f = rw e refl
  recv_idle behind_loop size e f = rw e refl
  recv_idle closed size e f = rw e refl

  pub store_idle :
      (place : Place) → p.receiver.place ≡ place → writes place ≡ false → step store p ≡ p
  unfolding step
  store_idle (at_write chunk) e f = cc
  store_idle at_select e f = rw e refl
  store_idle behind_loop e f = rw e refl
  store_idle closed e f = rw e refl

  pub flush_idle :
      (place : Place) → p.receiver.place ≡ place → leaves place ≡ false → step flush p ≡ p
  unfolding step
  flush_idle behind_loop e f = cc
  flush_idle at_select e f = rw e refl
  flush_idle (at_write chunk) e f = rw e refl
  flush_idle closed e f = rw e refl

module _ (p : Pipe) where
  read_le : (place : Place) (size : ℕ) → p.sender.place ≡ place → work (step (read size) p) ≤ work p
  read_le at_select size e = omega (arith, read-work size p e)
  read_le (at_write chunk) size e = rw (read_idle p (at_write chunk) size e refl) (omega arith)
  read_le behind_loop size e = rw (read_idle p behind_loop size e refl) (omega arith)
  read_le closed size e = rw (read_idle p closed size e refl) (omega arith)

  write_le : (place : Place) → p.sender.place ≡ place → work (step write_chunk p) ≤ work p
  write_le (at_write chunk) e = omega (arith, write-work chunk p e)
  write_le at_select e = rw (write_idle p at_select e refl) (omega arith)
  write_le behind_loop e = rw (write_idle p behind_loop e refl) (omega arith)
  write_le closed e = rw (write_idle p closed e refl) (omega arith)

  shutdown_le : (place : Place) → p.sender.place ≡ place → work (step (shutdown true) p) ≤ work p
  shutdown_le behind_loop e = omega (arith, shutdown-work p e)
  shutdown_le at_select e = rw (shutdown_idle p at_select e refl) (omega arith)
  shutdown_le (at_write chunk) e = rw (shutdown_idle p (at_write chunk) e refl) (omega arith)
  shutdown_le closed e = rw (shutdown_idle p closed e refl) (omega arith)

  recv_le :
      (place : Place) (size : ℕ) → p.receiver.place ≡ place → work (step (recv size) p) ≤ work p
  recv_le at_select size e = elim (Bool-cases p.fin) [
    | inl f ↦ omega (arith, recv-work size p f e)
    | inr f ↦ recv_pending size p f e
  ]
  recv_le (at_write chunk) size e = rw (recv_idle p (at_write chunk) size e refl) (omega arith)
  recv_le behind_loop size e = rw (recv_idle p behind_loop size e refl) (omega arith)
  recv_le closed size e = rw (recv_idle p closed size e refl) (omega arith)

  store_le : (place : Place) → p.receiver.place ≡ place → work (step store p) ≤ work p
  store_le (at_write chunk) e = omega (arith, store-work chunk p e)
  store_le at_select e = rw (store_idle p at_select e refl) (omega arith)
  store_le behind_loop e = rw (store_idle p behind_loop e refl) (omega arith)
  store_le closed e = rw (store_idle p closed e refl) (omega arith)

  flush_le : (place : Place) → p.receiver.place ≡ place → work (step flush p) ≤ work p
  flush_le behind_loop e = omega (arith, flush-work p e)
  flush_le at_select e = rw (flush_idle p at_select e refl) (omega arith)
  flush_le (at_write chunk) e = rw (flush_idle p (at_write chunk) e refl) (omega arith)
  flush_le closed e = rw (flush_idle p closed e refl) (omega arith)

step_le : (m : Move) (p : Pipe) → is_clean m ≡ true → work (step m p) ≤ work p
step_le (read size) p e = read_le p p.sender.place size refl
step_le write_chunk p e = write_le p p.sender.place refl
step_le (shutdown true) p e = shutdown_le p p.sender.place refl
step_le (recv size) p e = recv_le p p.receiver.place size refl
step_le store p e = store_le p p.receiver.place refl
step_le flush p e = flush_le p p.receiver.place refl
step_le (shutdown false) p e = cc
step_le read_error p e = cc
step_le see_cancel p e = cc
step_le (write_error n) p e = cc
step_le recv_error p e = cc
step_le see_cancel_recv p e = cc
step_le (store_error n) p e = cc
step_le cancel p e = cc
step_le cancel_recv p e = cc

pub run_le : (moves : List Move) (p : Pipe) → are_clean moves ≡ true → work (run moves p) ≤ work p
unfolding run
run_le [] p e = omega arith
run_le (m ∷ moves) p e =
    ground (arith, step_le m p (ground arith), run_le moves (step m p) (ground arith))
