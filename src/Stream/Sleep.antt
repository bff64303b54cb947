-- ===== src/Stream/Sleep.antt =====
-- The tasks that wait at a stream: a task sleeps from a poll that is pending until its waker is woken.
use quiczilla.Prelude.{
  ◌⊎◌, inr, ℕ, ◌<◌, ◌≡◌, refl, Bool, true, false, Option, none, some, List, [], ◌∷◌, ◌++◌, arith,
  any, ◌==◌, ==_self, if◌then◌else◌, if_holds,
}
use quiczilla.Prelude.Bytes.{Bytes}
use quiczilla.Stream.{
  StreamShared, StreamEvent, receive, send_complete, peer_send_shutdown, peer_receive_aborted,
  peer_send_aborted, shutdown_complete, other_event, IoError, msquic_stream_callback, take_waker,
  Poll, pending, ready, poll_read, poll_write, poll_flush, poll_shutdown, StreamSend,
}

-- The task that made the poll, if it sleeps now.
abbrev pub asleep {ℓ} : {A : Type ℓ} → (waker : ℕ) → Poll A → Option ℕ
asleep waker pending = some waker
asleep waker (ready r) = none

-- A sleeping task that is not among those that are woken.
abbrev pub still : Option ℕ → (woken : List ℕ) → Option ℕ
still none woken = none
still (some k) woken = if any (λ v. v == k) woken then none else some k

-- A sleeping reader is the one that will be woken, and there is nothing for it: no byte, no end of
-- the stream, and no error but that of the other direction.
abbrev pub ReaderSleeps : Option ℕ → StreamShared → Type 0
ReaderSleeps none s = Unit
ReaderSleeps (some k) s =
    (s.recv_waker ≡ some k)
    × ((s.recv_buf ≡ [])
        × ((s.is_closed_read ≡ false)
            × ((s.error ≡ none) ⊎ (s.error ≡ some IoError.peer_aborted_receive))))

-- A sleeping writer is the one that will be woken, and a chunk is still to be completed.
abbrev pub WriterSleeps : Option ℕ → StreamShared → Type 0
WriterSleeps none s = Unit
WriterSleeps (some k) s = (s.send_waker ≡ some k) × (0 < s.in_flight_bytes)

-- The waker is among those that are woken, as the first or behind others.
any-first :
    (k : ℕ) (o : Option ℕ) (rest : List ℕ)
    → o ≡ some k
    → any (λ v. v == k) (take_waker o ++ rest) ≡ true
any-first k o rest e = rw e (rw (==_self k) refl)

any-last :
    (k : ℕ) (first : List ℕ) (o : Option ℕ)
    → o ≡ some k
    → any (λ v. v == k) (first ++ take_waker o) ≡ true
any-last k [] o e = rw e (rw (==_self k) refl)
any-last k (v ∷ first) o e = ground (arith, any-last k first o e)

woken_holds :
    (P : Option ℕ → Type 0) (k : ℕ) (woken : List ℕ)
    → P none
    → any (λ v. v == k) woken ≡ true
    → P (still (some k) woken)
woken_holds P k woken h e =
    if_holds P (any (λ v. v == k) woken) _ _ (λ q. h) (λ q. absurd (ground (arith, q, e)))

still-ReaderSleeps :
    (r : Option ℕ) (woken : List ℕ) (s : StreamShared)
    → ReaderSleeps r s
    → ReaderSleeps (still r woken) s
still-ReaderSleeps none woken s h = tt
still-ReaderSleeps (some k) woken s h =
    if_holds (λ r. ReaderSleeps r s) (any (λ v. v == k) woken) _ _ (λ q. tt) (λ q. h)

still-WriterSleeps :
    (r : Option ℕ) (woken : List ℕ) (s : StreamShared)
    → WriterSleeps r s
    → WriterSleeps (still r woken) s
still-WriterSleeps none woken s h = tt
still-WriterSleeps (some k) woken s h =
    if_holds (λ r. WriterSleeps r s) (any (λ v. v == k) woken) _ _ (λ q. tt) (λ q. h)

pub callback-ReaderSleeps :
    (r : Option ℕ) (e : StreamEvent) (s : StreamShared)
    → ReaderSleeps r s
    → ReaderSleeps (still r (msquic_stream_callback e s).1) (msquic_stream_callback e s).0
unfolding msquic_stream_callback
callback-ReaderSleeps none e s h = tt
callback-ReaderSleeps (some k) (receive b) s h =
    woken_holds (λ r. ReaderSleeps r (msquic_stream_callback (receive b) s).0) k
      (take_waker s.recv_waker) tt (any-last k [] s.recv_waker h.0)
callback-ReaderSleeps (some k) peer_send_shutdown s h =
    woken_holds (λ r. ReaderSleeps r (msquic_stream_callback peer_send_shutdown s).0) k
      (take_waker s.recv_waker) tt (any-last k [] s.recv_waker h.0)
callback-ReaderSleeps (some k) peer_send_aborted s h =
    woken_holds (λ r. ReaderSleeps r (msquic_stream_callback peer_send_aborted s).0) k
      (take_waker s.recv_waker) tt (any-last k [] s.recv_waker h.0)
callback-ReaderSleeps (some k) shutdown_complete s h =
    woken_holds (λ r. ReaderSleeps r (msquic_stream_callback shutdown_complete s).0) k
      (take_waker s.recv_waker ++ take_waker s.send_waker) tt
      (any-first k s.recv_waker (take_waker s.send_waker) h.0)
callback-ReaderSleeps (some k) (send_complete c) s h =
    still-ReaderSleeps (some k) (take_waker s.send_waker)
      (msquic_stream_callback (send_complete c) s).0 h
callback-ReaderSleeps (some k) peer_receive_aborted s h =
    still-ReaderSleeps (some k) (take_waker s.send_waker)
      (msquic_stream_callback peer_receive_aborted s).0 (h.0, (h.1.0, (h.1.1.0, inr refl)))
callback-ReaderSleeps (some k) other_event s h = h

pub callback-WriterSleeps :
    (r : Option ℕ) (e : StreamEvent) (s : StreamShared)
    → WriterSleeps r s
    → WriterSleeps (still r (msquic_stream_callback e s).1) (msquic_stream_callback e s).0
unfolding msquic_stream_callback
callback-WriterSleeps none e s h = tt
callback-WriterSleeps (some k) (send_complete c) s h =
    woken_holds (λ r. WriterSleeps r (msquic_stream_callback (send_complete c) s).0) k
      (take_waker s.send_waker) tt (any-last k [] s.send_waker h.0)
callback-WriterSleeps (some k) peer_receive_aborted s h =
    woken_holds (λ r. WriterSleeps r (msquic_stream_callback peer_receive_aborted s).0) k
      (take_waker s.send_waker) tt (any-last k [] s.send_waker h.0)
callback-WriterSleeps (some k) shutdown_complete s h =
    woken_holds (λ r. WriterSleeps r (msquic_stream_callback shutdown_complete s).0) k
      (take_waker s.recv_waker ++ take_waker s.send_waker) tt
      (any-last k (take_waker s.recv_waker) s.send_waker h.0)
callback-WriterSleeps (some k) other_event s h = h
callback-WriterSleeps (some k) (receive b) s h =
    still-WriterSleeps (some k) (take_waker s.recv_waker) (msquic_stream_callback (receive b) s).0 h
callback-WriterSleeps (some k) peer_send_shutdown s h =
    still-WriterSleeps (some k) (take_waker s.recv_waker)
      (msquic_stream_callback peer_send_shutdown s).0 h
callback-WriterSleeps (some k) peer_send_aborted s h =
    still-WriterSleeps (some k) (take_waker s.recv_waker)
      (msquic_stream_callback peer_send_aborted s).0 h

-- A poll of the reader leaves the reader asleep only if there is nothing for it.
pub poll_read-ReaderSleeps :
    (waker capacity : ℕ) (s : StreamShared)
    → ReaderSleeps (asleep waker (poll_read waker capacity s).1) (poll_read waker capacity s).0
unfolding poll_read
poll_read-ReaderSleeps waker capacity s = ground arith

pub poll_write-WriterSleeps :
    (api : StreamSend) (waker : ℕ) (buf : Bytes) (s : StreamShared)
    → WriterSleeps (asleep waker (poll_write api waker buf s).1) (poll_write api waker buf s).0
unfolding poll_write
poll_write-WriterSleeps api waker buf s = ground arith

pub poll_flush-WriterSleeps :
    (waker : ℕ) (s : StreamShared)
    → WriterSleeps (asleep waker (poll_flush waker s).1) (poll_flush waker s).0
unfolding poll_flush
poll_flush-WriterSleeps waker s = ground arith

pub poll_shutdown-WriterSleeps :
    (api : Bool) (waker : ℕ) (s : StreamShared)
    → WriterSleeps (asleep waker (poll_shutdown api waker s).1) (poll_shutdown api waker s).0
unfolding poll_shutdown
poll_shutdown-WriterSleeps api waker s = ground arith

-- The polls of the other side leave a sleeping task as it is.
pub poll_read-WriterSleeps :
    (r : Option ℕ) (waker capacity : ℕ) (s : StreamShared)
    → WriterSleeps r s
    → WriterSleeps r (poll_read waker capacity s).0
unfolding poll_read
poll_read-WriterSleeps none waker capacity s h = tt
poll_read-WriterSleeps (some k) waker capacity s h = ground arith

pub poll_write-ReaderSleeps :
    (r : Option ℕ) (api : StreamSend) (waker : ℕ) (buf : Bytes) (s : StreamShared)
    → ReaderSleeps r s
    → ReaderSleeps r (poll_write api waker buf s).0
unfolding poll_write
poll_write-ReaderSleeps none api waker buf s h = tt
poll_write-ReaderSleeps (some k) api waker buf s h = ground arith

pub poll_flush-ReaderSleeps :
    (r : Option ℕ) (waker : ℕ) (s : StreamShared)
    → ReaderSleeps r s
    → ReaderSleeps r (poll_flush waker s).0
unfolding poll_flush
poll_flush-ReaderSleeps none waker s h = tt
poll_flush-ReaderSleeps (some k) waker s h = ground arith

pub poll_shutdown-ReaderSleeps :
    (r : Option ℕ) (api : Bool) (waker : ℕ) (s : StreamShared)
    → ReaderSleeps r s
    → ReaderSleeps r (poll_shutdown api waker s).0
unfolding poll_shutdown
poll_shutdown-ReaderSleeps none api waker s h = tt
poll_shutdown-ReaderSleeps (some k) api waker s h = ground arith
