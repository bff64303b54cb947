-- ===== src/Peer/Sending/Ends.antt =====
-- Sending a file comes to its end: whatever happened before, once the transfer is neither paused nor
-- cancelled, and nothing has failed, a bounded number of turns of the two tasks is enough.
pub mod Progress
pub mod Over
use quiczilla.Prelude.{
  ◌⊎◌, inl, inr, ℕ, ◌+◌, ◌*◌, ◌≤◌, ◌<◌, ◌≡◌, refl, ap, ◌∙◌, Bool, true, false, List, [], ◌∷◌, ◌++◌,
  arith, length, if_holds, length-append, length-drop, ltb, ◌==◌,
}
use quiczilla.Prelude.Bytes.{Bytes}
use quiczilla.Peer.Signals.{Signals, channel_capacity}
use quiczilla.Peer.Sending.{
  Reader, at_read, at_send, finished, reader_failed, Writer, at_recv, at_pause, at_changed,
  at_write, ended, Transfer, Move, is_over, gave_up, read_len, step, run, read, push, take_chunk,
  look_at_pause, write, on_read, on_push, on_take, on_pause, on_write,
}

abbrev pub reader_work : Reader → ℕ
reader_work at_read = 2
reader_work (at_send chunk) = 9
reader_work _ = 0

abbrev pub writer_work : Writer → ℕ
writer_work at_recv = 1
writer_work (at_changed chunk) = 6
writer_work (at_pause chunk) = 5
writer_work (at_write chunk) = 3
writer_work (ended b) = 0

-- What the two tasks have still to do: a byte may take a whole turn of each.
abbrev pub work : Transfer → ℕ
work t = 8 * length t.unread + reader_work t.reader + 6 * length t.channel + writer_work t.writer

-- A writer that waits for a change of the pause has one to see, or is paused.
abbrev pub Awake : Writer → Signals → Type 0
Awake (at_changed chunk) s = (s.unseen ≡ true) ⊎ (s.paused ≡ true)
Awake _ s = Unit

abbrev pub is_looking : Writer → Bool
is_looking (at_pause chunk) = true
is_looking (at_changed chunk) = true
is_looking _ = false

abbrev pub is_failed : Reader → Bool
is_failed reader_failed = true
is_failed _ = false

-- Neither paused nor cancelled nor failed.
pub record Works (t : Transfer) : Type 0 where
  pub runs : t.signals.paused ≡ false
  pub lives : t.signals.is_cancelled ≡ false
  pub writes : gave_up t.writer ≡ false
  pub reads : is_failed t.reader ≡ false
  pub awake : Awake t.writer t.signals

-- The steps of the two tasks that make progress.
pub data Own : Move → Type 0 where
  reading : (size : ℕ) → Own (read size)
  pushing : Own push
  taking : Own take_chunk
  looking : Own look_at_pause
  writing : (reports : Bool) → Own (write reports)

abbrev pub Owns : List Move → Type 0
Owns [] = Unit
Owns (m ∷ moves) = Own m × Owns moves

-- No step of the list changes the state.
abbrev pub Stuck : (Bytes → Bytes) → List Move → Transfer → Type 0
Stuck sha256_hex [] t = Unit
Stuck sha256_hex (m ∷ moves) t = (step sha256_hex m t ≡ t) × Stuck sha256_hex moves t

abbrev pub Progress : Transfer → Transfer → Type 0
Progress t t' = Works t' × ((t' ≡ t) ⊎ (work t' < work t))

-- One turn of each part of the two tasks.
abbrev pub turn : ℕ → List Move
turn size = read size ∷ push ∷ take_chunk ∷ look_at_pause ∷ write true ∷ []

abbrev pub turns : List ℕ → List Move
turns [] = []
turns (size ∷ sizes) = turn size ++ turns sizes

pub turn-Owns : (size : ℕ) → Owns (turn size)
turn-Owns size = (reading size, (pushing, (taking, (looking, (writing true, tt)))))

pub turns-Owns : (sizes : List ℕ) → Owns (turns sizes)
turns-Owns [] = tt
turns-Owns (size ∷ sizes) =
    (reading size, (pushing, (taking, (looking, (writing true, turns-Owns sizes)))))

pub no_work : (w : Writer) → writer_work w ≡ 0 → gave_up w ≡ false → w ≡ ended true
no_work (ended true) e g = refl
no_work (ended false) e g = absurd (ground arith)
no_work at_recv e g = absurd (omega arith)
no_work (at_pause c) e g = absurd (omega arith)
no_work (at_changed c) e g = absurd (omega arith)
no_work (at_write c) e g = absurd (omega arith)
