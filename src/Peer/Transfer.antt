-- ===== src/Peer/Transfer.antt =====
-- A file from one peer's disk to the other's: the send task and the receive task of core/src/peer.rs at
-- the two ends of a file stream.
mod Tests
use quiczilla.Prelude.{
  ℕ, zero, suc, ◌+◌, ◌-◌, ◌≤◌, ◌<◌, ◌≡◌, refl, sym, ap, ◌∙◌, Bool, true, Option, none, some, List,
  [], ◌∷◌, ◌++◌, ok, arith, length, length-append, length-take, length-drop, take, drop,
  take-append, take-append-drop, take_all, drop_all, replicate,
}
use mathlib.Core.List.{append_assoc, append-nil}
use quiczilla.Prelude.Bytes.{Bytes}
use quiczilla.Paths.{Text, components}
use quiczilla.Peer.Disk.{Disk, file, resize, write_at}
use quiczilla.Peer.Accept.{RecvTask}
use quiczilla.Peer.Signals.{Signals, Prefix}
use quiczilla.Peer.Sending
use quiczilla.Peer.Sending.{SendAnswers, Transfer}
use quiczilla.Peer.Sending.Flow.Steps
use quiczilla.Peer.Sending.Sent.{begin-ok, opened-IsFlow}
use quiczilla.Peer.Receiving
use quiczilla.Peer.Receiving.{Receipt}
use quiczilla.Peer.Receiving.Conclude.{conclude}
use quiczilla.Peer.Receiving.Flow.Steps.{all_delivered}
use quiczilla.Peer.Receiving.Received.{says_ok}
use quiczilla.Peer.Receiving.Whole.{begin-ready, conclude-IsReceived}

resize-take :
    (offset : ℕ) (content : Bytes)
    → offset ≤ length content
    → resize offset (take offset content) ≡ take offset content
resize-take offset content h =
    let short : length (take offset content) ≡ offset = omega (arith, length-take offset content) in
    let full : offset - length (take offset content) ≡ 0 = omega arith in
    ap (λ n. take offset (take offset content) ++ replicate n 0) full
    ∙ append-nil _
    ∙ take_all offset (take offset content) (omega arith)

-- Writing the rest of a file behind its beginning gives the file.
write_at-drop :
    (offset : ℕ) (content rest : Bytes)
    → offset ≤ length content
    → rest ≡ drop offset content
    → write_at offset rest (take offset content) ≡ content
unfolding write_at
write_at-drop offset content [] h e =
    sym (append-nil _) ∙ ap (λ z. take offset content ++ z) e ∙ take-append-drop offset content
write_at-drop offset content (b ∷ rest) h e =
    ap (λ z. z ++ ((b ∷ rest) ++ drop (offset + length (b ∷ rest)) (take offset content)))
      (resize-take offset content h)
    ∙ ap (λ z. take offset content ++ ((b ∷ rest) ++ z))
        (drop_all (offset + length (b ∷ rest)) (take offset content)
          (omega (arith, length-take offset content)))
    ∙ ap (λ z. take offset content ++ z) (append-nil (b ∷ rest) ∙ e)
    ∙ take-append-drop offset content

-- A beginning that is long enough is all.
Prefix-all : (a b : Bytes) (n : ℕ) → Prefix a b → length b ≡ n → n ≤ length a → take n a ≡ b
Prefix-all a b n ([], e) l h =
    take_all n a (omega (arith, ap length e, length-append a [])) ∙ sym (append-nil a) ∙ e
Prefix-all a b n (x ∷ rest, e) l h = absurd (omega (arith, ap length e, length-append a (x ∷ rest)))

Prefix-trans : (a b c : Bytes) → Prefix a b → Prefix b c → Prefix a c
Prefix-trans a b c (r, e) (s, f) = (r ++ s, sym (append_assoc a r s) ∙ ap (λ z. z ++ s) e ∙ f)

base_take :
    (offset : ℕ) (base content : Bytes)
    → (offset ≡ 0 → base ≡ [])
    → (0 < offset → base ≡ take offset content)
    → base ≡ take offset content
base_take zero base content h k = h refl
base_take (suc offset) base content h k = k (omega arith)

module _ (sha256_hex : Bytes → Bytes) where
  -- Two peers, each at any point of any order of steps: the sender sends `content` from the offset that
  -- the receiver starts at, the receiver expects its length and has opened its beginning, and what has
  -- arrived is a beginning of what was written. If the receiver says that it has the file, then the
  -- file at its destination is `content`.
  pub transfer-content :
      (answers : SendAnswers) (disk : Disk) (path : Text) (checksum : Bool) (signals : Signals)
      (content : Bytes) (t : Transfer) (sent : List Sending.Move) (dir_len : ℕ)
      (there made there' : Disk) (task : RecvTask) (signals' : Signals) (incoming : Bytes)
      (is_finished : Bool) (r : Receipt) (received : List Receiving.Move) (rereads : Bool)
      (expected : Option Bytes)
      → disk (components path) ≡ some (file content)
      → Sending.begin sha256_hex answers disk path checksum task.resume_offset signals ≡ ok t
      → Receiving.begin dir_len there task signals' incoming is_finished ≡ (made, some r)
      → task.file_size ≡ length content
      → task.resume_offset ≤ length content
      → (0 < task.resume_offset → r.base ≡ take task.resume_offset content)
      → Prefix (incoming ++ all_delivered received) (Sending.run sha256_hex sent t).written
      → let o = conclude sha256_hex rereads expected there' (Receiving.run sha256_hex received r) in
        says_ok o.effects ≡ true → o.disk task.dest_path ≡ some (file content)
  transfer-content answers disk path checksum signals content t sent dir_len there made there' task
        signals' incoming is_finished r received rereads expected found began opened size within
        base flows said =
      let offset = task.resume_offset in
      let start =
        begin-ok sha256_hex answers disk path checksum offset signals content t found began in
      let flow =
        Steps.run-IsFlow sha256_hex (drop offset content) offset sent t
          (rw start (opened-IsFlow sha256_hex answers content checksum offset signals)) in
      let arrived = incoming ++ all_delivered received in
      let (enough, placed, agreed) =
        conclude-IsReceived sha256_hex dir_len there made there' task signals' incoming is_finished
          r received rereads expected opened (omega arith) said in
      let (base', started, truncated) =
        begin-ready dir_len there made task signals' incoming is_finished r opened in
      let same_base : r.base ≡ base' = ap (λ (x : Receipt). x.base) started in
      let beginning : r.base ≡ take offset content =
        base_take offset r.base content (λ z. same_base ∙ truncated z) base in
      let rest : take (task.file_size - offset) arrived ≡ drop offset content =
        Prefix-all arrived (drop offset content) (task.file_size - offset)
          (Prefix-trans arrived _ (drop offset content) flows flow.begun)
          (omega (arith, size, length-drop offset content)) enough in
      placed
      ∙ ap (λ z. some (file (write_at offset (take (task.file_size - offset) arrived) z))) beginning
      ∙ ap (λ z. some (file z)) (write_at-drop offset content _ within rest)
