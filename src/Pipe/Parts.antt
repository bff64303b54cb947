-- ===== src/Pipe/Parts.antt =====
-- What is where in a pipe none of whose reads and writes fails.
pub mod Steps
use quiczilla.Prelude.{
  ℕ, ◌+◌, ◌≡◌, refl, sym, ap, ◌∙◌, Bool, true, false, ◌&&◌, ◌||◌, Option, none, some, List, [], ◌∷◌,
  ◌++◌, arith, length, take, drop, if_holds, if◌then◌else◌, ◌==◌, length-append, take-append-drop,
}
use mathlib.Core.List.{append_assoc, append-nil}
use quiczilla.Prelude.Bytes.{Bytes}
use quiczilla.Directory.Copy.{update}
use quiczilla.Peer.Signals.{length-nil}
use quiczilla.Pipe.{
  Place, at_select, at_write, behind_loop, closed, Sender, Receiver, Pipe, Move, read, write_chunk,
  shutdown, recv, store, flush, start, read_len, on_read, on_write, on_shutdown, on_recv, on_store,
  on_flush,
}

-- Neither an error nor a cancellation.
abbrev pub is_clean : Move → Bool
is_clean (read size) = true
is_clean write_chunk = true
is_clean (shutdown is_ok) = is_ok
is_clean (recv size) = true
is_clean store = true
is_clean flush = true
is_clean _ = false

abbrev pub are_clean : List Move → Bool
are_clean [] = true
are_clean (m ∷ moves) = is_clean m && are_clean moves

-- The chunk that a task holds.
abbrev pub held : Place → Bytes
held (at_write chunk) = chunk
held _ = []

abbrev pub is_over : Place → Bool
is_over behind_loop = true
is_over closed = true
is_over _ = false

-- A hasher that was fed with `taken`.
abbrev pub fed : Bool → Bytes → Option Bytes
fed compute_hash taken = if compute_hash then some taken else none

update-fed : (b : Bool) (x y : Bytes) → update (fed b x) y ≡ fed b (x ++ y)
update-fed true x y = refl
update-fed false x y = refl

-- The send task has the input in three parts.
pub record IsSending (compute_hash : Bool) (input : Bytes) (fin : Bool) (s : Sender) : Type 0 where
  pub split : (s.written ++ held s.place) ++ s.unread ≡ input
  pub counted : s.bytes_sent ≡ length s.written
  pub hashed : s.hasher ≡ fed compute_hash (s.written ++ held s.place)
  pub ended : is_over s.place ≡ true → s.unread ≡ []
  pub ends : fin ≡ true → is_over s.place ≡ true
  pub finished : s.place ≡ closed → fin ≡ true
  pub awake : s.is_cancelled ≡ false

-- The receive task and the stream have what was written in three parts.
pub record IsReceiving (compute_hash : Bool) (written in_flight : Bytes) (fin : Bool) (r : Receiver)
    : Type 0 where
  pub split : (r.output ++ held r.place) ++ in_flight ≡ written
  pub counted : r.bytes_received ≡ length r.output
  pub hashed : r.hasher ≡ fed compute_hash (r.output ++ held r.place)
  pub ended : is_over r.place ≡ true → (in_flight ≡ []) × (fin ≡ true)
  pub saved : r.place ≡ closed → r.flushed ≡ r.output
  pub awake : r.is_cancelled ≡ false

pub record IsWhole (compute_sent compute_received : Bool) (input : Bytes) (p : Pipe) : Type 0 where
  pub sends : IsSending compute_sent input p.fin p.sender
  pub receives : IsReceiving compute_received p.sender.written p.in_flight p.fin p.receiver

pub not_closed : {A : Type 0} → at_select ≡ closed → A
not_closed e = cc

pub not_closed_write : {A : Type 0} {c : Bytes} → at_write c ≡ closed → A
not_closed_write e = cc

pub start-IsWhole :
    (input : Bytes) (compute_sent compute_received : Bool)
    → IsWhole compute_sent compute_received input
        (start (some input) true compute_sent compute_received)
start-IsWhole input b c = record {
  sends = record {
    split = refl;
    counted = refl;
    hashed = refl;
    ended = λ e. cc;
    ends = λ e. cc;
    finished = λ e. not_closed e;
    awake = refl;
  };
  receives = record {
    split = refl;
    counted = refl;
    hashed = refl;
    ended = λ e. cc;
    saved = λ e. not_closed e;
    awake = refl;
  };
}

-- Taking a part of what follows.
pub taken-split :
    (a b input : Bytes) (n : ℕ) → (a ++ []) ++ b ≡ input → (a ++ take n b) ++ drop n b ≡ input
taken-split a b input n e =
    append_assoc a (take n b) (drop n b)
    ∙ ap (λ z. a ++ z) (take-append-drop n b)
    ∙ ap (λ z. z ++ b) (sym (append-nil a))
    ∙ e

pub fed-held : (b : Bool) (a c : Bytes) → update (fed b (a ++ [])) c ≡ fed b (a ++ c)
fed-held b a c = update-fed b (a ++ []) c ∙ ap (λ z. fed b (z ++ c)) (append-nil a)

module _ (b : Bool) (input : Bytes) where
  pub on_read-IsSending :
      (place : Place) (size : ℕ) (fin : Bool) (s : Sender)
      → s.place ≡ place
      → IsSending b input fin s
      → IsSending b input fin (on_read place size s)
  unfolding on_read
  on_read-IsSending at_select size fin s e h =
      if_holds (IsSending b input fin) (s.is_cancelled || (length s.unread == 0)) _ _
        (λ q. record {
          split = rw e at (h.split);
          counted = h.counted;
          hashed = rw e at (h.hashed);
          ended = λ o. length-nil s.unread (ground (arith, q, h.awake));
          ends = λ o. refl;
          finished = λ o. cc;
          awake = h.awake;
        })
        (λ q. record {
          split = taken-split s.written s.unread input (read_len size) (rw e at (h.split));
          counted = h.counted;
          hashed =
              ap (λ z. update z (take (read_len size) s.unread)) (rw e at (h.hashed))
              ∙ fed-held b s.written (take (read_len size) s.unread);
          ended = λ o. cc;
          ends = λ o. absurd (cc (rw e at (h.ends o)));
          finished = λ o. not_closed_write o;
          awake = h.awake;
        })
  on_read-IsSending _ size fin s e h = h
