-- ===== src/Pipe/SendOrder.antt =====
-- The send task through errors and cancellations: what goes to the stream is in order.
use quiczilla.Prelude.{
  ℕ, ◌+◌, ◌≤◌, ◌≡◌, refl, sym, ap, ◌∙◌, false, ◌||◌, [], ◌++◌, arith, length, take, drop, if_holds,
  ◌==◌, length-append, take-append-drop,
}
use mathlib.Core.List.{append_assoc, append-nil}
use quiczilla.Prelude.Bytes.{Bytes}
use quiczilla.Peer.Signals.{Prefix}
use quiczilla.Pipe.{
  Place, at_select, behind_loop, Sender, read_len, on_read, on_read_error, on_see_cancel,
}
use quiczilla.Pipe.Parts.{held, is_over, taken-split}

pub Prefix-refl : (a : Bytes) → Prefix a a
Prefix-refl a = ([], append-nil a)

pub Prefix-append : (a b c : Bytes) → Prefix a b → Prefix a (b ++ c)
Prefix-append a b c (r, e) = (r ++ c, sym (append_assoc a r c) ∙ ap (λ z. z ++ c) e)

-- A part of the chunk that follows.
pub Prefix-take :
    (n : ℕ) (a chunk rest whole : Bytes)
    → (a ++ chunk) ++ rest ≡ whole
    → Prefix (a ++ take n chunk) whole
Prefix-take n a chunk rest whole e = (
  drop n chunk ++ rest,
  append_assoc a (take n chunk) (drop n chunk ++ rest)
      ∙ ap (λ z. a ++ z) (sym (append_assoc (take n chunk) (drop n chunk) rest))
      ∙ ap (λ z. a ++ (z ++ rest)) (take-append-drop n chunk)
      ∙ sym (append_assoc a chunk rest)
      ∙ e,
)

pub Prefix-chunk :
    (a chunk rest whole : Bytes) → (a ++ chunk) ++ rest ≡ whole → Prefix (a ++ chunk) whole
Prefix-chunk a chunk rest whole e = (rest, e)

pub longer : (n m : ℕ) (a x : Bytes) → n ≤ length a → m ≤ length x → n + m ≤ length (a ++ x)
longer n m a x h k = omega (arith, length-append a x)

-- A task keeps its parts while its loop runs; what it has passed on is in order at any time.
pub record IsSendOrder (input : Bytes) (s : Sender) : Type 0 where
  pub parts : is_over s.place ≡ false → (s.written ++ held s.place) ++ s.unread ≡ input
  pub ordered : Prefix s.written input
  pub counted : s.bytes_sent ≤ length s.written

-- A task that leaves its loop.
leaves-IsSendOrder :
    (input : Bytes) (s : Sender)
    → IsSendOrder input s
    → IsSendOrder input (record s { place = behind_loop })
leaves-IsSendOrder input s h = record { parts = λ o. cc; ordered = h.ordered; counted = h.counted }

module _ (input : Bytes) where
  pub on_read-IsSendOrder :
      (place : Place) (size : ℕ) (s : Sender)
      → s.place ≡ place
      → IsSendOrder input s
      → IsSendOrder input (on_read place size s)
  unfolding on_read
  on_read-IsSendOrder at_select size s e h =
      if_holds (IsSendOrder input) (s.is_cancelled || (length s.unread == 0)) _ _
        (λ q. leaves-IsSendOrder input s h)
        (λ q. record {
          parts =
              λ o. taken-split s.written s.unread input (read_len size) (rw e at (h.parts) refl);
          ordered = h.ordered;
          counted = h.counted;
        })
  on_read-IsSendOrder _ size s e h = h

  pub on_read_error-IsSendOrder :
      (place : Place) (s : Sender) → IsSendOrder input s → IsSendOrder input (on_read_error place s)
  unfolding on_read_error
  on_read_error-IsSendOrder at_select s h = leaves-IsSendOrder input s h
  on_read_error-IsSendOrder _ s h = h

  pub on_see_cancel-IsSendOrder :
      (place : Place) (s : Sender) → IsSendOrder input s → IsSendOrder input (on_see_cancel place s)
  unfolding on_see_cancel
  on_see_cancel-IsSendOrder at_select s h =
      if_holds (IsSendOrder input) s.is_cancelled _ _ (λ q. leaves-IsSendOrder input s h) (λ q. h)
  on_see_cancel-IsSendOrder _ s h = h
