-- ===== src/Peer/Signals.antt =====
-- What the tasks that send and receive files share: the watch channel of the pause, the token, the
-- channel of 16 chunks between a network side and a disk side, and the hasher.
use mathlib.Core.List.{append_assoc}
use quiczilla.Prelude.{
  ℕ, ◌≡◌, refl, sym, ap, ◌∙◌, arith, length, ◌==◌, Bool, true, false, not, ◌&&◌, Option, none, some,
  List, [], ◌∷◌, ◌++◌,
}
use quiczilla.Prelude.Bytes.{Bytes, codes}
use quiczilla.Directory.Copy.{update}
use quiczilla.Peer.Coordinator.{Effect, emit, transfer_progress}

-- `unseen`: a value was sent that this receiver has not awaited. `is_closed`: the sending half is gone.
pub record Signals : Type 0 where
  pub paused : Bool
  pub unseen : Bool
  pub is_closed : Bool
  pub is_cancelled : Bool

-- The test of the loop `while *is_paused.borrow()`, a cancelled transfer leaving the loop.
abbrev pub must_wait : Signals → Bool
must_wait s = s.paused && not s.is_cancelled

abbrev pub channel_capacity : ℕ
channel_capacity = 16

abbrev pub concat : List Bytes → Bytes
concat [] = []
concat (chunk ∷ chunks) = chunk ++ concat chunks

pub concat-append : (xs ys : List Bytes) → concat (xs ++ ys) ≡ concat xs ++ concat ys
concat-append [] ys = refl
concat-append (x ∷ xs) ys = ap (λ t. x ++ t) (concat-append xs ys) ∙ sym (append_assoc x _ _)

pub length-nil : (a : Bytes) → (length a == 0) ≡ true → a ≡ []
length-nil [] e = refl
length-nil (x ∷ a) e = absurd (ground arith)

abbrev pub is_some : Option Bytes → Bool
is_some none = false
is_some (some a) = true

pub update-is_some : (o : Option Bytes) (a : Bytes) → is_some (update o a) ≡ is_some o
update-is_some none a = refl
update-is_some (some b) a = refl

-- `a` is a beginning of `b`.
abbrev pub Prefix : Bytes → Bytes → Type 0
Prefix a b = (rest : Bytes) × (a ++ rest ≡ b)

-- The end of an optional hasher, fed with `taken`.
abbrev pub digest : (Bytes → Bytes) → Option Bytes → Bytes
digest sha256_hex none = codes "NONE"
digest sha256_hex (some taken) = sha256_hex taken

abbrev pub report : Bool → (transferred total : ℕ) → List Effect
report false transferred total = []
report true transferred total =
    emit (
      transfer_progress
        (record { bytes_transferred = transferred; total_bytes = total; is_completed = false }))
    ∷ []
