-- ===== src/Directory/Copy.antt =====
-- The loop that copies the contents of a file in send_directory and in receive_directory. A read
-- returns as many bytes as `read_size` likes, at least one before the end and at most the limit.
use quiczilla.Prelude.{
  ℕ, zero, suc, ◌-◌, ◌≤◌, ◌≡◌, refl, ap, sym, ◌∙◌, true, ◌||◌, Option, none, some, [], ◌∷◌, ◌++◌,
  ◌==◌, if◌then◌else◌, length, take, drop, length-take, length-drop, min, max, arith, Bool-cases,
  inl, inr,
}
use mathlib.Core.List.{append_assoc, append-nil}
use quiczilla.Prelude.Bytes.{Bytes}
use quiczilla.Peer.Accept.{file_chunk_size}

-- What the loop has written, what its hasher has taken, what is left to be read, and how much of
-- the file is missing.
pub record Copied : Type 0 where
  pub written : Bytes
  pub hasher : Option Bytes
  pub rest : Bytes
  pub remaining : ℕ

abbrev pub update : Option Bytes → Bytes → Option Bytes
update none bytes = none
update (some taken) bytes = some (taken ++ bytes)

-- Taking the first `n`, and then what is missing of `r`.
take-take :
    (n r : ℕ) (s : Bytes) → n ≤ r → take n s ++ take (r - length (take n s)) (drop n s) ≡ take r s
take-take zero r s h = let e : r - 0 ≡ r = omega arith in rw e
take-take (suc n) zero s h = absurd (omega arith)
take-take (suc n) (suc r) [] h = let e : suc r - 0 ≡ suc r = omega arith in rw e
take-take (suc n) (suc r) (x ∷ s) h =
    let e : suc r - suc (length (take n s)) ≡ r - length (take n s) = omega arith in
    ap (λ t. x ∷ t) (rw e (take-take n r s (omega arith)))

drop-take : (n r : ℕ) (s : Bytes) → n ≤ r → drop (r - length (take n s)) (drop n s) ≡ drop r s
drop-take zero r s h = let e : r - 0 ≡ r = omega arith in rw e
drop-take (suc n) zero s h = absurd (omega arith)
drop-take (suc n) (suc r) [] h = let e : suc r - 0 ≡ suc r = omega arith in rw e
drop-take (suc n) (suc r) (x ∷ s) h =
    let e : suc r - suc (length (take n s)) ≡ r - length (take n s) = omega arith in
    rw e (drop-take n r s (omega arith))

update-append :
    (hasher : Option Bytes) (a b : Bytes) → update (update hasher a) b ≡ update hasher (a ++ b)
update-append none a b = refl
update-append (some h) a b = ap some (append_assoc h a b)

update-nil : (hasher : Option Bytes) → update hasher [] ≡ hasher
update-nil none = refl
update-nil (some h) = ap some (append-nil h)

-- All of the file that there is to read.
abbrev pub copied : Option Bytes → ℕ → Bytes → Copied
copied hasher remaining s = record {
  written = take remaining s;
  hasher = update hasher (take remaining s);
  rest = drop remaining s;
  remaining = remaining - length s;
}

Copied-path :
    {w w' r r' : Bytes} {h h' : Option Bytes} {n n' : ℕ}
    → w ≡ w'
    → h ≡ h'
    → r ≡ r'
    → n ≡ n'
    → ◌≡◌ {A = Copied}
        (record { written = w; hasher = h; rest = r; remaining = n })
        (record { written = w'; hasher = h'; rest = r'; remaining = n' })
Copied-path a b c d = cc

copied-stop :
    (hasher : Option Bytes) (remaining : ℕ) (s : Bytes)
    → ((remaining == 0) || (length s == 0)) ≡ true
    → record { written = []; hasher = hasher; rest = s; remaining = remaining }
      ≡ copied hasher remaining s
copied-stop hasher zero s e = Copied-path refl (sym (update-nil hasher)) refl (omega arith)
copied-stop hasher (suc r) [] e = Copied-path refl (sym (update-nil hasher)) refl (omega arith)
copied-stop hasher (suc r) (x ∷ s) e = absurd (ground arith)

copied-step :
    (hasher : Option Bytes) (n r : ℕ) (s : Bytes)
    → n ≤ r
    → record (copied (update hasher (take n s)) (r - length (take n s)) (drop n s)) {
      written = take n s ++ take (r - length (take n s)) (drop n s);
    }
      ≡ copied hasher r s
copied-step hasher n r s h =
    Copied-path (take-take n r s h)
      (update-append hasher (take n s) _ ∙ ap (update hasher) (take-take n r s h))
      (drop-take n r s h) (omega (arith, length-take n s, length-drop n s))

module _ (read_size : ℕ → ℕ) where
  -- `read(&mut buffer[..limit])`
  abbrev pub got : (limit : ℕ) → Bytes → ℕ
  got limit s = max 1 (min (read_size (length s)) limit)

  unfoldable pub copy : (fuel : ℕ) → Option Bytes → (remaining : ℕ) → Bytes → Copied
  copy zero hasher remaining s = record {
    written = [];
    hasher = hasher;
    rest = s;
    remaining = remaining;
  }
  copy (suc fuel) hasher remaining s =
      let n = got (min remaining file_chunk_size) s in
      let r = copy fuel (update hasher (take n s)) (remaining - length (take n s)) (drop n s) in
      if (remaining == 0) || (length s == 0)
      then record { written = []; hasher = hasher; rest = s; remaining = remaining }
      else record r { written = take n s ++ r.written }

  -- However the reads divide the contents, the loop ends within as many rounds as there are bytes
  -- to copy, and it has written and hashed that many bytes of what was there to read.
  pub copy_lem :
      (fuel : ℕ) (hasher : Option Bytes) (remaining : ℕ) (s : Bytes)
      → remaining ≤ fuel
      → copy fuel hasher remaining s ≡ copied hasher remaining s
  unfolding copy
  copy_lem zero hasher remaining s h = copied-stop hasher remaining s (ground arith)
  copy_lem (suc fuel) hasher remaining s h =
      elim (Bool-cases ((remaining == 0) || (length s == 0))) [
        | inl stop ↦ rw (stop, copy) (copied-stop hasher remaining s stop)
        | inr more ↦
            let n = got (min remaining file_chunk_size) s in
            let small : n ≤ remaining = ground arith in
            let pos : 1 ≤ length (take n s) = ground (arith, length-take n s) in
            rw (more, copy)
              (ap (λ (r : Copied). record r { written = take n s ++ r.written })
                  (copy_lem fuel (update hasher (take n s)) (remaining - length (take n s))
                    (drop n s) (omega arith))
                ∙ copied-step hasher n remaining s small)
      ]
