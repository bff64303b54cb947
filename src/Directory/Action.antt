-- ===== src/Directory/Action.antt =====
-- Code that reads from a stream and changes the disk, and that may stop with an error: what it did
-- to the disk before remains.
use quiczilla.Prelude.{Bool, true, false, Result, ok, err}
use quiczilla.Prelude.Bytes.{Bytes}
use quiczilla.Directory.{DirectoryError}

module _ (Disk : Type 0) where
  abbrev pub Action : Type 0 → Type 0
  Action A = Disk → Bytes → Disk × Result DirectoryError (A × Bytes)

module _ {Disk A B : Type 0} where
  abbrev pub continue :
      (A → Action Disk B)
      → Disk × Result DirectoryError (A × Bytes)
      → Disk × Result DirectoryError (B × Bytes)
  continue f (disk, ok (a, s)) = f a disk s
  continue f (disk, err e) = (disk, err e)

  infixl 5 ◌>>=◌
  abbrev pub ◌>>=◌ : Action Disk A → (A → Action Disk B) → Action Disk B
  (m >>= f) disk s = continue f (m disk s)

module _ {Disk B : Type 0} where
  infixl 5 ◌>>◌
  abbrev pub ◌>>◌ : Action Disk (Unit {0}) → Action Disk B → Action Disk B
  m >> k = m >>= λ _. k

abbrev pub with_rest :
    {A : Type 0} → Bytes → Result DirectoryError A → Result DirectoryError (A × Bytes)
with_rest s (ok a) = ok (a, s)
with_rest s (err e) = err e

module _ {Disk A : Type 0} where
  abbrev pub return : A → Action Disk A
  return a disk s = (disk, ok (a, s))

  abbrev pub fail : DirectoryError → Action Disk A
  fail e disk s = (disk, err e)

  -- What only reads.
  abbrev pub reading : (Bytes → Result DirectoryError (A × Bytes)) → Action Disk A
  reading read disk s = (disk, read s)

  -- What only computes.
  abbrev pub pure : Result DirectoryError A → Action Disk A
  pure r disk s = (disk, with_rest s r)

  -- What only changes the disk.
  abbrev pub on_disk : (Disk → Disk × Result DirectoryError A) → Action Disk A
  on_disk f disk s = let (disk', r) = f disk in (disk', with_rest s r)

module _ {Disk : Type 0} where
  abbrev pub stop_if : Bool → DirectoryError → Action Disk (Unit {0})
  stop_if true e = fail e
  stop_if false e = return tt
