-- ===== src/Directory/Receive/Ends.antt =====
-- Actions that leave no more of the stream than there was, and never run out of fuel.
use quiczilla.Prelude.{
  ℕ, ◌≤◌, ◌≢◌, ap, Bool, true, false, not, ◌||◌, ◌==◌, ltb, Option, none, some, List, [], ◌∷◌, ◌++◌,
  Result, ok, err, bail_if, ◌>>=◌, arith, length, length-append, any, if◌then◌else◌, Option-cases,
  inl, inr,
}
use mathlib.Core.Path.{subst}
use quiczilla.Prelude.Bytes.{Bytes, read_exact, read_exact-eq_some}
use quiczilla.Prelude.Utf8.{is_utf8}
use quiczilla.Paths.{
  Component, normal, root_dir, cur_dir, parent_dir, PathBuf, segments, components,
}
use quiczilla.Directory.{
  DirectoryError, out_of_fuel, invalid_path, relative_segment, not_relative, unsafe_component,
  path_length_invalid, path_not_utf8, max_path_bytes,
}
use quiczilla.Directory.Names.{
  validate_relative_path, safe_child, push_names, is_invalid, is_relative, is_unsafe,
  no_relative_path,
}
use quiczilla.Directory.Wire.{read_u8, read_bytes, read_uint, read_u32, read_path}
use quiczilla.Directory.Action.{
  Action, return, reading, pure, on_disk, stop_if, with_rest, continue,
}
use quiczilla.Directory.Disk.{
  Disk, Node, file, directory, symlink, put, make_directories, open_file, open_resolved, move,
}
use quiczilla.Directory.Receive.{create_safe_directory}

abbrev pub Ran : DirectoryError → Type 0
Ran out_of_fuel = ⊥
Ran _ = Unit

abbrev pub RanAll : {A : Type 0} → Result DirectoryError A → Type 0
RanAll (ok a) = Unit
RanAll (err e) = Ran e

-- What is left is no longer, and the error is one of the program.
abbrev pub Uses : {A : Type 0} → ℕ → Result DirectoryError (A × Bytes) → Type 0
Uses n (ok (a, rest)) = length rest ≤ n
Uses n (err e) = Ran e

pub record Ends {A : Type 0} (m : Action Disk A) : Type 0 where
  pub run : (disk : Disk) (s : Bytes) → Uses (length s) (m disk s).1

pub Uses-le :
    {A : Type 0} (n k : ℕ) (r : Result DirectoryError (A × Bytes)) → n ≤ k → Uses n r → Uses k r
Uses-le n k (ok (a, rest)) h u = omega arith
Uses-le n k (err e) h u = u

module _ {A B : Type 0} where
  pub Ends-bind :
      (m : Action Disk A) (f : A → Action Disk B)
      → Ends m
      → ((a : A) → Ends (f a))
      → Ends (λ disk s. continue f (m disk s))
  Ends-bind m f h k = record { run = λ disk s. go (length s) (m disk s) (h.run disk s) }
    where
      go :
          (n : ℕ) (r : Disk × Result DirectoryError (A × Bytes))
          → Uses n r.1
          → Uses n (continue f r).1
      go n (disk, ok (a, rest)) u =
          Uses-le (length rest) n (f a disk rest).1 u ((k a).run disk rest)
      go n (disk, err e) u = u

module _ {A : Type 0} where
  pub Ends-return : (a : A) → Ends (return a)
  Ends-return a = record { run = λ disk s. omega arith }

  pub Ends-reading :
      (read : Bytes → Result DirectoryError (A × Bytes))
      → ((s : Bytes) → Uses (length s) (read s))
      → Ends (reading read)
  Ends-reading read h = record { run = λ disk s. h s }

  pub Uses-with_rest :
      (s : Bytes) (r : Result DirectoryError A) → RanAll r → Uses (length s) (with_rest s r)
  Uses-with_rest s (ok a) h = omega arith
  Uses-with_rest s (err e) h = h

  pub Ends-pure : (r : Result DirectoryError A) → RanAll r → Ends (pure r)
  Ends-pure r h = record { run = λ disk s. Uses-with_rest s r h }

  pub Ends-on_disk :
      (f : Disk → Disk × Result DirectoryError A)
      → ((disk : Disk) → RanAll (f disk).1)
      → Ends (on_disk f)
  Ends-on_disk f h = record { run = λ disk s. Uses-with_rest s (f disk).1 (h disk) }

  pub Ends-if : {m k : Action Disk A} (b : Bool) → Ends m → Ends k → Ends (if b then m else k)
  Ends-if true h k = h
  Ends-if false h k = k

pub Ends-stop_if : (b : Bool) (e : DirectoryError) → Ran e → Ends (stop_if b e)
Ends-stop_if true e h = record { run = λ disk s. h }
Ends-stop_if false e h = record { run = λ disk s. omega arith }

pub Uses-read_u8 : (s : Bytes) → Uses (length s) (read_u8 s)
unfolding read_u8
Uses-read_u8 [] = tt
Uses-read_u8 (b ∷ s) = omega arith

pub Uses-read_bytes : (n : ℕ) (s : Bytes) → Uses (length s) (read_bytes n s)
unfolding read_bytes
Uses-read_bytes n s = elim (Option-cases (read_exact n s)) [
  | inl e ↦ rw e tt
  | inr ((xs, rest), e) ↦
      rw e (omega (arith, ap length (read_exact-eq_some n s xs rest e).0, length-append xs rest))
]

pub Uses-then :
    {A B : Type 0} (n : ℕ) (m : Result DirectoryError (A × Bytes))
    (f : A × Bytes → Result DirectoryError (B × Bytes))
    → Uses n m
    → ((r : A × Bytes) → length r.1 ≤ n → Uses n (f r))
    → Uses n (m >>= f)
Uses-then n (ok r) f u h = h r u
Uses-then n (err e) f u h = u

pub Uses-check :
    {A B : Type 0} (n : ℕ) (m : Result DirectoryError A) (f : A → Result DirectoryError (B × Bytes))
    → RanAll m
    → ((a : A) → Uses n (f a))
    → Uses n (m >>= f)
Uses-check n (ok a) f u h = h a
Uses-check n (err e) f u h = u

pub RanAll-then :
    {A B : Type 0} (m : Result DirectoryError A) (f : A → Result DirectoryError B)
    → RanAll m
    → ((a : A) → RanAll (f a))
    → RanAll (m >>= f)
RanAll-then (ok a) f u h = h a
RanAll-then (err e) f u h = u

pub RanAll-bail_if : (b : Bool) (e : DirectoryError) → Ran e → RanAll (bail_if b e)
RanAll-bail_if true e h = h
RanAll-bail_if false e h = tt

pub Uses-read_uint : (w : ℕ) (s : Bytes) → Uses (length s) (read_uint w s)
unfolding read_uint
Uses-read_uint w s = Uses-then (length s) (read_bytes w s) _ (Uses-read_bytes w s) λ r h. h

pub RanAll-validate : (value : Bytes) → RanAll (validate_relative_path value)
unfolding validate_relative_path
RanAll-validate value =
    RanAll-then (bail_if (is_invalid value) invalid_path) _
      (RanAll-bail_if (is_invalid value) invalid_path tt)
      λ _.
        RanAll-then (bail_if (any is_relative (segments value)) relative_segment) _
          (RanAll-bail_if _ relative_segment tt)
          λ _.
            RanAll-then (bail_if (no_relative_path (components value)) not_relative) _
              (RanAll-bail_if _ not_relative tt)
              λ _.
                RanAll-then (bail_if (any is_unsafe (components value)) unsafe_component) _
                  (RanAll-bail_if _ unsafe_component tt) λ _. tt

pub RanAll-safe_child : (root : PathBuf) (relative : Bytes) → RanAll (safe_child root relative)
unfolding safe_child
RanAll-safe_child root relative =
    RanAll-then (validate_relative_path relative) (λ _. ok (push_names root (components relative)))
      (RanAll-validate relative) λ _. tt

pub Uses-read_path : (s : Bytes) → Uses (length s) (read_path s)
unfolding read_path read_u32
Uses-read_path s = Uses-then (length s) (read_uint 4 s) _ (Uses-read_uint 4 s) λ r h.
    Uses-check (length s) (bail_if ((r.0 == 0) || ltb max_path_bytes r.0) path_length_invalid) _
      (RanAll-bail_if _ path_length_invalid tt)
      λ _.
        Uses-then (length s) (read_bytes r.0 r.1) _
          (Uses-le (length r.1) (length s) (read_bytes r.0 r.1) h (Uses-read_bytes r.0 r.1))
          λ v k.
            Uses-check (length s) (bail_if (not (is_utf8 v.0)) path_not_utf8) _
              (RanAll-bail_if _ path_not_utf8 tt)
              λ _.
                Uses-check (length s) (validate_relative_path v.0) (λ _. ok (v.0, v.1))
                  (RanAll-validate v.0) λ _. k

pub RanAll-make_directories :
    (current : PathBuf) (p : List Component) (disk : Disk)
    → RanAll (make_directories current p disk).1
unfolding make_directories
RanAll-make_directories current [] disk = tt
RanAll-make_directories current (normal name ∷ p) disk =
    let path = current ++ (normal name ∷ []) in
    elim (Option-cases (disk path)) [
      | inl e ↦
          rw (e, make_directories) (RanAll-make_directories path p (put disk path (some directory)))
      | inr (directory, e) ↦ rw (e, make_directories) (RanAll-make_directories path p disk)
      | inr (symlink target, e) ↦ rw (e, make_directories) tt
      | inr (file bytes, e) ↦ rw (e, make_directories) tt
    ]
RanAll-make_directories current (root_dir ∷ p) disk = RanAll-make_directories current p disk
RanAll-make_directories current (cur_dir ∷ p) disk = RanAll-make_directories current p disk
RanAll-make_directories current (parent_dir ∷ p) disk = RanAll-make_directories current p disk

pub RanAll-open_file :
    (disk : Disk) (path : PathBuf) (there : Option Node) → RanAll (open_file disk path there).1
RanAll-open_file disk path none = tt
RanAll-open_file disk path (some directory) = tt
RanAll-open_file disk path (some (file bytes)) = tt
RanAll-open_file disk path (some (symlink target)) = tt

pub RanAll-open_resolved :
    (disk : Disk) (path : Option PathBuf) → RanAll (open_resolved disk path).1
RanAll-open_resolved disk none = tt
RanAll-open_resolved disk (some path) = RanAll-open_file disk path (disk path)

pub RanAll-move :
    (from to : PathBuf) (disk : Disk) (there : Option Node) → RanAll (move from to disk there).1
RanAll-move from to disk none = tt
RanAll-move from to disk (some directory) = tt
RanAll-move from to disk (some (file bytes)) = tt
RanAll-move from to disk (some (symlink target)) = tt

pub Ends-create_safe_directory :
    (root : PathBuf) (relative : Bytes) → Ends (create_safe_directory root relative)
unfolding create_safe_directory
Ends-create_safe_directory root relative =
    Ends-bind (pure (validate_relative_path relative))
      (λ _. on_disk (make_directories root (components relative)))
      (Ends-pure (validate_relative_path relative) (RanAll-validate relative))
      λ _. Ends-on_disk _ (RanAll-make_directories root (components relative))

pub RanAll-ne : {A : Type 0} (r : Result DirectoryError A) → RanAll r → r ≢ err out_of_fuel
RanAll-ne {A = A} r h e = subst (λ (x : Result DirectoryError A). RanAll x) e h
