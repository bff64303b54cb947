-- ===== src/Directory/Receive/Steps.antt =====
-- The steps that receive_directory is made of, each below the root.
use quiczilla.Prelude.{
  ℕ, zero, suc, ◌≡◌, ap, sym, ◌∙◌, inl, inr, Bool, true, false, leb, none, some, List, [], ◌∷◌,
  ◌++◌, Result, ok, err, arith, All, map, length, length-append, take, if◌then◌else◌, Bool-cases,
  Option-cases, some_inj,
}
use mathlib.Core.Path.{subst}
use mathlib.Core.List.{append-nil}
use quiczilla.Prelude.Bytes.{Bytes, codes}
use quiczilla.Paths.{normal, PathBuf, components, file_name}
use quiczilla.Paths.Names.{IsPlain, IsName}
use quiczilla.Directory.{DirectoryError}
use quiczilla.Directory.Names.{validate_relative_path}
use quiczilla.Directory.Action.{Action, return, fail, reading, pure, stop_if}
use quiczilla.Directory.Disk.{
  Disk, file, directory, symlink, put, resolve, make_directories, create_file, rename,
}
use quiczilla.Directory.Receive.{
  create_safe_directory, receive_parent, part_name, stem, floor_boundary,
}
use quiczilla.Directory.Receive.Sound.{
  Below, AtOrBelow, NoLinks, IsLink, OkAll, Keeps, Keeps-refl, Keeps-trans, put-Keeps, Sound,
  Sound-reading, Sound-on_disk, Sound-bind, make_directories-Keeps,
}

abbrev pub Any : {A : Type 0} → A → Type 0
Any a = Unit

pub OkAll-Any : {A : Type 0} (r : Result DirectoryError A) → OkAll Any r
OkAll-Any (ok a) = tt
OkAll-Any (err e) = tt

take-IsPlain : (n : ℕ) (s : Bytes) → IsPlain s → IsPlain (take n s)
take-IsPlain zero s h = tt
take-IsPlain (suc n) [] h = tt
take-IsPlain (suc n) (c ∷ s) h = (h.0, take-IsPlain n s h.1)

append-IsPlain : (s t : Bytes) → IsPlain s → IsPlain t → IsPlain (s ++ t)
append-IsPlain [] t h k = k
append-IsPlain (c ∷ s) t h k = (h.0, append-IsPlain s t h.1 k)

stem-IsPlain : (name : Bytes) → IsPlain name → IsPlain (stem name)
stem-IsPlain name h = elim (Bool-cases (leb (length name) 240)) [
  | inl short ↦ rw short h
  | inr long ↦ rw long (take-IsPlain (floor_boundary name 240) name h)
]

-- The part file has a plain name.
pub part_name-IsName : (name : Bytes) → IsPlain name → IsName (part_name name)
unfolding part_name
part_name-IsName name h = record {
  plain = (
    omega arith,
    append-IsPlain (stem name) (codes ".quic-part") (stem-IsPlain name h) (ground arith),
  );
  nonempty = λ e. cc e;
  not_current =
      λ e. absurd (omega (arith, ap length e, length-append (stem name) (codes ".quic-part")));
  not_parent =
      λ e. absurd (omega (arith, ap length e, length-append (stem name) (codes ".quic-part")));
}

pub file_name-IsPlain :
    (root : PathBuf) (seg : Bytes) (segs : List Bytes) (name : Bytes)
    → IsPlain seg
    → All IsPlain segs
    → file_name (root ++ map normal (seg ∷ segs)) ≡ some name
    → IsPlain name
unfolding file_name
file_name-IsPlain [] seg [] name h hs e = subst IsPlain (some_inj e) h
file_name-IsPlain [] seg (s ∷ segs) name h hs e = file_name-IsPlain [] s segs name hs.0 hs.1 e
file_name-IsPlain (normal t ∷ []) seg segs name h hs e = file_name-IsPlain [] seg segs name h hs e
file_name-IsPlain (_ ∷ []) seg segs name h hs e = file_name-IsPlain [] seg segs name h hs e
file_name-IsPlain (normal t ∷ d ∷ root) seg segs name h hs e =
    file_name-IsPlain (d ∷ root) seg segs name h hs e
file_name-IsPlain (_ ∷ d ∷ root) seg segs name h hs e =
    file_name-IsPlain (d ∷ root) seg segs name h hs e

module _ (root : PathBuf) where
  pub Sound-return : {A : Type 0} (P : A → Type 0) (a : A) → P a → Sound root P (return a)
  Sound-return P a h = record { run = λ disk s nl. (Keeps-refl root disk nl, h) }

  pub Sound-fail : {A : Type 0} (e : DirectoryError) → Sound root (Any {A = A}) (fail e)
  Sound-fail e = record { run = λ disk s nl. (Keeps-refl root disk nl, tt) }

  pub Sound-Any :
      {A : Type 0} (read : Bytes → Result DirectoryError (A × Bytes))
      → Sound root Any (reading read)
  Sound-Any read = Sound-reading root Any read λ s. OkAll-Any (read s)

  pub Sound-stop_if : (b : Bool) (e : DirectoryError) → Sound root Any (stop_if b e)
  Sound-stop_if true e = record { run = λ disk s nl. (Keeps-refl root disk nl, tt) }
  Sound-stop_if false e = record { run = λ disk s nl. (Keeps-refl root disk nl, tt) }

  pub Sound-if :
      {A : Type 0} {P : A → Type 0} {m k : Action Disk A} (b : Bool)
      → Sound root P m
      → Sound root P k
      → Sound root P (if b then m else k)
  Sound-if true h k = h
  Sound-if false h k = k

  pub Sound-pure :
      {A : Type 0} (P : A → Type 0) (r : Result DirectoryError A)
      → OkAll P r
      → Sound root P (pure r)
  Sound-pure P (ok a) h = record { run = λ disk s nl. (Keeps-refl root disk nl, h) }
  Sound-pure P (err e) h = record { run = λ disk s nl. (Keeps-refl root disk nl, tt) }

  pub Sound-create_safe_directory :
      (relative : Bytes) → Sound root (AtOrBelow root) (create_safe_directory root relative)
  unfolding create_safe_directory
  Sound-create_safe_directory relative =
      Sound-bind root Any (AtOrBelow root) _ _
        (Sound-pure Any (validate_relative_path relative)
          (OkAll-Any (validate_relative_path relative)))
        λ _ _.
          Sound-on_disk root (AtOrBelow root) (make_directories root (components relative))
            λ disk nl.
              make_directories-Keeps root root (components relative) disk
                ([], sym (append-nil root)) nl

  pub Sound-receive_parent : (path : Bytes) → Sound root (AtOrBelow root) (receive_parent root path)
  Sound-receive_parent [] = Sound-return (AtOrBelow root) root ([], sym (append-nil root))
  Sound-receive_parent (c ∷ path) = Sound-create_safe_directory (c ∷ path)

  -- What is opened is the file itself, since it is no link.
  pub create_file-Keeps :
      (path : PathBuf) (disk : Disk)
      → Below root path
      → NoLinks root disk
      → Keeps root disk (create_file path disk).0 × OkAll (Below root) (create_file path disk).1
  unfolding create_file resolve
  create_file-Keeps path disk (c, p, at) nl = elim (Option-cases (disk path)) [
    | inl e ↦
        rw (e, resolve)
          (rw e (put-Keeps root disk path (some (file [])) (c, p, at) (λ l. cc l.1) nl, (c, p, at)))
    | inr (directory, e) ↦ rw (e, resolve) (rw e (Keeps-refl root disk nl, tt))
    | inr (file bytes, e) ↦
        rw (e, resolve)
          (rw e (put-Keeps root disk path (some (file [])) (c, p, at) (λ l. cc l.1) nl, (c, p, at)))
    | inr (symlink target, e) ↦ absurd (nl (c ∷ p) target (ap disk (sym at) ∙ e))
  ]

  pub rename-Keeps :
      (from to : PathBuf) (disk : Disk)
      → Below root from
      → Below root to
      → NoLinks root disk
      → Keeps root disk (rename from to disk).0 × OkAll Any (rename from to disk).1
  unfolding rename
  rename-Keeps from to disk (c, p, at) below nl =
      let gone = put-Keeps root disk from none (c, p, at) (λ l. cc l.1) nl in
      let is_file : IsLink (disk from) → ⊥ = λ l. nl (c ∷ p) l.0 (ap disk (sym at) ∙ l.1) in
      let there = put-Keeps root (put disk from none) to (disk from) below is_file gone.0 in
      let moved = Keeps-trans root disk _ _ gone there in
      elim (Option-cases (disk to)) [
        | inl e ↦ rw e (moved, tt)
        | inr (directory, e) ↦ rw e (Keeps-refl root disk nl, tt)
        | inr (file bytes, e) ↦ rw e (moved, tt)
        | inr (symlink target, e) ↦ rw e (moved, tt)
      ]
