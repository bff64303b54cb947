-- ===== src/Directory/Receive/Sound.antt =====
-- Actions that change the disk only below a root, and leave no link there.
use quiczilla.Prelude.{
  ◌≡◌, ◌≢◌, refl, ap, sym, ◌∙◌, ◌⊎◌, inl, inr, true, Option, some, List, [], ◌∷◌, ◌++◌, Result, ok,
  err, arith, Option-cases,
}
use mathlib.Core.Path.{subst}
use mathlib.Core.List.{append_assoc}
use quiczilla.Prelude.Bytes.{Bytes, eq_bytes_iff}
use quiczilla.Paths.{
  Component, normal, root_dir, cur_dir, parent_dir, PathBuf, eq_component, eq_path,
}
use quiczilla.Directory.{DirectoryError}
use quiczilla.Directory.Action.{Action, ◌>>=◌, reading, on_disk, with_rest, continue}
use quiczilla.Directory.Disk.{Disk, Node, file, directory, symlink, put, make_directories}

eq_component-eq : (c d : Component) → eq_component c d ≡ true → c ≡ d
eq_component-eq (normal a) (normal b) h = ap normal ((eq_bytes_iff a b).0 h)
eq_component-eq root_dir root_dir h = refl
eq_component-eq cur_dir cur_dir h = refl
eq_component-eq parent_dir parent_dir h = refl
eq_component-eq _ _ h = cc

eq_path-eq : (p q : PathBuf) → eq_path p q ≡ true → p ≡ q
eq_path-eq [] [] h = refl
eq_path-eq [] (d ∷ q) h = cc
eq_path-eq (c ∷ p) [] h = cc
eq_path-eq (c ∷ p) (d ∷ q) h = ground (arith, eq_component-eq c d, eq_path-eq p q)

abbrev pub Below : PathBuf → PathBuf → Type 0
Below root q = (c : Component) × (p : PathBuf) × (q ≡ root ++ (c ∷ p))

-- No symbolic link at the root or below it.
abbrev pub NoLinks : PathBuf → Disk → Type 0
NoLinks root disk = (p target : PathBuf) → disk (root ++ p) ≢ some (symlink target)

abbrev pub IsLink : Option Node → Type 0
IsLink node = (target : PathBuf) × (node ≡ some (symlink target))

pub put-cases :
    (disk : Disk) (path q : PathBuf) (new : Option Node)
    → ((path ≡ q) × (put disk path new q ≡ new)) ⊎ (put disk path new q ≡ disk q)
unfolding put
put-cases disk path q new = ground (arith, eq_path-eq path q)

abbrev pub OkAll : {A : Type 0} → (A → Type 0) → Result DirectoryError A → Type 0
OkAll P (ok a) = P a
OkAll P (err e) = Unit

-- The root or a path below it.
abbrev pub AtOrBelow : PathBuf → PathBuf → Type 0
AtOrBelow root q = (p : PathBuf) × (q ≡ root ++ p)

module _ (root : PathBuf) where
  -- From a disk without links below the root: nl link appears, and outside nothing changes.
  abbrev pub Keeps : Disk → Disk → Type 0
  Keeps disk disk' = NoLinks root disk' × ((q : PathBuf) → (Below root q → ⊥) → disk' q ≡ disk q)

  pub Keeps-refl : (disk : Disk) → NoLinks root disk → Keeps disk disk
  Keeps-refl disk h = (h, λ q out. refl)

  pub Keeps-trans : (a b c : Disk) → Keeps a b → Keeps b c → Keeps a c
  Keeps-trans a b c h k = (k.0, λ q out. k.1 q out ∙ h.1 q out)

  pub put-Keeps :
      (disk : Disk) (path : PathBuf) (node : Option Node)
      → Below root path
      → (IsLink node → ⊥)
      → NoLinks root disk
      → Keeps disk (put disk path node)
  put-Keeps disk path node below link h = (
    λ p target e. elim (put-cases disk path (root ++ p) node) [
      | inl (same, k) ↦ link (target, sym k ∙ e)
      | inr k ↦ h p target (sym k ∙ e)
    ],
    λ q out. elim (put-cases disk path q node) [
      | inl (same, k) ↦ absurd (out (subst (Below root) same below))
      | inr k ↦ k
    ],
  )

-- An action that keeps this from every such disk, and whose result, if it has one, is in `P`.
pub record Sound (root : PathBuf) {A : Type 0} (P : A → Type 0) (m : Action Disk A) : Type 0 where
  pub run :
      (disk : Disk) (s : Bytes)
      → NoLinks root disk
      → Keeps root disk (m disk s).0 × OkAll (λ r. P r.0) (m disk s).1

module _ (root : PathBuf) where
  pub Sound-reading :
      {A : Type 0} (P : A → Type 0) (read : Bytes → Result DirectoryError (A × Bytes))
      → ((s : Bytes) → OkAll (λ r. P r.0) (read s))
      → Sound root P (reading read)
  Sound-reading P read h = record { run = λ disk s nl. (Keeps-refl root disk nl, h s) }

  pub Sound-on_disk :
      {A : Type 0} (P : A → Type 0) (f : Disk → Disk × Result DirectoryError A)
      → ((disk : Disk) → NoLinks root disk → Keeps root disk (f disk).0 × OkAll P (f disk).1)
      → Sound root P (on_disk f)
  Sound-on_disk P f h = record {
    run = λ disk s nl.
        let (keeps, result) = h disk nl in (keeps, OkAll-with_rest P s (f disk).1 result);
  }
    where
      OkAll-with_rest :
          {A : Type 0} (P : A → Type 0) (s : Bytes) (r : Result DirectoryError A)
          → OkAll P r
          → OkAll (λ p. P p.0) (with_rest s r)
      OkAll-with_rest P s (ok a) h = h
      OkAll-with_rest P s (err e) h = tt

  pub Sound-bind :
      {A B : Type 0} (P : A → Type 0) (Q : B → Type 0) (m : Action Disk A) (f : A → Action Disk B)
      → Sound root P m
      → ((a : A) → P a → Sound root Q (f a))
      → Sound root Q (m >>= f)
  Sound-bind {A = A} {B = B} P Q m f h k = record {
    run = λ disk s nl. go disk (m disk s) (h.run disk s nl);
  }
    where
      go :
          (disk : Disk) (r : Disk × Result DirectoryError (A × Bytes))
          → Keeps root disk r.0 × OkAll (λ a. P a.0) r.1
          → Keeps root disk (continue f r).0 × OkAll (λ b. Q b.0) (continue f r).1
      go disk (disk', ok (a, rest)) (keeps, p) =
          let (keeps', q) = (k a p).run disk' rest keeps.0 in
          (Keeps-trans root disk disk' _ keeps keeps', q)
      go disk (disk', err e) (keeps, p) = (keeps, tt)

  pub Below-snoc :
      (x : PathBuf) (name : Bytes) (path : PathBuf)
      → path ≡ root ++ (x ++ (normal name ∷ []))
      → Below root path
  Below-snoc [] name path e = (normal name, [], e)
  Below-snoc (c ∷ x) name path e = (c, x ++ (normal name ∷ []), e)

  pub make_directories-Keeps :
      (current : PathBuf) (p : List Component) (disk : Disk)
      → AtOrBelow root current
      → NoLinks root disk
      → Keeps root disk (make_directories current p disk).0
        × OkAll (AtOrBelow root) (make_directories current p disk).1
  unfolding make_directories
  make_directories-Keeps current [] disk at nl = (Keeps-refl root disk nl, at)
  make_directories-Keeps current (normal name ∷ p) disk (x, e) nl =
      let path = current ++ (normal name ∷ []) in
      let here : path ≡ root ++ (x ++ (normal name ∷ [])) =
        ap (λ t. t ++ (normal name ∷ [])) e ∙ append_assoc root x _ in
      elim (Option-cases (disk path)) [
        | inl e' ↦
            let made =
              put-Keeps root disk path (some directory) (Below-snoc x name path here) (λ l. cc l.1)
                nl in
            let (keeps, at) =
              make_directories-Keeps path p (put disk path (some directory))
                (x ++ (normal name ∷ []), here) made.0 in
            rw (e', make_directories) (Keeps-trans root disk _ _ made keeps, at)
        | inr (directory, e') ↦
            rw (e', make_directories)
              (make_directories-Keeps path p disk (x ++ (normal name ∷ []), here) nl)
        | inr (symlink target, e') ↦ rw (e', make_directories) (Keeps-refl root disk nl, tt)
        | inr (file bytes, e') ↦ rw (e', make_directories) (Keeps-refl root disk nl, tt)
      ]
  make_directories-Keeps current (root_dir ∷ p) disk at nl =
      make_directories-Keeps current p disk at nl
  make_directories-Keeps current (cur_dir ∷ p) disk at nl =
      make_directories-Keeps current p disk at nl
  make_directories-Keeps current (parent_dir ∷ p) disk at nl =
      make_directories-Keeps current p disk at nl
