-- ===== src/Paths/Names.antt =====
-- A file name is one component: nothing in it is read as a separator, a parent or a root.
use quiczilla.Prelude.{◌≡◌, refl, ap, ◌≢◌, some, List, [], ◌∷◌, ◌++◌, arith, All, some_inj}
use mathlib.Core.Path.{subst}
use mathlib.Core.List.{append-nil}
use quiczilla.Prelude.Bytes.{codes, eq_bytes_iff}
use quiczilla.Paths.{
  Text, normal, root_dir, cur_dir, parent_dir, PathBuf, split_slash, segments, inner_components,
  components, file_name, join, join_components, with_file_name,
}

-- A name that `file_name` may return.
pub record IsName (s : Text) : Type 0 where
  pub plain : All (λ c. c ≢ b'/') s
  pub nonempty : s ≢ []
  pub not_current : s ≢ codes "."
  pub not_parent : s ≢ codes ".."

abbrev pub IsPlain : Text → Type 0
IsPlain s = All (λ c. c ≢ b'/') s

pub split-IsPlain : (s : Text) → IsPlain (split_slash s).0 × All IsPlain (split_slash s).1
unfolding split_slash
split-IsPlain [] = (tt, tt)
split-IsPlain (c ∷ s) = ground (arith, split-IsPlain s)

AllNames : PathBuf → Type 0
AllNames [] = Unit
AllNames (normal s ∷ p) = IsName s × AllNames p
AllNames (c ∷ p) = AllNames p

inner_components-AllNames : (segs : List Text) → All IsPlain segs → AllNames (inner_components segs)
unfolding inner_components AllNames
inner_components-AllNames [] h = tt
inner_components-AllNames (seg ∷ segs) h = ground (
  arith,
  inner_components-AllNames segs,
  eq_bytes_iff seg [],
  eq_bytes_iff seg (codes "."),
  eq_bytes_iff seg (codes ".."),
)

components-AllNames : (s : Text) → AllNames (components s)
unfolding components AllNames
components-AllNames [] = tt
components-AllNames (c ∷ s) = ground (
  arith,
  split-IsPlain (c ∷ s),
  inner_components-AllNames (segments (c ∷ s)),
  inner_components-AllNames (split_slash (c ∷ s)).1,
  inner_components-AllNames (segments s),
  split-IsPlain s,
)

file_name-AllNames : (p : PathBuf) (s : Text) → AllNames p → file_name p ≡ some s → IsName s
unfolding file_name AllNames
file_name-AllNames [] s h e = cc
file_name-AllNames (normal t ∷ []) s h e = subst IsName (some_inj e) h.0
file_name-AllNames (root_dir ∷ []) s h e = cc
file_name-AllNames (cur_dir ∷ []) s h e = cc
file_name-AllNames (parent_dir ∷ []) s h e = cc
file_name-AllNames (normal t ∷ d ∷ p) s h e = file_name-AllNames (d ∷ p) s h.1 e
file_name-AllNames (root_dir ∷ d ∷ p) s h e = file_name-AllNames (d ∷ p) s h e
file_name-AllNames (cur_dir ∷ d ∷ p) s h e = file_name-AllNames (d ∷ p) s h e
file_name-AllNames (parent_dir ∷ d ∷ p) s h e = file_name-AllNames (d ∷ p) s h e

-- Whatever the text, a file name that is taken from it is a plain name.
pub file_name-IsName : (t s : Text) → file_name (components t) ≡ some s → IsName s
file_name-IsName t s = file_name-AllNames (components t) s (components-AllNames t)

split-plain : (s : Text) → IsPlain s → split_slash s ≡ (s, [])
unfolding split_slash
split-plain [] h = refl
split-plain (c ∷ s) h = ground (arith, split-plain s h.1)

components-name : (s : Text) → IsName s → components s ≡ normal s ∷ []
unfolding components inner_components
components-name [] h = absurd (h.nonempty refl)
components-name (c ∷ s) h = ground (
  arith,
  split-plain (c ∷ s) h.plain,
  eq_bytes_iff (c ∷ s) (codes "."),
  eq_bytes_iff (c ∷ s) (codes ".."),
)

pub join-name : (base : PathBuf) (s : Text) → IsName s → join base s ≡ base ++ (normal s ∷ [])
unfolding join join_components
join-name [] s h = components-name s h
join-name (c ∷ base) s h = rw (components-name s h, join_components) refl

pub file_name-snoc : (p : PathBuf) (s : Text) → file_name (p ++ (normal s ∷ [])) ≡ some s
unfolding file_name
file_name-snoc [] s = refl
file_name-snoc (normal t ∷ []) s = refl
file_name-snoc (_ ∷ []) s = refl
file_name-snoc (c ∷ d ∷ p) s = file_name-snoc (d ∷ p) s

pub with_file_name-snoc :
    (p : PathBuf) (s t : Text) → with_file_name (p ++ (normal s ∷ [])) t ≡ p ++ (normal t ∷ [])
unfolding with_file_name
with_file_name-snoc [] s t = refl
with_file_name-snoc (normal u ∷ []) s t = refl
with_file_name-snoc (_ ∷ []) s t = refl
with_file_name-snoc (c ∷ d ∷ p) s t = ap (λ q. c ∷ q) (with_file_name-snoc (d ∷ p) s t)

-- Joining the empty text changes nothing.
pub join-empty : (base : PathBuf) → join base [] ≡ base
unfolding join join_components components
join-empty [] = refl
join-empty (c ∷ base) = append-nil (c ∷ base)
