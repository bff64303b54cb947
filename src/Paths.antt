-- ===== src/Paths.antt =====
-- `std::path` on Unix, and the characters of names. A text is its code points; a path is its
-- components, as `Path` compares them.
pub mod Names
use quiczilla.Prelude.{
  ℕ, zero, suc, ◌+◌, ◌-◌, ◌<◌, ◌≡◌, Bool, true, false, not, ◌&&◌, ◌||◌, Option, none, some, List,
  [], ◌∷◌, ◌++◌, ltb, leb, ◌==◌, if◌then◌else◌,
}
use quiczilla.Prelude.Bytes.{eq_bytes, codes}
use mathlib.Core.List.{reverse}

abbrev pub Text : Type 0
Text = List ℕ

pub data Component : Type 0 where
  root_dir cur_dir parent_dir : Component
  normal : Text → Component

abbrev pub PathBuf : Type 0
PathBuf = List Component

-- `char::is_control`: the general category Cc.
unfoldable pub is_control : ℕ → Bool
is_control c = ltb c 0x20 || (leb 0x7F c && ltb c 0xA0)

unfoldable pub trim_start : (ℕ → Bool) → Text → Text
trim_start p [] = []
trim_start p (c ∷ s) = let rest = trim_start p s in if p c then rest else c ∷ s

-- `s.trim_matches(p)`
unfoldable pub trim_matches : (ℕ → Bool) → Text → Text
trim_matches p s = reverse (trim_start p (reverse (trim_start p s)))

-- `s.split('/')`: the first segment, and the others.
unfoldable pub split_slash : Text → Text × List Text
split_slash [] = ([], [])
split_slash (c ∷ s) =
    let (seg, segs) = split_slash s in if c == b'/' then ([], seg ∷ segs) else (c ∷ seg, segs)

abbrev pub segments : Text → List Text
segments s = (split_slash s).0 ∷ (split_slash s).1

-- Empty segments and `.` are dropped behind the first component.
unfoldable pub inner_components : List Text → PathBuf
inner_components [] = []
inner_components (seg ∷ segs) =
    let rest = inner_components segs in
    if eq_bytes seg [] || eq_bytes seg (codes ".")
    then rest
    else if eq_bytes seg (codes "..")
    then parent_dir ∷ rest
    else normal seg ∷ rest

-- `Path::new(s).components()`
unfoldable pub components : Text → PathBuf
components [] = []
components (c ∷ s) =
    if c == b'/'
    then root_dir ∷ inner_components (segments s)
    else if eq_bytes (split_slash (c ∷ s)).0 (codes ".")
    then cur_dir ∷ inner_components (split_slash (c ∷ s)).1
    else inner_components (segments (c ∷ s))

-- `path.file_name()`: the last component, if it is a name.
unfoldable pub file_name : PathBuf → Option Text
file_name [] = none
file_name (normal s ∷ []) = some s
file_name (c ∷ []) = none
file_name (c ∷ d ∷ p) = file_name (d ∷ p)

-- `path.join(s)`: an absolute text replaces the path.
unfoldable pub join_components : PathBuf → PathBuf → PathBuf
join_components [] p = p
join_components base (root_dir ∷ p) = root_dir ∷ p
join_components base (cur_dir ∷ p) = base ++ p
join_components base p = base ++ p

unfoldable pub join : PathBuf → Text → PathBuf
join base s = join_components base (components s)

-- `path.with_file_name(name)` for a plain name.
unfoldable pub with_file_name : PathBuf → Text → PathBuf
with_file_name [] name = normal name ∷ []
with_file_name (normal s ∷ []) name = normal name ∷ []
with_file_name (c ∷ []) name = c ∷ normal name ∷ []
with_file_name (c ∷ d ∷ p) name = c ∷ with_file_name (d ∷ p) name

abbrev pub or_default : Option Text → Text
or_default none = []
or_default (some s) = s

abbrev pub eq_component : Component → Component → Bool
eq_component root_dir root_dir = true
eq_component cur_dir cur_dir = true
eq_component parent_dir parent_dir = true
eq_component (normal a) (normal b) = eq_bytes a b
eq_component _ _ = false

abbrev pub eq_path : PathBuf → PathBuf → Bool
eq_path [] [] = true
eq_path (c ∷ p) (d ∷ q) = eq_component c d && eq_path p q
eq_path _ _ = false
