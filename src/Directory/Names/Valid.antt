-- ===== src/Directory/Names/Valid.antt =====
-- Which paths the protocol takes, and where they lead.
use quiczilla.Prelude.{
  ℕ, ◌≤◌, ◌≡◌, ◌≢◌, refl, sym, ap, ◌∙◌, ◌↔◌, Bool, true, false, List, [], ◌∷◌, ◌++◌, Result, ok,
  map, length, any, All, arith, Result-cases, ok_inj, inl, inr, ◌==◌, bail_if, ◌>>◌,
}
use mathlib.Core.List.{append_assoc, append-nil}
use quiczilla.Prelude.Bytes.{Bytes}
use quiczilla.Paths.{normal, PathBuf, split_slash, segments, components, inner_components}
use quiczilla.Directory.{max_path_bytes, DirectoryError}
use quiczilla.Directory.Names.{
  has_control, is_invalid, starts_with, is_relative, no_relative_path, is_unsafe, has_bad_byte,
  validate_relative_path, push_names, safe_child,
}

-- A segment that is one plain name: no separator of any platform, and no control character.
pub record IsSafeName (s : Bytes) : Type 0 where
  pub proper : is_relative s ≡ false
  pub no_control : has_control s ≡ false

pub record IsValid (value : Bytes) : Type 0 where
  pub nonempty : value ≢ []
  pub short : length value ≤ max_path_bytes
  pub no_home : (starts_with b'~' value ≡ false) × (starts_with b'$' value ≡ false)
  pub no_bad : All (λ c. (c ≢ 0) × (c ≢ b'\\')) value
  pub names : All IsSafeName (segments value)

inner_components-proper :
    (segs : List Bytes) → any is_relative segs ≡ false → inner_components segs ≡ map normal segs
unfolding inner_components
inner_components-proper [] h = refl
inner_components-proper (seg ∷ segs) h = ground (arith, inner_components-proper segs)

split-leading_slash : (c : ℕ) (s : Bytes) → (c == b'/') ≡ true → (split_slash (c ∷ s)).0 ≡ []
unfolding split_slash
split-leading_slash c s h = ground arith

components-proper :
    (s : Bytes) → any is_relative (segments s) ≡ false → components s ≡ map normal (segments s)
unfolding components
components-proper [] h = absurd (unfold split_slash in cc h)
components-proper (c ∷ s) h =
    ground (arith, inner_components-proper (segments (c ∷ s)) h, split-leading_slash c s)

any-is_unsafe :
    (segs : List Bytes)
    → any is_relative segs ≡ false
    → (any is_unsafe (map normal segs) ≡ false) ↔ All IsSafeName segs
any-is_unsafe [] h = ground arith
any-is_unsafe (seg ∷ segs) h = ground (arith, any-is_unsafe segs)

any-is_relative : (segs : List Bytes) → All IsSafeName segs → any is_relative segs ≡ false
any-is_relative [] h = refl
any-is_relative (seg ∷ segs) (h, hs) = ground (arith, h.proper, any-is_relative segs hs)

has_bad_byte_iff :
    (value : Bytes) → (has_bad_byte value ≡ false) ↔ All (λ c. (c ≢ 0) × (c ≢ b'\\')) value
has_bad_byte_iff [] = ground arith
has_bad_byte_iff (c ∷ value) = ground (arith, has_bad_byte_iff value)

no_relative_path-names :
    (segs : List Bytes) (seg : Bytes) → no_relative_path (map normal (seg ∷ segs)) ≡ false
no_relative_path-names segs seg = refl

four_checks :
    (a b c d : Bool) (e f g h : DirectoryError)
    → (◌≡◌ {A = Result DirectoryError (Unit {0})}
        (do bail_if a e; bail_if b f; bail_if c g; bail_if d h; ok tt)
        (ok tt))
      ↔ ((a ≡ false) × (b ≡ false) × (c ≡ false) × (d ≡ false))
four_checks a b c d e f g h = ground arith

validate_relative_path-IsValid :
    (value : Bytes) → validate_relative_path value ≡ ok tt → IsValid value
unfolding validate_relative_path
validate_relative_path-IsValid value h =
    let (start, proper, relative, safe) =
      (four_checks (is_invalid value) (any is_relative (segments value))
          (no_relative_path (components value)) (any is_unsafe (components value)) _ _ _ _).0
        h in
    record {
      nonempty = λ e. absurd (ground (arith, start, ap length e));
      short = ground (arith, start);
      no_home = ground (arith, start);
      no_bad = (has_bad_byte_iff value).0 (ground (arith, start));
      names =
          (any-is_unsafe (segments value) proper).0
            (ap (any is_unsafe) (sym (components-proper value proper)) ∙ safe);
    }

IsValid-validate_relative_path :
    (value : Bytes) → IsValid value → validate_relative_path value ≡ ok tt
unfolding validate_relative_path
IsValid-validate_relative_path [] h = absurd (h.nonempty refl)
IsValid-validate_relative_path (c ∷ s) h =
    let proper : any is_relative (segments (c ∷ s)) ≡ false =
      any-is_relative (segments (c ∷ s)) h.names in
    let e : components (c ∷ s) ≡ map normal (segments (c ∷ s)) = components-proper (c ∷ s) proper in
    (four_checks (is_invalid (c ∷ s)) (any is_relative (segments (c ∷ s)))
        (no_relative_path (components (c ∷ s))) (any is_unsafe (components (c ∷ s))) _ _ _ _).1
      (
        ground (arith, h.short, h.no_home, (has_bad_byte_iff (c ∷ s)).1 h.no_bad),
        proper,
        ap no_relative_path e,
        ap (any is_unsafe) e ∙ (any-is_unsafe (segments (c ∷ s)) proper).1 h.names,
      )

-- A path is accepted exactly if it is not empty and no longer than 32 KiB, does not begin with a
-- tilde or a dollar, holds no zero byte and no backslash, and each of its segments between slashes
-- is a name that is not empty, `.` or `..` and has no control character.
pub validate_relative_path_iff :
    (value : Bytes) → (validate_relative_path value ≡ ok tt) ↔ IsValid value
validate_relative_path_iff value =
    (validate_relative_path-IsValid value, IsValid-validate_relative_path value)

pub components-IsValid :
    (value : Bytes) → IsValid value → components value ≡ map normal (segments value)
components-IsValid value h = components-proper value (any-is_relative (segments value) h.names)

pub push_names-names :
    (output : PathBuf) (segs : List Bytes)
    → push_names output (map normal segs) ≡ output ++ map normal segs
unfolding push_names
push_names-names output [] = sym (append-nil output)
push_names-names output (seg ∷ segs) =
    push_names-names (output ++ (normal seg ∷ [])) segs
    ∙ append_assoc output (normal seg ∷ []) (map normal segs)

-- Whatever path a peer sends, the child that is taken for it lies below the root: the root's
-- components, and then one plain name for each segment.
pub safe_child-below :
    (root path : PathBuf) (relative : Bytes)
    → safe_child root relative ≡ ok path
    → IsValid relative × (path ≡ root ++ map normal (segments relative))
unfolding safe_child
safe_child-below root path relative h = elim (Result-cases (validate_relative_path relative)) [
  | inl (tt, e) ↦
      let valid : IsValid relative = validate_relative_path-IsValid relative e in
      (
        valid,
        ok_inj (sym (rw (e, safe_child) at h))
            ∙ ap (push_names root) (components-IsValid relative valid)
            ∙ push_names-names root (segments relative),
      )
  | inr (x, e) ↦ absurd (cc (rw (e, safe_child) at h))
]

pub safe_child-IsValid :
    (root : PathBuf) (relative : Bytes)
    → IsValid relative
    → safe_child root relative ≡ ok (root ++ map normal (segments relative))
unfolding safe_child
safe_child-IsValid root relative h = rw (IsValid-validate_relative_path relative h) (
    ap ok (
      ap (push_names root) (components-IsValid relative h)
      ∙ push_names-names root (segments relative)))
