-- ===== src/Peer/Accept/Destination.antt =====
-- Where a received file goes.
use quiczilla.Prelude.{ℕ, ◌≡◌, ◌⊎◌, ap, ◌∙◌, Bool, Option, none, some, [], ◌∷◌, ◌++◌, arith}
use mathlib.Core.Path.{subst}
use quiczilla.Prelude.Bytes.{Bytes, codes}
use quiczilla.Paths.{Text, normal, PathBuf, components, file_name, join, with_file_name, or_default}
use quiczilla.Paths.Names.{
  IsName, file_name-IsName, join-name, join-empty, file_name-snoc, with_file_name-snoc,
}
use quiczilla.Peer.Disk.{Disk}
use quiczilla.Peer.Accept.Offsets.{OptionAll}
use quiczilla.Peer.Accept.{
  RecvTask, clean, handle_accept, accept_resumed, dest_path_of, get_part_path,
}

-- The one or two paths that an accepted transfer may touch.
dest_path-name :
    (save_dir offered_name name : Text)
    → file_name (components (clean offered_name)) ≡ some name
    → dest_path_of save_dir offered_name ≡ components (clean save_dir) ++ (normal name ∷ [])
unfolding dest_path_of
dest_path-name save_dir offered_name name e =
    ap (λ o. join (components (clean save_dir)) (or_default o)) e
    ∙ join-name (components (clean save_dir)) name (file_name-IsName (clean offered_name) name e)

part_path-name :
    (p : PathBuf) (name : Text)
    → get_part_path (p ++ (normal name ∷ [])) ≡ p ++ (normal (name ++ codes ".quic-part") ∷ [])
unfolding get_part_path
part_path-name p name =
    ap (λ o. with_file_name (p ++ (normal name ∷ [])) (or_default o ++ codes ".quic-part"))
      (file_name-snoc p name)
    ∙ with_file_name-snoc p name _

abbrev pub WritesTo : PathBuf → RecvTask → Type 0
WritesTo dest t = t.dest_path ≡ dest

-- What is pending is what was before, or writes to the destination.
abbrev pub IsPending : PathBuf → (before after : Option RecvTask) → Type 0
IsPending dest before after = (after ≡ before) ⊎ OptionAll (WritesTo dest) after

module _ (sha256_hex : Bytes → Bytes) (disk : Disk) where
  accept_resumed-WritesTo :
      (dest : PathBuf) (size : ℕ) (checksum : Bool) (pending : Option RecvTask)
      → let a = accept_resumed sha256_hex disk dest size checksum pending in
        OptionAll (WritesTo dest) a.recv_file_trigger
        × IsPending dest pending a.pending_resume_recv
        × OptionAll (λ p. p ≡ get_part_path dest) a.current_part_path
  unfolding accept_resumed
  accept_resumed-WritesTo dest size checksum pending = ground arith

  pub handle_accept-WritesTo :
      (save_dir : Text) (checksum resume : Bool) (name : Text) (size : ℕ) (offered : Bool)
      (pending : Option RecvTask)
      → let a = handle_accept sha256_hex disk save_dir checksum resume name size offered pending in
        let dest = dest_path_of save_dir name in
        OptionAll (WritesTo dest) a.recv_file_trigger
        × IsPending dest pending a.pending_resume_recv
        × OptionAll (λ p. p ≡ get_part_path dest) a.current_part_path
  unfolding handle_accept
  handle_accept-WritesTo save_dir checksum resume name size offered pending =
      ground (arith, accept_resumed-WritesTo (dest_path_of save_dir name) size checksum pending)

  -- An offered name that cleaning leaves with a file name, however it is written: the task that an
  -- acceptance starts writes to that plain name directly in the directory to save to, so does the
  -- task that is pending behind it, unless that is the one that was pending before, and the part file
  -- is that name with the suffix in the same directory.
  pub handle_accept-inside :
      (save_dir : Text) (checksum resume : Bool) (offered_name name : Text) (size : ℕ)
      (offered : Bool) (pending : Option RecvTask)
      → file_name (components (clean offered_name)) ≡ some name
      → let a =
          handle_accept sha256_hex disk save_dir checksum resume offered_name size offered
            pending in
        let dir = components (clean save_dir) in
        IsName name
        × OptionAll (WritesTo (dir ++ (normal name ∷ []))) a.recv_file_trigger
        × IsPending (dir ++ (normal name ∷ [])) pending a.pending_resume_recv
        × OptionAll (λ p. p ≡ dir ++ (normal (name ++ codes ".quic-part") ∷ [])) a.current_part_path
  handle_accept-inside save_dir checksum resume offered_name name size offered pending e =
      let a =
        handle_accept sha256_hex disk save_dir checksum resume offered_name size offered pending in
      let (trigger, waiting, part) =
        handle_accept-WritesTo save_dir checksum resume offered_name size offered pending in
      let dest = dest_path-name save_dir offered_name name e in
      let part_path = ap get_part_path dest ∙ part_path-name (components (clean save_dir)) name in
      (
        file_name-IsName (clean offered_name) name e,
        subst (λ d. OptionAll (WritesTo d) a.recv_file_trigger) dest trigger,
        subst (λ d. IsPending d pending a.pending_resume_recv) dest waiting,
        subst (λ d. OptionAll (λ p. p ≡ d) a.current_part_path) part_path part,
      )

-- A directory to save to whose path ends in a plain name, and an offer whose cleaned name has no
-- file name, such as `..`: the destination is the directory itself, and the part file stands beside
-- that directory and not in it.
pub part_path-outside :
    (save_dir offered_name dir : Text) (parent : PathBuf)
    → file_name (components (clean offered_name)) ≡ none
    → components (clean save_dir) ≡ parent ++ (normal dir ∷ [])
    → (dest_path_of save_dir offered_name ≡ parent ++ (normal dir ∷ []))
      × (get_part_path (dest_path_of save_dir offered_name)
          ≡ parent ++ (normal (dir ++ codes ".quic-part") ∷ []))
unfolding dest_path_of
part_path-outside save_dir offered_name dir parent e d =
    (here, ap get_part_path here ∙ part_path-name parent dir)
  where
    here : dest_path_of save_dir offered_name ≡ parent ++ (normal dir ∷ [])
    here =
        ap (λ o. join (components (clean save_dir)) (or_default o)) e
        ∙ join-empty (components (clean save_dir))
        ∙ d
