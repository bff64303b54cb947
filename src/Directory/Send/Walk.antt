-- ===== src/Directory/Send/Walk.antt =====
-- The walk with its stack of iterators sends what a recursion over the tree finds.
use quiczilla.Prelude.{
  ℕ, zero, suc, ◌+◌, ◌≤◌, ◌≡◌, refl, ap, sym, ◌∙◌, Bool, List, [], ◌∷◌, ◌++◌, Result, ok, err,
  ◌>>=◌, arith,
}
use mathlib.Core.Path.{fun_ext}
use mathlib.Core.List.{append_assoc}
use quiczilla.Prelude.Bytes.{Bytes}
use quiczilla.Directory.{DirectoryError, io_error, frame_directory}
use quiczilla.Directory.Wire.{write_path}
use quiczilla.Directory.Send.{
  Node, directory, file, symlink, special, unreadable, Entries, done, failing, entry, below,
  path_to_wire, Tally, count_directory, send_file, before, walk,
}

-- What the sender meets, each with its path below the source.
pub data Item : Type 0 where
  a_directory a_special : (path : Bytes) → Item
  a_file : (path : Bytes) (len : ℕ) (contents : Bytes) → Item
  a_failure : Item

-- The tree in pre-order: a directory, then what is below it, then its next sibling.
abbrev mutual
  pub items : Bytes → Entries → List Item
  items prefix done = []
  items prefix failing = a_failure ∷ []
  items prefix (entry name node rest) = node_items (below prefix name) node ++ items prefix rest

  pub node_items : Bytes → Node → List Item
  node_items path (directory entries) = a_directory path ∷ items path entries
  node_items path (file len contents) = a_file path len contents ∷ []
  node_items path symlink = []
  node_items path special = a_special path ∷ []
  node_items path unreadable = a_failure ∷ []

abbrev mutual
  pub rounds : Entries → ℕ
  rounds done = 1
  rounds failing = 1
  rounds (entry name node rest) = 1 + node_rounds node + rounds rest

  pub node_rounds : Node → ℕ
  node_rounds (directory entries) = rounds entries
  node_rounds _ = 0

abbrev pub stack_items : List (Bytes × Entries) → List Item
stack_items [] = []
stack_items ((prefix, entries) ∷ stack) = items prefix entries ++ stack_items stack

abbrev pub stack_rounds : List (Bytes × Entries) → ℕ
stack_rounds [] = 0
stack_rounds ((prefix, entries) ∷ stack) = rounds entries + stack_rounds stack

module _ (sha256 : Bytes → Bytes) (read_size : ℕ → ℕ) (target : ℕ) (checksum : Bool) where
  -- The frames of the items in their order.
  unfoldable pub send_items : List Item → Tally → Result DirectoryError (Bytes × Tally)
  send_items [] t = ok ([], t)
  send_items (a_failure ∷ rest) t = err io_error
  send_items (a_special path ∷ rest) t = do relative ← path_to_wire path; send_items rest t
  send_items (a_directory path ∷ rest) t = do
    relative ← path_to_wire path
    wire ← write_path relative
    before sha256 read_size (frame_directory ∷ wire) (send_items rest (count_directory t))
  send_items (a_file path len contents ∷ rest) t = do
    relative ← path_to_wire path
    (bytes, t) ← send_file sha256 read_size target checksum t relative len contents
    before sha256 read_size bytes (send_items rest t)

  -- With one round for each entry and one for each directory, the walk over a stack of iterators
  -- sends the same bytes, counts the same numbers and stops at the same error as the items of the
  -- trees in pre-order do.
  pub walk-items :
      (fuel : ℕ) (t : Tally) (stack : List (Bytes × Entries))
      → stack_rounds stack ≤ fuel
      → walk sha256 read_size target checksum fuel t stack ≡ send_items (stack_items stack) t
  unfolding walk send_items
  walk-items zero t [] h = refl
  walk-items (suc fuel) t [] h = refl
  walk-items zero t ((prefix, done) ∷ stack) h = absurd (omega arith)
  walk-items zero t ((prefix, failing) ∷ stack) h = absurd (omega arith)
  walk-items zero t ((prefix, entry name node rest) ∷ stack) h = absurd (omega arith)
  walk-items (suc fuel) t ((prefix, done) ∷ stack) h = walk-items fuel t stack (omega arith)
  walk-items (suc fuel) t ((prefix, failing) ∷ stack) h = refl
  walk-items (suc fuel) t ((prefix, entry name unreadable rest) ∷ stack) h = refl
  walk-items (suc fuel) t ((prefix, entry name symlink rest) ∷ stack) h =
      walk-items fuel t ((prefix, rest) ∷ stack) (omega arith)
  walk-items (suc fuel) t ((prefix, entry name special rest) ∷ stack) h =
      ap (λ r. path_to_wire (below prefix name) >>= λ relative. r)
        (walk-items fuel t ((prefix, rest) ∷ stack) (omega arith))
  walk-items (suc fuel) t ((prefix, entry name (directory entries) rest) ∷ stack) h =
      ap
        (λ (r : Result DirectoryError (Bytes × Tally)).
          path_to_wire (below prefix name) >>= λ relative.
          write_path relative >>= λ wire. before sha256 read_size (frame_directory ∷ wire) r)
        (walk-items fuel (count_directory t) ((below prefix name, entries) ∷ (prefix, rest) ∷ stack)
            (omega arith)
          ∙ ap (λ l. send_items l (count_directory t))
              (sym (
                append_assoc (items (below prefix name) entries) (items prefix rest)
                  (stack_items stack))))
  walk-items (suc fuel) t ((prefix, entry name (file len contents) rest) ∷ stack) h =
      ap
        (λ (k : Tally → Result DirectoryError (Bytes × Tally)).
          path_to_wire (below prefix name) >>= λ relative.
          send_file sha256 read_size target checksum t relative len contents >>= λ x.
          before sha256 read_size x.0 (k x.1))
        (fun_ext λ t'. walk-items fuel t' ((prefix, rest) ∷ stack) (omega arith))
