-- ===== src/Peer/Coordinator/Offers.antt =====
-- An offer and its acceptance meet in either order.
use quiczilla.Prelude.{ℕ, ◌≡◌, Bool, none, [], ◌∷◌, arith}
use quiczilla.Prelude.Bytes.{Bytes}
use quiczilla.Paths.{Text}
use quiczilla.Control.Text.{metadata}
use quiczilla.Peer.Coordinator.{
  Coordinator, message, command, run_loop, accept_file, handle_message, handle_command,
}

module _ (sha256_hex : Bytes → Bytes) where
  -- With no offer and no acceptance pending, an offer and then an acceptance leave the same state
  -- and send the same effects in the same order as the acceptance and then the offer.
  pub run_loop-offer_accept :
      (s : Coordinator) (name : Text) (size : ℕ) (resumable checksum : Bool) (save_dir : Text)
      (verify wanted : Bool)
      → s.offered_file_name ≡ none
      → s.offered_file_size ≡ none
      → s.pending_accept ≡ none
      → run_loop sha256_hex
          (message (metadata name size resumable checksum)
            ∷ command (accept_file save_dir verify wanted)
            ∷ [])
          s
        ≡ run_loop sha256_hex
            (command (accept_file save_dir verify wanted)
              ∷ message (metadata name size resumable checksum)
              ∷ [])
            s
  unfolding run_loop handle_message handle_command
  run_loop-offer_accept s name size resumable checksum save_dir verify wanted p q r = ground arith
