-- ===== src/Worker/Tests.antt =====
-- Concrete arguments and thumbprints of a worker.
use quiczilla.Prelude.{◌≡◌, ◌≢◌, refl, Option, none, some, List, [], ◌∷◌, any, replicate}
use quiczilla.Prelude.Bytes.{codes}
use quiczilla.Paths.{Text, trim_matches, trim_start}
use quiczilla.Cert.{normalize_thumbprint, verify_client_cert}
use quiczilla.Worker.Arguments.Settings.{Setting, pipe, exec, on_conflict, save_dir}
use quiczilla.Worker.Thumbprints.{
  allowed_thumbprints, entries, entry_accepts, verify_client_cert-allowed,
}
use quiczilla.Peer.Disk.{Disk}
use quiczilla.Worker.Offers.{commands}

abbrev no_command : Text → Option Text
no_command text = none

-- A command that looks like an option.
abbrev settings : List Setting
settings =
    save_dir (codes "/srv") ∷ exec (codes "--pipe") ∷ pipe ∷ on_conflict (codes "refuse") ∷ []

abbrev identity : Text → Text
identity text = text

abbrev thumbprint : Text
thumbprint = replicate 40 65

abbrev file : Option (List Text)
file = some (codes "# clients" ∷ thumbprint ∷ [] ∷ thumbprint ∷ [])

verify_client_cert-allowed_example :
    ((thumbprint ∷ []) ≢ [])
    × (verify_client_cert (thumbprint ∷ []) thumbprint
        ≡ any (entry_accepts identity thumbprint) (entries identity file []))
unfolding allowed_thumbprints trim_matches trim_start normalize_thumbprint
verify_client_cert-allowed_example =
    verify_client_cert-allowed identity thumbprint file [] (thumbprint ∷ []) refl

abbrev no_files : Disk
no_files path = none
