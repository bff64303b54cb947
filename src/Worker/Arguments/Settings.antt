-- ===== src/Worker/Arguments/Settings.antt =====
-- What the arguments of a worker mean: settings that are applied in their order.
use quiczilla.Prelude.{true, Option, some, List, [], ◌∷◌, ◌++◌, Result, ok, ◌>>=◌}
use quiczilla.Prelude.Bytes.{codes}
use quiczilla.Paths.{Text}
use quiczilla.Peer.Accept.{clean}
use quiczilla.Worker.Arguments.{
  ArgumentError, Arguments, parse_u16, or_zero, set_exec, set_stun_server, set_conflict_policy,
}

pub data Setting : Type 0 where
  pipe directory verify daemon resume : Setting
  peer_thumbprint save_dir exec exec_hex allow_thumbprints port punch_port punch_ip stun_server
        identity_dir on_conflict :
      (value : Text) → Setting

-- How a setting is written.
abbrev pub render : Setting → List Text
render pipe = codes "--pipe" ∷ []
render directory = codes "--directory" ∷ []
render verify = codes "--verify" ∷ []
render daemon = codes "--daemon" ∷ []
render resume = codes "--resume" ∷ []
render (peer_thumbprint value) = codes "--peer-thumbprint" ∷ value ∷ []
render (save_dir value) = codes "--save-dir" ∷ value ∷ []
render (exec value) = codes "--exec" ∷ value ∷ []
render (exec_hex value) = codes "--exec-hex" ∷ value ∷ []
render (allow_thumbprints value) = codes "--allow-thumbprints" ∷ value ∷ []
render (port value) = codes "--port" ∷ value ∷ []
render (punch_port value) = codes "--punch-port" ∷ value ∷ []
render (punch_ip value) = codes "--punch-ip" ∷ value ∷ []
render (stun_server value) = codes "--stun-server" ∷ value ∷ []
render (identity_dir value) = codes "--identity-dir" ∷ value ∷ []
render (on_conflict value) = codes "--on-conflict" ∷ value ∷ []

abbrev pub render_all : List Setting → List Text
render_all [] = []
render_all (s ∷ rest) = render s ++ render_all rest

module _ {Addr : Type 0} (decode_command : Text → Option Text)
    (parse_address : Text → Option Addr) where
  -- What a setting means.
  abbrev pub apply : Setting → Arguments Addr → Result ArgumentError (Arguments Addr)
  apply pipe a = ok (record a { is_pipe_mode = true })
  apply directory a = ok (record a { is_directory_mode = true })
  apply verify a = ok (record a { verify = true })
  apply daemon a = ok (record a { is_daemon = true })
  apply resume a = ok (record a { resume = true })
  apply (peer_thumbprint value) a = ok (record a { expected_thumbprint = value })
  apply (save_dir value) a = ok (record a { save_dir = clean value })
  apply (exec value) a = ok (record a { exec_command = some value })
  apply (exec_hex value) a = ok (set_exec (decode_command value) a)
  apply (allow_thumbprints value) a = ok (record a { allow_thumbprints_file = some value })
  apply (port value) a = ok (record a { port = or_zero (parse_u16 value) })
  apply (punch_port value) a = ok (record a { punch_port = parse_u16 value })
  apply (punch_ip value) a = ok (record a { punch_ip = some value })
  apply (stun_server value) a = set_stun_server (parse_address value) a
  apply (identity_dir value) a = ok (record a { identity_dir = some value })
  apply (on_conflict value) a = set_conflict_policy value a

  abbrev pub apply_all : List Setting → Arguments Addr → Result ArgumentError (Arguments Addr)
  apply_all [] a = ok a
  apply_all (s ∷ rest) a = apply s a >>= λ a'. apply_all rest a'
