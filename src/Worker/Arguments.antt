-- ===== src/Worker/Arguments.antt =====
-- The loop over the arguments in `main` of worker/src/main.rs.
pub mod Settings
use quiczilla.Prelude.{
  ℕ, Bool, true, false, ◌||◌, Option, none, some, List, [], ◌∷◌, Result, ok, err, ◌>>=◌, ltb, ◌==◌,
  if◌then◌else◌,
}
use quiczilla.Prelude.Bytes.{codes, eq_bytes}
use quiczilla.Paths.{Text}
use quiczilla.Control.Decimal.{parse_u64}
use quiczilla.Peer.Accept.{clean}

pub data ConflictPolicy : Type 0 where
  overwrite refuse : ConflictPolicy

pub data ArgumentError : Type 0 where
  invalid_stun_server invalid_conflict_policy missing_conflict_policy : ArgumentError

-- The variables that the loop sets. An address is what `SocketAddr` parses to.
pub record Arguments (Addr : Type 0) : Type 0 where
  pub expected_thumbprint : Text
  pub save_dir : Text
  pub is_pipe_mode : Bool
  pub is_directory_mode : Bool
  pub exec_command : Option Text
  pub verify : Bool
  pub is_daemon : Bool
  pub allow_thumbprints_file : Option Text
  pub port : ℕ
  pub punch_port : Option ℕ
  pub punch_ip : Option Text
  pub stun_server : Option Addr
  pub resume : Bool
  pub identity_dir : Option Text
  pub conflict_policy : ConflictPolicy

-- `parse::<u16>()`, whose texts are those of a u64 with a value below 65536.
abbrev pub below_u16 : Option ℕ → Option ℕ
below_u16 none = none
below_u16 (some n) = if ltb n 65536 then some n else none

abbrev pub parse_u16 : Text → Option ℕ
parse_u16 text = below_u16 (parse_u64 text)

abbrev pub or_zero : Option ℕ → ℕ
or_zero none = 0
or_zero (some n) = n

abbrev pub is : Text → Text → Bool
is arg name = eq_bytes arg name

module _ {Addr : Type 0} where
  abbrev pub start : (current_dir : Text) → Arguments Addr
  start current_dir = record {
    expected_thumbprint = [];
    save_dir = current_dir;
    is_pipe_mode = false;
    is_directory_mode = false;
    exec_command = none;
    verify = false;
    is_daemon = false;
    allow_thumbprints_file = none;
    port = 0;
    punch_port = none;
    punch_ip = none;
    stun_server = none;
    resume = false;
    identity_dir = none;
    conflict_policy = overwrite;
  }

  -- An argument that takes no value. Others are passed over.
  abbrev pub flag : Text → Arguments Addr → Arguments Addr
  flag arg a =
      if is arg (codes "--pipe")
      then record a { is_pipe_mode = true }
      else if is arg (codes "--directory")
      then record a { is_directory_mode = true }
      else if is arg (codes "--verify") || is arg (codes "--checksum")
      then record a { verify = true }
      else if is arg (codes "--daemon")
      then record a { is_daemon = true }
      else if is arg (codes "-c") || is arg (codes "--resume")
      then record a { resume = true }
      else a

  abbrev pub set_exec : Option Text → Arguments Addr → Arguments Addr
  set_exec none a = a
  set_exec (some command) a = record a { exec_command = some command }

  abbrev pub set_stun_server : Option Addr → Arguments Addr → Result ArgumentError (Arguments Addr)
  set_stun_server none a = err invalid_stun_server
  set_stun_server (some server) a = ok (record a { stun_server = some server })

  abbrev pub set_conflict_policy : Text → Arguments Addr → Result ArgumentError (Arguments Addr)
  set_conflict_policy value a =
      if is value (codes "overwrite")
      then ok (record a { conflict_policy = overwrite })
      else if is value (codes "refuse")
      then ok (record a { conflict_policy = refuse })
      else err invalid_conflict_policy

  -- The last argument, which has no value behind it.
  abbrev pub last_argument : Text → Arguments Addr → Result ArgumentError (Arguments Addr)
  last_argument arg a =
      if is arg (codes "--on-conflict") then err missing_conflict_policy else ok (flag arg a)

  -- `decode_command` is `hex::decode` and then `String::from_utf8`.
  module _ (decode_command : Text → Option Text) (parse_address : Text → Option Addr) where
    -- An argument that takes the next one for its value, and what becomes of it.
    abbrev pub valued :
        Text → Text → Arguments Addr → Option (Result ArgumentError (Arguments Addr))
    valued arg value a =
        if is arg (codes "--peer-thumbprint")
        then some (ok (record a { expected_thumbprint = value }))
        else if is arg (codes "--save-dir")
        then some (ok (record a { save_dir = clean value }))
        else if is arg (codes "--exec")
        then some (ok (record a { exec_command = some value }))
        else if is arg (codes "--exec-hex")
        then some (ok (set_exec (decode_command value) a))
        else if is arg (codes "--allow-thumbprints")
        then some (ok (record a { allow_thumbprints_file = some value }))
        else if is arg (codes "--port")
        then some (ok (record a { port = or_zero (parse_u16 value) }))
        else if is arg (codes "--punch-port")
        then some (ok (record a { punch_port = parse_u16 value }))
        else if is arg (codes "--punch-ip")
        then some (ok (record a { punch_ip = some value }))
        else if is arg (codes "--stun-server")
        then some (set_stun_server (parse_address value) a)
        else if is arg (codes "--identity-dir")
        then some (ok (record a { identity_dir = some value }))
        else if is arg (codes "--on-conflict")
        then some (set_conflict_policy value a)
        else none

    abbrev pub choose :
        Option (Result ArgumentError (Arguments Addr))
        → (Arguments Addr → Result ArgumentError (Arguments Addr))
        → Result ArgumentError (Arguments Addr)
        → Result ArgumentError (Arguments Addr)
    choose none with_value without = without
    choose (some r) with_value without = r >>= with_value

    -- The loop, from the first argument behind the program's name.
    unfoldable pub parse_arguments :
        List Text → Arguments Addr → Result ArgumentError (Arguments Addr)
    parse_arguments [] a = ok a
    parse_arguments (arg ∷ []) a = last_argument arg a
    parse_arguments (arg ∷ value ∷ rest) a =
        choose (valued arg value a) (λ a'. parse_arguments rest a')
          (parse_arguments (value ∷ rest) (flag arg a))
