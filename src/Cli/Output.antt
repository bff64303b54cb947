-- ===== src/Cli/Output.antt =====
-- `OutputOptions::from_args` of cli/src/main.rs. The parsers of an address and of a port are the
-- standard library's, and are arguments.
pub mod Rendering
pub mod Names
pub mod Meaning
mod Tests
use quiczilla.Prelude.{
  ℕ, Bool, true, false, ◌||◌, ◌&&◌, Option, none, some, List, [], ◌∷◌, Result, ok, err, ◌>>=◌,
  if◌then◌else◌, any,
}
use quiczilla.Prelude.Bytes.{codes, eq_bytes}
use quiczilla.Paths.{Text}

pub data TransportPreference : Type 0 where
  auto direct stun manual ssh : TransportPreference

pub record OutputOptions (SocketAddr : Type 0) : Type 0 where
  pub quiet : Bool
  pub json : Bool
  pub verbose : Bool
  pub no_progress : Bool
  pub resume : Bool
  pub transport : TransportPreference
  pub stun_server : Option SocketAddr
  pub quic_host : Option Text
  pub quic_port : Option ℕ
  pub ssh_port : Option ℕ
  pub ssh_identity : Option Text

pub data OutputError : Type 0 where
  invalid_transport invalid_stun_server invalid_quic_port invalid_ssh_port : OutputError
  quiet_and_verbose : OutputError

-- The options with a value, and those without.
pub data Key : Type 0 where
  transport_key stun_server_key quic_host_key quic_port_key ssh_port_key ssh_identity_key : Key

pub data Flag : Type 0 where
  quiet_flag json_flag verbose_flag no_progress_flag resume_flag : Flag

abbrev pub key_of : Text → Option Key
key_of arg =
    if eq_bytes arg (codes "--transport")
    then some transport_key
    else if eq_bytes arg (codes "--stun-server")
    then some stun_server_key
    else if eq_bytes arg (codes "--quic-host")
    then some quic_host_key
    else if eq_bytes arg (codes "--quic-port")
    then some quic_port_key
    else if eq_bytes arg (codes "-p") || eq_bytes arg (codes "--port")
    then some ssh_port_key
    else if eq_bytes arg (codes "-i") || eq_bytes arg (codes "--identity")
    then some ssh_identity_key
    else none

abbrev pub is_flag : Flag → Text → Bool
is_flag quiet_flag arg = eq_bytes arg (codes "--quiet") || eq_bytes arg (codes "-q")
is_flag json_flag arg = eq_bytes arg (codes "--json")
is_flag verbose_flag arg = eq_bytes arg (codes "--verbose")
is_flag no_progress_flag arg = eq_bytes arg (codes "--no-progress")
is_flag resume_flag arg = eq_bytes arg (codes "-c") || eq_bytes arg (codes "--resume")

abbrev pub parse_transport : Text → Result OutputError TransportPreference
parse_transport value =
    if eq_bytes value (codes "auto")
    then ok auto
    else if eq_bytes value (codes "direct")
    then ok direct
    else if eq_bytes value (codes "stun")
    then ok stun
    else if eq_bytes value (codes "manual")
    then ok manual
    else if eq_bytes value (codes "ssh")
    then ok ssh
    else err invalid_transport

-- `.context(..)` of a parse.
abbrev pub or_error : {A : Type 0} → OutputError → Option A → Result OutputError A
or_error e none = err e
or_error e (some a) = ok a

module _ {SocketAddr : Type 0} (parse_address : Text → Option SocketAddr)
    (parse_u16 : Text → Option ℕ) where
  abbrev pub no_options : OutputOptions SocketAddr
  no_options = record {
    quiet = false;
    json = false;
    verbose = false;
    no_progress = false;
    resume = false;
    transport = auto;
    stun_server = none;
    quic_host = none;
    quic_port = none;
    ssh_port = none;
    ssh_identity = none;
  }

  -- The arm of an option that has a value behind it.
  abbrev pub set :
      Key → Text → OutputOptions SocketAddr → Result OutputError (OutputOptions SocketAddr)
  set transport_key value o = parse_transport value >>= λ t. ok (record o { transport = t })
  set stun_server_key value o = or_error invalid_stun_server (parse_address value) >>= λ a.
      ok (record o { stun_server = some a })
  set quic_host_key value o = ok (record o { quic_host = some value })
  set quic_port_key value o =
      or_error invalid_quic_port (parse_u16 value) >>= λ n. ok (record o { quic_port = some n })
  set ssh_port_key value o =
      or_error invalid_ssh_port (parse_u16 value) >>= λ n. ok (record o { ssh_port = some n })
  set ssh_identity_key value o = ok (record o { ssh_identity = some value })

  -- The loop over the arguments. The last one has no value behind it, and is passed over.
  abbrev pub scan :
      List Text → OutputOptions SocketAddr → Result OutputError (OutputOptions SocketAddr)
  scan [] o = ok o
  scan (arg ∷ []) o = ok o
  scan (arg ∷ value ∷ rest) o = elim (key_of arg) [
    | none ↦ scan (value ∷ rest) o
    | some key ↦ set key value o >>= scan rest
  ]

  abbrev pub with_flags : List Text → OutputOptions SocketAddr → OutputOptions SocketAddr
  with_flags args o = record o {
    quiet = any (is_flag quiet_flag) args;
    json = any (is_flag json_flag) args;
    verbose = any (is_flag verbose_flag) args;
    no_progress = any (is_flag no_progress_flag) args;
    resume = any (is_flag resume_flag) args;
  }

  abbrev pub refuse_both : OutputOptions SocketAddr → Result OutputError (OutputOptions SocketAddr)
  refuse_both o = if o.quiet && o.verbose then err quiet_and_verbose else ok o

  unfoldable pub from_args : List Text → Result OutputError (OutputOptions SocketAddr)
  from_args args = scan args no_options >>= λ o. refuse_both (with_flags args o)
