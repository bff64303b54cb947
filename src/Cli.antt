-- ===== src/Cli.antt =====
-- cli/src/main.rs: quoting for a remote shell, the features of a remote worker, the storage profile
-- and the exit codes. Texts are their code points.
pub mod Output
pub mod Quote
mod Tests
use quiczilla.Prelude.{
  ℕ, Bool, true, false, ◌||◌, ◌&&◌, Option, none, some, List, [], ◌∷◌, ◌++◌, Result, ok, err, ◌==◌,
  if◌then◌else◌, any,
}
use quiczilla.Prelude.Bytes.{codes, eq_bytes, strip_prefix}
use quiczilla.Paths.{Text}
use quiczilla.Directory.{StorageProfile, auto, hdd, nvme}

abbrev pub general_error : ℕ
general_error = 1

abbrev pub auth_failure : ℕ
auth_failure = 3

abbrev pub network_failure : ℕ
network_failure = 4

abbrev pub integrity_failure : ℕ
integrity_failure = 5

abbrev pub conflict_refusal : ℕ
conflict_refusal = 6

abbrev pub protocol_incompatible : ℕ
protocol_incompatible = 7

abbrev pub is_some : Option Text → Bool
is_some none = false
is_some (some t) = true

-- `lower.contains(word)`
abbrev pub contains : Text → Text → Bool
contains [] word = is_some (strip_prefix word [])
contains (c ∷ s) word = is_some (strip_prefix word (c ∷ s)) || contains s word

abbrev pub contains_any : List Text → Text → Bool
contains_any words text = any (λ word. contains text word) words

abbrev pub protocol_words : List Text
protocol_words =
    codes "protocol"
    ∷ codes "incompatible"
    ∷ codes "does not support"
    ∷ codes "missing feature"
    ∷ []

abbrev pub auth_words : List Text
auth_words =
    codes "thumbprint"
    ∷ codes "certificate"
    ∷ codes "unauthorized"
    ∷ codes "tls alert"
    ∷ codes "handshake"
    ∷ codes "wrong daemon pin"
    ∷ codes "rogue"
    ∷ []

abbrev pub integrity_words : List Text
integrity_words =
    codes "checksum" ∷ codes "hash mismatch" ∷ codes "integrity" ∷ codes "hashfailed" ∷ []

abbrev pub conflict_words : List Text
conflict_words =
    codes "refused"
    ∷ codes "refuse"
    ∷ codes "already exists"
    ∷ codes "conflict"
    ∷ codes "symlink"
    ∷ codes "traversal"
    ∷ []

abbrev pub network_words : List Text
network_words =
    codes "network"
    ∷ codes "connection"
    ∷ codes "connect"
    ∷ codes "timeout"
    ∷ codes "timed out"
    ∷ codes "unreachable"
    ∷ codes "exhausted"
    ∷ codes "udp transport failed"
    ∷ codes "ssh probe failed"
    ∷ []

-- With the lower case of Unicode.
unfoldable pub classify_error_message : (to_lowercase : Text → Text) → Text → ℕ
classify_error_message to_lowercase msg =
    let lower = to_lowercase msg in
    if contains_any protocol_words lower
    then protocol_incompatible
    else if contains_any auth_words lower
    then auth_failure
    else if contains_any integrity_words lower
    then integrity_failure
    else if contains_any conflict_words lower
    then conflict_refusal
    else if contains_any network_words lower
    then network_failure
    else general_error

pub record WorkerBootstrap : Type 0 where
  pub protocol_version : Option ℕ
  pub features : List Text

unfoldable pub has_feature : WorkerBootstrap → Text → Bool
has_feature b feature = elim b.protocol_version [
  | some version ↦ any (λ f. eq_bytes f feature) b.features
  | none ↦ eq_bytes feature (codes "checksum") || eq_bytes feature (codes "resume")
]

-- The value behind the first `--storage-profile` that is not the last argument.
abbrev pub profile_argument : List Text → Text
profile_argument [] = codes "auto"
profile_argument (arg ∷ []) = codes "auto"
profile_argument (arg ∷ value ∷ rest) =
    if eq_bytes arg (codes "--storage-profile") then value else profile_argument (value ∷ rest)

unfoldable pub directory_storage_profile : List Text → Option StorageProfile
directory_storage_profile args =
    if eq_bytes (profile_argument args) (codes "auto")
    then some auto
    else if eq_bytes (profile_argument args) (codes "hdd")
    then some hdd
    else if eq_bytes (profile_argument args) (codes "nvme")
    then some nvme
    else none

-- `value.replace('\'', r#"'"'"'"#)`
abbrev pub escape_quotes : Text → Text
escape_quotes [] = []
escape_quotes (c ∷ s) = (if c == 39 then 39 ∷ 34 ∷ 39 ∷ 34 ∷ 39 ∷ [] else c ∷ []) ++ escape_quotes s

unfoldable pub shell_quote : Text → Text
shell_quote value = 39 ∷ (escape_quotes value ++ (39 ∷ []))
