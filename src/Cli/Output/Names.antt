-- ===== src/Cli/Output/Names.antt =====
-- How options and flags are written, and that the tests on the arguments find exactly these.
use quiczilla.Prelude.{
  ◌⊎◌, ◌↔◌, inl, inr, ◌≡◌, refl, Bool, true, false, ◌||◌, List, [], ◌∷◌, Result, ok, err, arith,
  any, All, Bool-cases, if_holds,
}
use quiczilla.Prelude.Bytes.{codes, eq_bytes, eq_bytes_iff}
use quiczilla.Paths.{Text}
use quiczilla.Cli.Output.{
  TransportPreference, auto, direct, stun, manual, ssh, OutputError, invalid_transport, Key,
  transport_key, stun_server_key, quic_host_key, quic_port_key, ssh_port_key, ssh_identity_key,
  Flag, quiet_flag, json_flag, verbose_flag, no_progress_flag, resume_flag, is_flag,
  parse_transport,
}
use quiczilla.Cli.Output.Rendering.{Setting, sets, word, spell, IsRead}

-- How a flag is written.
abbrev pub Names : Flag → Text → Type 0
Names quiet_flag t = (t ≡ codes "--quiet") ⊎ (t ≡ codes "-q")
Names json_flag t = t ≡ codes "--json"
Names verbose_flag t = t ≡ codes "--verbose"
Names no_progress_flag t = t ≡ codes "--no-progress"
Names resume_flag t = (t ≡ codes "-c") ⊎ (t ≡ codes "--resume")

abbrev pub Said : Flag → List Text → Type 0
Said f [] = ⊥
Said f (t ∷ ts) = Names f t ⊎ Said f ts

abbrev pub transport_name : TransportPreference → Text
transport_name auto = codes "auto"
transport_name direct = codes "direct"
transport_name stun = codes "stun"
transport_name manual = codes "manual"
transport_name ssh = codes "ssh"

-- No value is written like a flag, and no other word like an option with a value.
abbrev pub IsPlain : Setting → Type 0
IsPlain (sets key is_short value) = (f : Flag) → ¬ (Names f value)
IsPlain (word text) = (key : Key) (is_short : Bool) → ¬ (text ≡ spell key is_short)

either_iff :
    (a b : Bool) (P Q : Type 0) → (a ≡ true) ↔ P → (b ≡ true) ↔ Q → ((a || b) ≡ true) ↔ (P ⊎ Q)
either_iff true b P Q h k = (λ e. inl (h.0 refl), λ e. refl)
either_iff false b P Q h k =
    (λ e. inr (k.0 e), λ x. elim x [ inl p ↦ absurd (ground (arith, h.1 p)) | inr q ↦ k.1 q ])

pub Names-iff : (f : Flag) (t : Text) → (is_flag f t ≡ true) ↔ Names f t
Names-iff json_flag t = eq_bytes_iff t (codes "--json")
Names-iff verbose_flag t = eq_bytes_iff t (codes "--verbose")
Names-iff no_progress_flag t = eq_bytes_iff t (codes "--no-progress")
Names-iff quiet_flag t =
    either_iff (eq_bytes t (codes "--quiet")) (eq_bytes t (codes "-q")) _ _
      (eq_bytes_iff t (codes "--quiet")) (eq_bytes_iff t (codes "-q"))
Names-iff resume_flag t =
    either_iff (eq_bytes t (codes "-c")) (eq_bytes t (codes "--resume")) _ _
      (eq_bytes_iff t (codes "-c")) (eq_bytes_iff t (codes "--resume"))

pub any-Said : (f : Flag) (ts : List Text) → (any (is_flag f) ts ≡ true) ↔ Said f ts
any-Said f [] = (λ e. absurd (ground arith), λ h. elim h [ ])
any-Said f (t ∷ ts) =
    either_iff (is_flag f t) (any (is_flag f) ts) _ _ (Names-iff f t) (any-Said f ts)

not-Names : (f : Flag) (t : Text) → ¬ (Names f t) → is_flag f t ≡ false
not-Names f t h = elim (Bool-cases (is_flag f t)) [
  | inl q ↦ absurd (h ((Names-iff f t).0 q))
  | inr q ↦ q
]

not_spelled : (t name : Text) → ¬ (t ≡ name) → eq_bytes t name ≡ false
not_spelled t name h = elim (Bool-cases (eq_bytes t name)) [
  | inl q ↦ absurd (h ((eq_bytes_iff t name).0 q))
  | inr q ↦ q
]

IsPlain-IsRead : (s : Setting) → IsPlain s → IsRead s
IsPlain-IsRead (sets key is_short value) h = λ f. not-Names f value (h f)
IsPlain-IsRead (word text) h =
    rw
      (
        not_spelled text (codes "--transport") (h transport_key false),
        not_spelled text (codes "--stun-server") (h stun_server_key false),
        not_spelled text (codes "--quic-host") (h quic_host_key false),
        not_spelled text (codes "--quic-port") (h quic_port_key false),
        not_spelled text (codes "-p") (h ssh_port_key true),
        not_spelled text (codes "--port") (h ssh_port_key false),
        not_spelled text (codes "-i") (h ssh_identity_key true),
        not_spelled text (codes "--identity") (h ssh_identity_key false),
      )
      refl

pub All-IsRead : (settings : List Setting) → All IsPlain settings → All IsRead settings
All-IsRead [] h = tt
All-IsRead (s ∷ settings) h = (IsPlain-IsRead s h.0, All-IsRead settings h.1)

-- No value but the five.
no_name :
    (value : Text)
    → eq_bytes value (codes "auto") ≡ false
    → eq_bytes value (codes "direct") ≡ false
    → eq_bytes value (codes "stun") ≡ false
    → eq_bytes value (codes "manual") ≡ false
    → eq_bytes value (codes "ssh") ≡ false
    → (t : TransportPreference) → ¬ (value ≡ transport_name t)
no_name value a b c d e auto p = absurd (ground (arith, a, (eq_bytes_iff value (codes "auto")).1 p))
no_name value a b c d e direct p =
    absurd (ground (arith, b, (eq_bytes_iff value (codes "direct")).1 p))
no_name value a b c d e stun p = absurd (ground (arith, c, (eq_bytes_iff value (codes "stun")).1 p))
no_name value a b c d e manual p =
    absurd (ground (arith, d, (eq_bytes_iff value (codes "manual")).1 p))
no_name value a b c d e ssh p = absurd (ground (arith, e, (eq_bytes_iff value (codes "ssh")).1 p))

abbrev IsTransport : Text → Result OutputError TransportPreference → Type 0
IsTransport value r =
    ((t : TransportPreference) × (r ≡ ok t) × (value ≡ transport_name t))
    ⊎ ((r ≡ err invalid_transport) × ((t : TransportPreference) → ¬ (value ≡ transport_name t)))

is_named :
    (value : Text) (t : TransportPreference)
    → eq_bytes value (transport_name t) ≡ true
    → IsTransport value (ok t)
is_named value t q = inl (t, refl, (eq_bytes_iff value (transport_name t)).0 q)

pub parse_transport-cases : (value : Text) → IsTransport value (parse_transport value)
parse_transport-cases value =
    let named = is_named value in
    if_holds (IsTransport value) (eq_bytes value (codes "auto")) _ _ (named auto) (λ a.
      if_holds (IsTransport value) (eq_bytes value (codes "direct")) _ _ (named direct) (λ b.
        if_holds (IsTransport value) (eq_bytes value (codes "stun")) _ _ (named stun) (λ c.
          if_holds (IsTransport value) (eq_bytes value (codes "manual")) _ _ (named manual) (λ d.
            if_holds (IsTransport value) (eq_bytes value (codes "ssh")) _ _ (named ssh)
              (λ e. inr (refl, no_name value a b c d e))))))
