-- ===== src/Cli/Output/Rendering.antt =====
-- Options written out as arguments and read again.
use quiczilla.Prelude.{
  ℕ, ◌≡◌, refl, ap, ◌∙◌, Bool, true, false, ◌||◌, Option, none, some, List, [], ◌∷◌, Result, ok,
  err, ◌>>=◌, arith, any, All, Bool-cases, inl, inr, if◌then◌else◌,
}
use quiczilla.Prelude.Bytes.{codes, eq_bytes, eq_bytes_iff}
use quiczilla.Paths.{Text}
use quiczilla.Cli.Output.{
  OutputOptions, OutputError, Key, transport_key, stun_server_key, quic_host_key, quic_port_key,
  ssh_port_key, ssh_identity_key, Flag, quiet_flag, json_flag, verbose_flag, no_progress_flag,
  resume_flag, key_of, is_flag, no_options, set, scan, with_flags, refuse_both, from_args,
}

-- An option with its value, in its long or its short form, or a word of another kind.
pub data Setting : Type 0 where
  sets : Key → (is_short : Bool) → (value : Text) → Setting
  word : Text → Setting

abbrev pub spell : Key → (is_short : Bool) → Text
spell transport_key is_short = codes "--transport"
spell stun_server_key is_short = codes "--stun-server"
spell quic_host_key is_short = codes "--quic-host"
spell quic_port_key is_short = codes "--quic-port"
spell ssh_port_key is_short = if is_short then codes "-p" else codes "--port"
spell ssh_identity_key is_short = if is_short then codes "-i" else codes "--identity"

abbrev pub render_all : List Setting → List Text
render_all [] = []
render_all (sets key is_short value ∷ rest) = spell key is_short ∷ value ∷ render_all rest
render_all (word text ∷ rest) = text ∷ render_all rest

abbrev pub words : List Setting → List Text
words [] = []
words (sets key is_short value ∷ rest) = words rest
words (word text ∷ rest) = text ∷ words rest

-- The loop takes the words for what they are.
abbrev pub IsRead : Setting → Type 0
IsRead (sets key is_short value) = (f : Flag) → is_flag f value ≡ false
IsRead (word text) = key_of text ≡ none

pub key_of-spell : (key : Key) (is_short : Bool) → key_of (spell key is_short) ≡ some key
key_of-spell transport_key b = refl
key_of-spell stun_server_key b = refl
key_of-spell quic_host_key b = refl
key_of-spell quic_port_key b = refl
key_of-spell ssh_port_key true = refl
key_of-spell ssh_port_key false = refl
key_of-spell ssh_identity_key true = refl
key_of-spell ssh_identity_key false = refl

spelled : (t name : Text) → key_of name ≡ none → eq_bytes t name ≡ true → key_of t ≡ none
spelled t name h e = ap key_of ((eq_bytes_iff t name).0 e) ∙ h

spelled_either :
    (t a b : Text)
    → key_of a ≡ none
    → key_of b ≡ none
    → (eq_bytes t a || eq_bytes t b) ≡ true
    → key_of t ≡ none
spelled_either t a b h k e = elim (Bool-cases (eq_bytes t a)) [
  | inl q ↦ spelled t a h q
  | inr q ↦ spelled t b k (ground (arith, q, e))
]

flag_key : (f : Flag) (t : Text) → is_flag f t ≡ true → key_of t ≡ none
flag_key quiet_flag t e = spelled_either t (codes "--quiet") (codes "-q") refl refl e
flag_key json_flag t e = spelled t (codes "--json") refl e
flag_key verbose_flag t e = spelled t (codes "--verbose") refl e
flag_key no_progress_flag t e = spelled t (codes "--no-progress") refl e
flag_key resume_flag t e = spelled_either t (codes "-c") (codes "--resume") refl refl e

is_flag-spell : (f : Flag) (key : Key) (is_short : Bool) → is_flag f (spell key is_short) ≡ false
is_flag-spell f key b = elim (Bool-cases (is_flag f (spell key b))) [
  | inl q ↦ absurd (ground (arith, flag_key f (spell key b) q, key_of-spell key b))
  | inr q ↦ q
]

any-render_all :
    (f : Flag) (settings : List Setting)
    → All IsRead settings
    → any (is_flag f) (render_all settings) ≡ any (is_flag f) (words settings)
any-render_all f [] h = refl
any-render_all f (sets key b value ∷ rest) h =
    rw (is_flag-spell f key b, h.0 f) (any-render_all f rest h.1)
any-render_all f (word text ∷ rest) h = ap (λ z. is_flag f text || z) (any-render_all f rest h.1)

module _ {SocketAddr : Type 0} (parse_address : Text → Option SocketAddr)
    (parse_u16 : Text → Option ℕ) where
  -- The settings one after the other, up to the first that fails.
  abbrev pub apply_all :
      List Setting → OutputOptions SocketAddr → Result OutputError (OutputOptions SocketAddr)
  apply_all [] o = ok o
  apply_all (sets key is_short value ∷ rest) o =
      set parse_address parse_u16 key value o >>= apply_all rest
  apply_all (word text ∷ rest) o = apply_all rest o

  bind-cong :
      (m : Result OutputError (OutputOptions SocketAddr))
      (f g : OutputOptions SocketAddr → Result OutputError (OutputOptions SocketAddr))
      → ((o : OutputOptions SocketAddr) → f o ≡ g o)
      → (m >>= f) ≡ (m >>= g)
  bind-cong (ok o) f g h = h o
  bind-cong (err e) f g h = refl

  scan_word :
      (text : Text) (rest : List Text) (o : OutputOptions SocketAddr)
      → key_of text ≡ none
      → scan parse_address parse_u16 (text ∷ rest) o ≡ scan parse_address parse_u16 rest o
  scan_word text [] o e = refl
  scan_word text (value ∷ rest) o e = rw (e, scan) refl

  scan-render_all :
      (settings : List Setting) (o : OutputOptions SocketAddr)
      → All IsRead settings
      → scan parse_address parse_u16 (render_all settings) o ≡ apply_all settings o
  scan-render_all [] o h = refl
  scan-render_all (sets key b value ∷ rest) o h =
      rw (key_of-spell key b, scan)
        (bind-cong (set parse_address parse_u16 key value o)
          (scan parse_address parse_u16 (render_all rest)) (apply_all rest)
          (λ o'. scan-render_all rest o' h.1))
  scan-render_all (word text ∷ rest) o h =
      scan_word text (render_all rest) o h.0 ∙ scan-render_all rest o h.1

  with_flags-render_all :
      (settings : List Setting) (o : OutputOptions SocketAddr)
      → All IsRead settings
      → with_flags parse_address parse_u16 (render_all settings) o
        ≡ with_flags parse_address parse_u16 (words settings) o
  with_flags-render_all settings o h =
      rw
        (
          any-render_all quiet_flag settings h,
          any-render_all json_flag settings h,
          any-render_all verbose_flag settings h,
          any-render_all no_progress_flag settings h,
          any-render_all resume_flag settings h,
        )
        refl

  -- Reading what was written out is applying the settings in their order.
  pub from_args-render_all :
      (settings : List Setting)
      → All IsRead settings
      → from_args parse_address parse_u16 (render_all settings) ≡ (
          apply_all settings (no_options parse_address parse_u16) >>= λ o.
          refuse_both parse_address parse_u16
            (with_flags parse_address parse_u16 (words settings) o))
  unfolding from_args
  from_args-render_all settings h =
      rw (scan-render_all settings (no_options parse_address parse_u16) h) (
        bind-cong (apply_all settings (no_options parse_address parse_u16)) _ _
          (λ o. ap (refuse_both parse_address parse_u16) (with_flags-render_all settings o h)))
