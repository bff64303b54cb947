-- ===== src/Cli/Output/Tests.antt =====
-- Options of a transfer, read from its arguments.
use quiczilla.Prelude.{
  ℕ, ◌≡◌, refl, ap, arith, err, Bool, false, true, false, Option, none, some, List, [], ◌∷◌,
}
use quiczilla.Prelude.Bytes.{codes}
use quiczilla.Paths.{Text}
use quiczilla.Cli.Output.{
  Key, key_of, quiet_and_verbose, ssh_port_key, transport_key, from_args, Flag, is_flag, quiet_flag,
  json_flag, verbose_flag, no_progress_flag, resume_flag,
}
use quiczilla.Cli.Output.Names.{Names, Names-iff}
use quiczilla.Cli.Output.Meaning.{IsMeant, from_args-IsMeant}
use quiczilla.Cli.Output.Rendering.{spell, key_of-spell, Setting, sets, word, render_all}

abbrev first_code : Text → Option ℕ
first_code [] = none
first_code (c ∷ s) = some c

abbrev whole : Text → Option Text
whole t = some t

abbrev settings : List Setting
settings =
    sets ssh_port_key true (codes "2")
    ∷ word (codes "file")
    ∷ sets transport_key false (codes "stun")
    ∷ word (codes "--json")
    ∷ []

port_no_flag : (f : Flag) → is_flag f (codes "2") ≡ false
port_no_flag quiet_flag = refl
port_no_flag json_flag = refl
port_no_flag verbose_flag = refl
port_no_flag no_progress_flag = refl
port_no_flag resume_flag = refl

value_no_flag : (f : Flag) → is_flag f (codes "stun") ≡ false
value_no_flag quiet_flag = refl
value_no_flag json_flag = refl
value_no_flag verbose_flag = refl
value_no_flag no_progress_flag = refl
value_no_flag resume_flag = refl

plain_value :
    (value : Text) → ((f : Flag) → is_flag f value ≡ false) → (f : Flag) → ¬ (Names f value)
plain_value value h f named = ground (arith, h f, (Names-iff f value).1 named)

plain_word :
    (text : Text)
    → key_of text ≡ none
    → (key : Key) (is_short : Bool) → ¬ (text ≡ spell key is_short)
plain_word text h key is_short e = ground (arith, h, ap key_of e, key_of-spell key is_short)

from_args-IsMeant_example :
    IsMeant whole first_code settings (from_args whole first_code (render_all settings))
from_args-IsMeant_example = from_args-IsMeant whole first_code settings (
  plain_value (codes "2") port_no_flag,
  (
    plain_word (codes "file") refl,
    (plain_value (codes "stun") value_no_flag, (plain_word (codes "--json") refl, tt)),
  ),
)

-- A value that is an option's name is still a value, and quiet with verbose is refused.
quiet_verbose :
    from_args whole first_code (codes "-q" ∷ codes "-i" ∷ codes "-p" ∷ codes "--verbose" ∷ [])
    ≡ err quiet_and_verbose
unfolding from_args
quiet_verbose = refl
