-- ===== src/Cli/Output/Meaning.antt =====
-- What the options of a transfer mean, said of the words and values that are written out.
use quiczilla.Prelude.{
  ◌⊎◌, ◌↔◌, inl, inr, ℕ, ◌≡◌, refl, true, ◌&&◌, Option, none, some, List, [], ◌∷◌, Result, ok, err,
  arith, All, Option-cases, ◌==◌, if◌then◌else◌, if_holds,
}
use quiczilla.Paths.{Text}
use quiczilla.Cli.Output.{
  TransportPreference, auto, OutputOptions, OutputError, invalid_transport, invalid_stun_server,
  invalid_quic_port, invalid_ssh_port, quiet_and_verbose, Key, transport_key, stun_server_key,
  quic_host_key, quic_port_key, ssh_port_key, ssh_identity_key, quiet_flag, json_flag, verbose_flag,
  no_progress_flag, resume_flag, no_options, set, with_flags, refuse_both, from_args,
}
use quiczilla.Cli.Output.Rendering.{
  Setting, sets, word, render_all, words, apply_all, from_args-render_all,
}
use quiczilla.Cli.Output.Names.{
  Said, transport_name, IsPlain, any-Said, All-IsRead, parse_transport-cases,
}

abbrev number : Key → ℕ
number transport_key = 0
number stun_server_key = 1
number quic_host_key = 2
number quic_port_key = 3
number ssh_port_key = 4
number ssh_identity_key = 5

abbrev pub put : Key → Text → (Key → Option Text) → Key → Option Text
put key value given other = if number key == number other then some value else given other

-- The last value of each key, or what was given before.
abbrev pub values : List Setting → (Key → Option Text) → Key → Option Text
values [] given = given
values (sets key is_short value ∷ rest) given = values rest (put key value given)
values (word text ∷ rest) given = values rest given

abbrev pub TransportIs : Option Text → TransportPreference → Type 0
TransportIs none t = t ≡ auto
TransportIs (some value) t = value ≡ transport_name t

abbrev pub ParsedIs : {A : Type 0} → (Text → Option A) → Option Text → Option A → Type 0
ParsedIs parse none o = o ≡ none
ParsedIs {A} parse (some value) o = (a : A) × (o ≡ some a) × (parse value ≡ some a)

module _ {SocketAddr : Type 0} (parse_address : Text → Option SocketAddr)
    (parse_u16 : Text → Option ℕ) where
  -- A value that its key takes, and one for which it has an error.
  abbrev pub IsRight : Key → Text → Type 0
  IsRight transport_key value = (t : TransportPreference) × (value ≡ transport_name t)
  IsRight stun_server_key value = (a : SocketAddr) × (parse_address value ≡ some a)
  IsRight quic_port_key value = (n : ℕ) × (parse_u16 value ≡ some n)
  IsRight ssh_port_key value = (n : ℕ) × (parse_u16 value ≡ some n)
  IsRight _ value = Unit

  abbrev pub IsWrong : OutputError → Key → Text → Type 0
  IsWrong invalid_transport transport_key value =
      (t : TransportPreference) → ¬ (value ≡ transport_name t)
  IsWrong invalid_stun_server stun_server_key value = parse_address value ≡ none
  IsWrong invalid_quic_port quic_port_key value = parse_u16 value ≡ none
  IsWrong invalid_ssh_port ssh_port_key value = parse_u16 value ≡ none
  IsWrong _ key value = ⊥

  abbrev pub AllRight : List Setting → Type 0
  AllRight [] = Unit
  AllRight (sets key is_short value ∷ rest) = IsRight key value × AllRight rest
  AllRight (word text ∷ rest) = AllRight rest

  -- The first value that is not right has the error.
  abbrev pub FirstWrong : OutputError → List Setting → Type 0
  FirstWrong e [] = ⊥
  FirstWrong e (sets key is_short value ∷ rest) =
      IsWrong e key value ⊎ (IsRight key value × FirstWrong e rest)
  FirstWrong e (word text ∷ rest) = FirstWrong e rest

  pub record IsGiven (given : Key → Option Text) (o : OutputOptions SocketAddr) : Type 0 where
    pub transport : TransportIs (given transport_key) o.transport
    pub stun_server : ParsedIs parse_address (given stun_server_key) o.stun_server
    pub quic_host : o.quic_host ≡ given quic_host_key
    pub quic_port : ParsedIs parse_u16 (given quic_port_key) o.quic_port
    pub ssh_port : ParsedIs parse_u16 (given ssh_port_key) o.ssh_port
    pub ssh_identity : o.ssh_identity ≡ given ssh_identity_key

  pub record FlagsAre (ws : List Text) (o : OutputOptions SocketAddr) : Type 0 where
    pub quiet : (o.quiet ≡ true) ↔ Said quiet_flag ws
    pub json : (o.json ≡ true) ↔ Said json_flag ws
    pub verbose : (o.verbose ≡ true) ↔ Said verbose_flag ws
    pub no_progress : (o.no_progress ≡ true) ↔ Said no_progress_flag ws
    pub resume : (o.resume ≡ true) ↔ Said resume_flag ws

  abbrev Sets :
      Key → Text → (Key → Option Text) → Result OutputError (OutputOptions SocketAddr) → Type 0
  Sets key value given r =
      ((o : OutputOptions SocketAddr) × (r ≡ ok o)
        × IsGiven (put key value given) o
        × IsRight key value)
      ⊎ ((e : OutputError) × (r ≡ err e) × IsWrong e key value)

  set-Sets :
      (key : Key) (value : Text) (given : Key → Option Text) (o : OutputOptions SocketAddr)
      → IsGiven given o
      → Sets key value given (set parse_address parse_u16 key value o)
  set-Sets transport_key value given o h = elim (parse_transport-cases value) [
    | inl (t, e, named) ↦ inl (
      record o { transport = t },
      rw e refl,
      record {
        transport = named;
        stun_server = h.stun_server;
        quic_host = h.quic_host;
        quic_port = h.quic_port;
        ssh_port = h.ssh_port;
        ssh_identity = h.ssh_identity;
      },
      (t, named),
    )
    | inr (e, unnamed) ↦ inr (invalid_transport, rw e refl, unnamed)
  ]
  set-Sets stun_server_key value given o h = elim (Option-cases (parse_address value)) [
    | inr (a, e) ↦ inl (
      record o { stun_server = some a },
      rw e refl,
      record {
        transport = h.transport;
        stun_server = (a, refl, e);
        quic_host = h.quic_host;
        quic_port = h.quic_port;
        ssh_port = h.ssh_port;
        ssh_identity = h.ssh_identity;
      },
      (a, e),
    )
    | inl e ↦ inr (invalid_stun_server, rw e refl, e)
  ]
  set-Sets quic_host_key value given o h = inl (
    record o { quic_host = some value },
    refl,
    record {
      transport = h.transport;
      stun_server = h.stun_server;
      quic_host = refl;
      quic_port = h.quic_port;
      ssh_port = h.ssh_port;
      ssh_identity = h.ssh_identity;
    },
    tt,
  )
  set-Sets quic_port_key value given o h = elim (Option-cases (parse_u16 value)) [
    | inr (n, e) ↦ inl (
      record o { quic_port = some n },
      rw e refl,
      record {
        transport = h.transport;
        stun_server = h.stun_server;
        quic_host = h.quic_host;
        quic_port = (n, refl, e);
        ssh_port = h.ssh_port;
        ssh_identity = h.ssh_identity;
      },
      (n, e),
    )
    | inl e ↦ inr (invalid_quic_port, rw e refl, e)
  ]
  set-Sets ssh_port_key value given o h = elim (Option-cases (parse_u16 value)) [
    | inr (n, e) ↦ inl (
      record o { ssh_port = some n },
      rw e refl,
      record {
        transport = h.transport;
        stun_server = h.stun_server;
        quic_host = h.quic_host;
        quic_port = h.quic_port;
        ssh_port = (n, refl, e);
        ssh_identity = h.ssh_identity;
      },
      (n, e),
    )
    | inl e ↦ inr (invalid_ssh_port, rw e refl, e)
  ]
  set-Sets ssh_identity_key value given o h = inl (
    record o { ssh_identity = some value },
    refl,
    record {
      transport = h.transport;
      stun_server = h.stun_server;
      quic_host = h.quic_host;
      quic_port = h.quic_port;
      ssh_port = h.ssh_port;
      ssh_identity = refl;
    },
    tt,
  )

  abbrev Applies :
      List Setting → (Key → Option Text) → Result OutputError (OutputOptions SocketAddr) → Type 0
  Applies settings given r =
      ((o : OutputOptions SocketAddr) × (r ≡ ok o)
        × IsGiven (values settings given) o
        × AllRight settings)
      ⊎ ((e : OutputError) × (r ≡ err e) × FirstWrong e settings)

  apply_all-Applies :
      (settings : List Setting) (given : Key → Option Text) (o : OutputOptions SocketAddr)
      → IsGiven given o
      → Applies settings given (apply_all parse_address parse_u16 settings o)
  apply_all-Applies [] given o h = inl (o, refl, h, tt)
  apply_all-Applies (word text ∷ rest) given o h = apply_all-Applies rest given o h
  apply_all-Applies (sets key is_short value ∷ rest) given o h =
      elim (set-Sets key value given o h) [
        | inr (e, failed, wrong) ↦ inr (e, rw failed refl, inl wrong)
        | inl (o', done, is_set, right) ↦
            elim (apply_all-Applies rest (put key value given) o' is_set) [
              | inl (o2, ended, all_set, all_right) ↦
                  inl (o2, rw done ended, all_set, (right, all_right))
              | inr (e, failed, wrong) ↦ inr (e, rw done failed, inr (right, wrong))
            ]
      ]

  with_flags-FlagsAre :
      (ws : List Text) (o : OutputOptions SocketAddr)
      → FlagsAre ws (with_flags parse_address parse_u16 ws o)
  with_flags-FlagsAre ws o = record {
    quiet = any-Said quiet_flag ws;
    json = any-Said json_flag ws;
    verbose = any-Said verbose_flag ws;
    no_progress = any-Said no_progress_flag ws;
    resume = any-Said resume_flag ws;
  }

  with_flags-IsGiven :
      (ws : List Text) (given : Key → Option Text) (o : OutputOptions SocketAddr)
      → IsGiven given o
      → IsGiven given (with_flags parse_address parse_u16 ws o)
  with_flags-IsGiven ws given o h = record {
    transport = h.transport;
    stun_server = h.stun_server;
    quic_host = h.quic_host;
    quic_port = h.quic_port;
    ssh_port = h.ssh_port;
    ssh_identity = h.ssh_identity;
  }

  -- What the arguments come to: the options, the refusal of two flags, or the error of a value.
  abbrev pub IsMeant : List Setting → Result OutputError (OutputOptions SocketAddr) → Type 0
  IsMeant settings r =
      ((o : OutputOptions SocketAddr) × (r ≡ ok o)
        × AllRight settings
        × IsGiven (values settings (λ key. none)) o
        × FlagsAre (words settings) o
        × ¬ (Said quiet_flag (words settings) × Said verbose_flag (words settings)))
      ⊎ (((r ≡ err quiet_and_verbose)
            × (AllRight settings
                × (Said quiet_flag (words settings) × Said verbose_flag (words settings))))
          ⊎ ((e : OutputError) × (r ≡ err e) × FirstWrong e settings))

  flags-IsMeant :
      (settings : List Setting) (o : OutputOptions SocketAddr)
      → FlagsAre (words settings) o
      → AllRight settings
      → IsGiven (values settings (λ key. none)) o
      → IsMeant settings (refuse_both parse_address parse_u16 o)
  flags-IsMeant settings o f right h =
      if_holds (IsMeant settings) (o.quiet && o.verbose) _ _
        (λ both. inr (
          inl (
            refl,
            (right, (f.quiet.0 (ground (arith, both)), f.verbose.0 (ground (arith, both)))),
          )))
        (λ both. inl (
          o,
          refl,
          right,
          h,
          f,
          λ said. absurd (ground (arith, both, f.quiet.1 said.0, f.verbose.1 said.1)),
        ))

  -- Options with a value and other words, in any order and number, written out one behind the other,
  -- no value like a flag, and no other word like an option with a value. Either all values are right
  -- and quiet and verbose are not both among the words: then each option has the last value of its
  -- key, or its default without one, and each flag is on exactly if it is among the words. Or all
  -- values are right, both flags are there, and they are refused. Or there is the error of the first
  -- value that is not right.
  pub from_args-IsMeant :
      (settings : List Setting)
      → All IsPlain settings
      → IsMeant settings (from_args parse_address parse_u16 (render_all settings))
  from_args-IsMeant settings plain =
      let read =
        from_args-render_all parse_address parse_u16 settings (All-IsRead settings plain) in
      let begun : IsGiven (λ key. none) (no_options parse_address parse_u16) = record {
        transport = refl;
        stun_server = refl;
        quic_host = refl;
        quic_port = refl;
        ssh_port = refl;
        ssh_identity = refl;
      } in
      rw read
        (elim (apply_all-Applies settings (λ key. none) (no_options parse_address parse_u16)
          begun) [
            | inl (o, done, is_set, right) ↦ rw done (
                flags-IsMeant settings (with_flags parse_address parse_u16 (words settings) o)
                  (with_flags-FlagsAre (words settings) o) right
                  (with_flags-IsGiven (words settings) _ o is_set))
            | inr (e, failed, wrong) ↦ inr (inr (e, rw failed refl, wrong))
          ])
