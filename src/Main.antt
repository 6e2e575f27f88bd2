-- ===== src/Main.antt =====
-- src/main.c: the options, the root directory and the port that the daemon is started with. `getopt`
-- and `atoi`, of the C library, are parameters. What is printed, the log's stream and the handler of
-- the signal are left out.
pub mod Chroot
pub mod Last
pub mod Started
pub mod ReadOnly
use tnfsd.Base.{
  ℕ, Bool, true, false, ◌||◌, ◌==◌, ltb, if◌then◌else◌, Option, none, some, List, [], ◌∷◌, Option,
}
use tnfsd.Base.Int.{ℤ, pos, negsuc}
use tnfsd.Os.{Os}
use tnfsd.Tnfs.{Io}
use tnfsd.Main.Chroot.{Chrooted, exits, returns, chroot_tnfs, warn_if_root}
use tnfsd.Server.Startup.{Options, Exit, tnfsd_start}

abbrev tnfsd_port : ℕ
tnfsd_port = 16384

-- What `getopt` finds: each option with its argument, `?` for one that it does not know and `:` for
-- an argument that is missing; and the arguments that are no options, from `optind` on.
pub record Parsed : Type 0 where
  pub opts : List (ℕ × List ℕ)
  pub operands : List (List ℕ)

-- The variables that the options set
pub record Given : Type 0 where
  pub uvalue : Option (List ℕ)
  pub gvalue : Option (List ℕ)
  pub pvalue : Option (List ℕ)
  pub read_only : Bool
  pub atari_mode : Bool

abbrev pub nothing_given : Given
nothing_given = record {
  uvalue = none;
  gvalue = none;
  pvalue = none;
  read_only = false;
  atari_mode = false;
}

-- The `switch` on one option; nothing, if it exits.
unfoldable pub take_option : ℕ → List ℕ → Given → Option Given
take_option opt optarg g =
    if opt == b'p'
    then some (record g { pvalue = some optarg })
    else if opt == b'r'
    then some (record g { read_only = true })
    else if opt == b'a'
    then some (record g { atari_mode = true })
    else if opt == b'u'
    then some (record g { uvalue = some optarg })
    else if opt == b'g'
    then some (record g { gvalue = some optarg })
    else none

-- The `while` around it
unfoldable pub take_options : List (ℕ × List ℕ) → Given → Option Given
take_options [] g = some g
take_options (o ∷ opts) g = elim (take_option o.0 o.1 g) [
  | none ↦ none
  | some h ↦ take_options opts h
]

-- The one operand that is required
unfoldable pub root_path : List (List ℕ) → Option (List ℕ)
root_path [] = none
root_path (r ∷ []) = some r
root_path (r ∷ s ∷ rest) = none

-- `port < 1 || port > 65535`
unfoldable pub valid_port : ℤ → Option ℕ
valid_port (negsuc n) = none
valid_port (pos n) = if ltb n 1 || ltb 65535 n then none else some n

-- How the process ends: with `exit (-1)`, or with 0 after `tnfsd_start`, whatever that returned.
pub data Ended : Type 0 where
  failed : Io → Ended
  ran : Exit → Ended

-- In the jail, the root directory is `/`.
abbrev pub jailed : Chrooted → Option (List ℕ) × Io
jailed (exits io) = (none, io)
jailed (returns io) = (some (b'/' ∷ []), io)

abbrev pub start_with : Given → List ℕ → ℕ → Options
start_with g root port = record {
  path = root;
  port = port;
  read_only = g.read_only;
  atari_mode = g.atari_mode;
}

abbrev ended : Option Exit → Option Ended
ended none = none
ended (some e) = some (ran e)

unfoldable pub port_of : (List ℕ → ℤ) → Option (List ℕ) → Option ℕ
unfolding valid_port
port_of atoi none = some tnfsd_port
port_of atoi (some v) = valid_port (atoi v)

module _ (os : Os) where
  -- The process's state and the root directory, once the privileges have been given up, if the
  -- options say so; nothing and the state, if it exits.
  unfoldable pub jail : Given → List ℕ → Io → Option (List ℕ) × Io
  unfolding chroot_tnfs
  jail g root io = elim g.uvalue [
    | none ↦ elim g.gvalue [ none ↦ (some root, io) | some group ↦ (none, io) ]
    | some user ↦ elim g.gvalue [
      | none ↦ (none, io)
      | some group ↦ jailed (chroot_tnfs os user group root io)
    ]
  ]

module _ (os : Os) (atoi : List ℕ → ℤ) where
  -- From `warn_if_root` on
  unfoldable pub start_daemon : ℕ → List ℕ → Given → List ℕ → Io → Option Ended
  unfolding port_of tnfsd_start warn_if_root
  start_daemon n bootsector g root io = elim (port_of atoi g.pvalue) [
    | none ↦ some (failed (warn_if_root os io))
    | some port ↦ ended (tnfsd_start os n bootsector (start_with g root port) (warn_if_root os io))
  ]

  -- From the checks of the operands on
  unfoldable pub with_options : ℕ → List ℕ → Given → List (List ℕ) → Io → Option Ended
  unfolding root_path jail start_daemon
  with_options n bootsector g operands io = elim (root_path operands) [
    | none ↦ some (failed io)
    | some root ↦
        let (entered, io') = jail os g root io in
        elim entered [ none ↦ some (failed io') | some r ↦ start_daemon n bootsector g r io' ]
  ]

  -- The main loop is run for so many passes at most; nothing, if it goes on.
  unfoldable pub main : (List (List ℕ) → Parsed) → ℕ → List ℕ → List (List ℕ) → Io → Option Ended
  unfolding take_options with_options
  main getopt n bootsector argv io =
      let p = getopt argv in
      elim (take_options p.opts nothing_given) [
        | none ↦ some (failed io)
        | some g ↦ with_options n bootsector g p.operands io
      ]
