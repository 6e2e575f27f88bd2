-- ===== src/Main/Last.antt =====
-- src/main.c: the last of the options of a kind counts.
use tnfsd.Base.{
  ℕ, Bool, true, false, ◌||◌, ◌&&◌, ◌==◌, if◌then◌else◌, Option, none, some, List, [], ◌∷◌, ◌≡◌,
  ◌∙◌, refl, sym, arith, inl, inr, Bool-cases,
}
use tnfsd.Main.{Given, nothing_given, take_option, take_options}

abbrev is_known : ℕ → Bool
is_known c = c == b'p' || c == b'r' || c == b'a' || c == b'u' || c == b'g'

abbrev pub all_known : List (ℕ × List ℕ) → Bool
all_known [] = true
all_known (o ∷ opts) = is_known o.0 && all_known opts

-- Does an option occur?
abbrev pub occurs : ℕ → List (ℕ × List ℕ) → Bool
occurs c [] = false
occurs c (o ∷ opts) = o.0 == c || occurs c opts

abbrev or_else {ℓ} : {A : Type ℓ} → Option A → Option A → Option A
or_else none d = d
or_else (some a) d = some a

abbrev only_if : Bool → List ℕ → Option (List ℕ)
only_if true v = some v
only_if false v = none

-- The argument of the last option of a kind
abbrev pub last_of : ℕ → List (ℕ × List ℕ) → Option (List ℕ)
last_of c [] = none
last_of c (o ∷ opts) = or_else (last_of c opts) (only_if (o.0 == c) o.1)

-- What some options say, over what was said before.
abbrev over : List (ℕ × List ℕ) → Given → Given
over opts g = record {
  uvalue = or_else (last_of b'u' opts) g.uvalue;
  gvalue = or_else (last_of b'g' opts) g.gvalue;
  pvalue = or_else (last_of b'p' opts) g.pvalue;
  read_only = occurs b'r' opts || g.read_only;
  atari_mode = occurs b'a' opts || g.atari_mode;
}

or_else_assoc {ℓ} :
    {A : Type ℓ} (a b c : Option A) → or_else (or_else a b) c ≡ or_else a (or_else b c)
or_else_assoc none b c = refl
or_else_assoc (some a) b c = refl

or_swap : (a b c : Bool) → ((a || b) || c) ≡ (b || ((a || false) || c))
or_swap true true c = refl
or_swap true false c = refl
or_swap false true c = refl
or_swap false false c = refl

over_cons :
    (o : ℕ × List ℕ) (opts : List (ℕ × List ℕ)) (g : Given)
    → over (o ∷ opts) g ≡ over opts (over (o ∷ []) g)
over_cons o opts g =
    rw
      (
        or_else_assoc (last_of b'u' opts) (only_if (o.0 == b'u') o.1) g.uvalue,
        or_else_assoc (last_of b'g' opts) (only_if (o.0 == b'g') o.1) g.gvalue,
        or_else_assoc (last_of b'p' opts) (only_if (o.0 == b'p') o.1) g.pvalue,
        or_swap (o.0 == b'r') (occurs b'r' opts) g.read_only,
        or_swap (o.0 == b'a') (occurs b'a' opts) g.atari_mode,
      )
      refl

take_option-over :
    (c : ℕ) (v : List ℕ) (g : Given)
    → take_option c v g ≡ (if is_known c then some (over ((c, v) ∷ []) g) else none)
unfolding take_option
take_option-over c v g = ground arith

take_options-over :
    (opts : List (ℕ × List ℕ)) (g : Given)
    → take_options opts g ≡ (if all_known opts then some (over opts g) else none)
unfolding take_options
take_options-over [] g = refl
take_options-over (o ∷ opts) g = elim (Bool-cases (is_known o.0)) [
  | inl known ↦
      rw (take_option-over o.0 o.1 g, known, take_options)
        (rw (take_options-over opts (over (o ∷ []) g), over_cons o opts g) refl)
  | inr unknown ↦ rw (take_option-over o.0 o.1 g, unknown, take_options) refl
]

or_else-none {ℓ} : {A : Type ℓ} (a : Option A) → or_else a none ≡ a
or_else-none none = refl
or_else-none (some a) = refl

or_false : (a : Bool) → (a || false) ≡ a
or_false true = refl
or_false false = refl

-- The variables that some options leave set: of the options with an argument the last of its kind
-- counts, and a flag is set if it occurs at all.
abbrev pub said : List (ℕ × List ℕ) → Given
said opts = record {
  uvalue = last_of b'u' opts;
  gvalue = last_of b'g' opts;
  pvalue = last_of b'p' opts;
  read_only = occurs b'r' opts;
  atari_mode = occurs b'a' opts;
}

-- The loop over the options exits if it meets one that is not known. If it meets none, the user,
-- the group and the port are the arguments of the last `-u`, `-g` and `-p`, if there is one, and
-- the daemon is read-only if `-r` occurs and for Atari computers if `-a` does, in whatever order
-- they come.
pub take_options_lem :
    (opts : List (ℕ × List ℕ))
    → take_options opts nothing_given ≡ (if all_known opts then some (said opts) else none)
take_options_lem opts =
    take_options-over opts nothing_given
    ∙ rw
        (
          or_else-none (last_of b'u' opts),
          or_else-none (last_of b'g' opts),
          or_else-none (last_of b'p' opts),
          or_false (occurs b'r' opts),
          or_false (occurs b'a' opts),
        )
        refl

if_some {ℓ} : {A : Type ℓ} (b : Bool) (a c : A) → (if b then some a else none) ≡ some c → c ≡ a
if_some true a c h = cc
if_some false a c h = cc

-- What is left set, if the loop does not exit.
pub take_options-said :
    (opts : List (ℕ × List ℕ)) (g : Given)
    → take_options opts nothing_given ≡ some g
    → g ≡ said opts
take_options-said opts g h =
    if_some (all_known opts) (said opts) g (sym (take_options_lem opts) ∙ h)
