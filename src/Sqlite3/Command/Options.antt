-- ===== src/Sqlite3/Command/Options.antt =====
-- The options in front of a command are read, in any order and number.
use tcl_dbi.Base.{ℕ, ◌≡◌, refl, ap, ◌∙◌, true, false, Option, none, some, List, [], ◌∷◌, ◌++◌, ◌==◌}
use tcl_dbi.Sqlite3.Host.{Host}
use tcl_dbi.Sqlite3.Session.{Session}
use tcl_dbi.Sqlite3.Command.{
  Flags, no_flags, parsed, is_option, with_flag, read_options, answered, exec_switches, run_exec,
  exec_command, with_options,
}

-- An option as it is given: a switch, or -nullvalue with its value.
pub data Setting (Obj : Type 0) : Type 0 where
  fetch_on flat_on cache_on : Obj → Setting Obj
  null_is : Obj → Obj → Setting Obj

abbrev pub words : {Obj : Type 0} → List (Setting Obj) → List Obj
words [] = []
words (fetch_on o ∷ ss) = o ∷ words ss
words (flat_on o ∷ ss) = o ∷ words ss
words (cache_on o ∷ ss) = o ∷ words ss
words (null_is o v ∷ ss) = o ∷ v ∷ words ss

-- What the options say: a switch is on if it is given, and the last null value counts.
abbrev pub flags_of : {Obj : Type 0} → List (Setting Obj) → Flags → Flags
flags_of [] f = f
flags_of (fetch_on o ∷ ss) f = flags_of ss (record f { use_fetch = true })
flags_of (flat_on o ∷ ss) f = flags_of ss (record f { flat = true })
flags_of (cache_on o ∷ ss) f = flags_of ss (record f { cache = true })
flags_of (null_is o v ∷ ss) f = flags_of ss f

abbrev pub null_of : {Obj : Type 0} → List (Setting Obj) → Option Obj → Option Obj
null_of [] n = n
null_of (null_is o v ∷ ss) n = null_of ss (some v)
null_of (fetch_on o ∷ ss) n = null_of ss n
null_of (flat_on o ∷ ss) n = null_of ss n
null_of (cache_on o ∷ ss) n = null_of ss n

module _ ⦃host : Host⦄ where
  open host use {Obj, string, get_index}

  -- The word starts with a dash and stands for the switch at that place.
  abbrev pub IsSwitch : Obj → ℕ → Type 0
  IsSwitch o k = (is_option (string o) ≡ true) × (get_index exec_switches o ≡ some k)

  abbrev pub AreSwitches : List (Setting Obj) → Type 0
  AreSwitches [] = Unit {0}
  AreSwitches (fetch_on o ∷ ss) = IsSwitch o 0 × AreSwitches ss
  AreSwitches (null_is o v ∷ ss) = IsSwitch o 1 × AreSwitches ss
  AreSwitches (flat_on o ∷ ss) = IsSwitch o 2 × AreSwitches ss
  AreSwitches (cache_on o ∷ ss) = IsSwitch o 3 × AreSwitches ss

  -- A switch in front of what follows.
  read_switch :
      (o : Obj) (k : ℕ) (objv : List Obj) (v : Obj) (f : Flags) (n : Option Obj)
      → IsSwitch o k
      → (k == 1) ≡ false
      → read_options exec_switches 1 (o ∷ v ∷ objv) f n
        ≡ read_options exec_switches 1 (v ∷ objv) (with_flag k f) n
  unfolding read_options
  read_switch o k objv v f n (d, e) h = rw (d, e, h) refl

  -- As `read_switch`, for a list that is known not to be empty.
  read_switch_before :
      (o : Obj) (k : ℕ) (ss : List (Setting Obj)) (cmd : Obj) (objv : List Obj) (f : Flags)
      (n : Option Obj)
      → IsSwitch o k
      → (k == 1) ≡ false
      → read_options exec_switches 1 (o ∷ words ss ++ cmd ∷ objv) f n
        ≡ read_options exec_switches 1 (words ss ++ cmd ∷ objv) (with_flag k f) n
  read_switch_before o k [] cmd objv f n = read_switch o k objv cmd f n
  read_switch_before o k (fetch_on p ∷ ss) cmd objv f n =
      read_switch o k (words ss ++ cmd ∷ objv) p f n
  read_switch_before o k (flat_on p ∷ ss) cmd objv f n =
      read_switch o k (words ss ++ cmd ∷ objv) p f n
  read_switch_before o k (cache_on p ∷ ss) cmd objv f n =
      read_switch o k (words ss ++ cmd ∷ objv) p f n
  read_switch_before o k (null_is p v ∷ ss) cmd objv f n =
      read_switch o k (v ∷ words ss ++ cmd ∷ objv) p f n

  read_null :
      (o v : Obj) (objv : List Obj) (f : Flags) (n : Option Obj)
      → IsSwitch o 1
      → read_options exec_switches 1 (o ∷ v ∷ objv) f n
        ≡ read_options exec_switches 1 objv f (some v)
  unfolding read_options
  read_null o v objv f n (d, e) = rw (d, e) refl

  read_command :
      (cmd : Obj) (objv : List Obj) (f : Flags) (n : Option Obj)
      → is_option (string cmd) ≡ false
      → read_options exec_switches 1 (cmd ∷ objv) f n ≡ parsed f n cmd objv
  unfolding read_options
  read_command cmd [] f n h = rw h refl
  read_command cmd (o ∷ os) f n h = rw h refl

  read_options-words :
      (ss : List (Setting Obj)) (cmd : Obj) (objv : List Obj) (f : Flags) (n : Option Obj)
      → AreSwitches ss
      → is_option (string cmd) ≡ false
      → read_options exec_switches 1 (words ss ++ cmd ∷ objv) f n
        ≡ parsed (flags_of ss f) (null_of ss n) cmd objv
  read_options-words [] cmd objv f n a h = read_command cmd objv f n h
  read_options-words (fetch_on o ∷ ss) cmd objv f n (i, a) h =
      read_switch_before o 0 ss cmd objv f n i refl ∙ read_options-words ss cmd objv _ n a h
  read_options-words (flat_on o ∷ ss) cmd objv f n (i, a) h =
      read_switch_before o 2 ss cmd objv f n i refl ∙ read_options-words ss cmd objv _ n a h
  read_options-words (cache_on o ∷ ss) cmd objv f n (i, a) h =
      read_switch_before o 3 ss cmd objv f n i refl ∙ read_options-words ss cmd objv _ n a h
  read_options-words (null_is o v ∷ ss) cmd objv f n (i, a) h =
      read_null o v (words ss ++ cmd ∷ objv) f n i ∙ read_options-words ss cmd objv f (some v) a h

  exec_command-read :
      (fuel : ℕ) (ss : List (Setting Obj)) (cmd : Obj) (objv : List Obj) (s : Session Obj)
      → exec_command fuel (words ss ++ cmd ∷ objv) s
        ≡ with_options
            (run_exec fuel)
            (read_options exec_switches 1 (words ss ++ cmd ∷ objv) no_flags none)
            s
  unfolding exec_command
  exec_command-read fuel [] cmd objv s = refl
  exec_command-read fuel (fetch_on o ∷ ss) cmd objv s = refl
  exec_command-read fuel (flat_on o ∷ ss) cmd objv s = refl
  exec_command-read fuel (cache_on o ∷ ss) cmd objv s = refl
  exec_command-read fuel (null_is o v ∷ ss) cmd objv s = refl

  -- The `exec` command with options in any order and number in front of an SQL text that does not
  -- start with a dash runs that text: with the switches that are given, the last null value, and what
  -- follows the text as its arguments.
  pub exec_command-options :
      (fuel : ℕ) (ss : List (Setting Obj)) (cmd : Obj) (objv : List Obj) (s : Session Obj)
      → AreSwitches ss
      → is_option (string cmd) ≡ false
      → exec_command fuel (words ss ++ cmd ∷ objv) s ≡ (
        answered (run_exec fuel (flags_of ss no_flags) (null_of ss none) cmd objv s).0,
        (run_exec fuel (flags_of ss no_flags) (null_of ss none) cmd objv s).1,
      )
  exec_command-options fuel ss cmd objv s a h =
      exec_command-read fuel ss cmd objv s
      ∙ ap (λ p. with_options (run_exec fuel) p s)
          (read_options-words ss cmd objv no_flags none a h)
