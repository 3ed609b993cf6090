-- ===== src/Options.antt =====
-- app/launch_options.h, app/launch_options.cpp, config/app_config.h and config/app_config.cpp: the
-- command line and the configuration.
use drive_lab.Prelude.{
  ℕ, ◌+◌, ◌≤◌, ◌≡◌, refl, ap, ◌∙◌, sym, ◌↔◌, Bool, true, false, ◌||◌, List, [], ◌∷◌, ◌++◌, ◌==◌,
  Text, bytes, text_eq, any_of, count_if, is_empty, if◌then◌else◌, arith,
}
use drive_lab.Result.{Result, ok, err, Error, invalid_argument}
use drive_lab.Mode.{ExecutionMode, real, demo, dry_run}

pub record LaunchOptions : Type 0 where
  pub mode : ExecutionMode
  pub show_help : Bool
  pub show_version : Bool

-- What an argument is compared with, in the order of the tests.
pub data Argument : Type 0 where
  selects : ExecutionMode → Argument
  asks_help asks_version other : Argument

unfoldable pub argument : Text → Argument
argument a =
    if text_eq a (bytes "--demo")
    then selects demo
    else if text_eq a (bytes "--dry-run")
    then selects dry_run
    else if text_eq a (bytes "--help") || text_eq a (bytes "-h")
    then asks_help
    else if text_eq a (bytes "--version")
    then asks_version
    else other

abbrev command_error : Text → Error
command_error message = record {
  code = invalid_argument;
  component = bytes "CommandLine";
  message = message;
}

-- The loop of `parseLaunchOptions`.
unfoldable pub parse_from : LaunchOptions → Bool → List Text → Result LaunchOptions
parse_from options mode_selected [] = ok options
parse_from options mode_selected (a ∷ args) = elim (argument a) [
  | selects m ↦ elim mode_selected [
    | true ↦ err (command_error (bytes "--demo and --dry-run are mutually exclusive"))
    | false ↦ parse_from (record options { mode = m }) true args
  ]
  | asks_help ↦ parse_from (record options { show_help = true }) mode_selected args
  | asks_version ↦ parse_from (record options { show_version = true }) mode_selected args
  | other ↦ err (command_error (bytes "Unknown option: " ++ a))
]

abbrev pub default_options : LaunchOptions
default_options = record { mode = real; show_help = false; show_version = false }

unfoldable pub parse_launch_options : List Text → Result LaunchOptions
parse_launch_options arguments = parse_from default_options false arguments

unfoldable pub usage : Text → Text
usage executable_name =
    bytes "Usage: "
    ++ (executable_name
        ++ bytes
            " [--demo | --dry-run] [--help] [--version]\n  No mode flag: live Linux discovery and safety TUI\n  --demo     Run the existing no-I/O mock TUI\n  --dry-run  Inspect the mock Core plan without executing processes\n")

pub record AppConfig : Type 0 where
  pub mode : ExecutionMode
  pub max_parallel_drives : ℕ
  pub report_directory : Text
  pub mouse_enabled : Bool

abbrev config_error : Text → Error
config_error message = record {
  code = invalid_argument;
  component = bytes "AppConfig";
  message = message;
}

unfoldable pub validate : AppConfig → Result (Unit {0})
validate c =
    if c.max_parallel_drives == 0
    then err (config_error (bytes "max_parallel_drives must be greater than zero"))
    else if is_empty c.report_directory
    then err (config_error (bytes "report_directory must not be empty"))
    else ok tt

abbrev is_other : Argument → Bool
is_other other = true
is_other _ = false

abbrev is_help : Argument → Bool
is_help asks_help = true
is_help _ = false

abbrev is_version : Argument → Bool
is_version asks_version = true
is_version _ = false

abbrev is_mode : Argument → Bool
is_mode (selects m) = true
is_mode _ = false

-- The mode that the arguments select, or the one there was.
unfoldable pub chosen : ExecutionMode → List Text → ExecutionMode
chosen m [] = m
chosen m (a ∷ args) = elim (argument a) [
  | selects k ↦ chosen k args
  | asks_help ↦ chosen m args
  | asks_version ↦ chosen m args
  | other ↦ chosen m args
]

abbrev one_if : Bool → ℕ
one_if b = if b then 1 else 0

-- What the loop accepts, and what it returns then.
unfoldable pub Parsed : LaunchOptions → Bool → List Text → LaunchOptions → Type 0
Parsed options selected args r =
    (any_of (λ a. is_other (argument a)) args ≡ false)
    × (count_if (λ a. is_mode (argument a)) args + one_if selected ≤ 1)
    × (r.mode ≡ chosen options.mode args)
    × (r.show_help ≡ (options.show_help || any_of (λ a. is_help (argument a)) args))
    × (r.show_version ≡ (options.show_version || any_of (λ a. is_version (argument a)) args))

or_false : (b : Bool) → b || false ≡ b
or_false true = refl
or_false false = refl

same_options :
    (o r : LaunchOptions)
    → r.mode ≡ o.mode
    → r.show_help ≡ o.show_help
    → r.show_version ≡ o.show_version
    → ok o ≡ ok r
same_options o r m h v = cc

one_if_le : (b : Bool) → 0 + one_if b ≤ 1
one_if_le true = omega arith
one_if_le false = omega arith

same_result : (o r : LaunchOptions) → ok o ≡ ok r → r ≡ o
same_result o r e = cc

Parsed-nil :
    (o : LaunchOptions) (selected : Bool) (r : LaunchOptions)
    → (parse_from o selected [] ≡ ok r) ↔ Parsed o selected [] r
unfolding parse_from Parsed any_of count_if chosen
Parsed-nil o selected r = (
  λ e.
      let same = same_result o r e in
      (
        refl,
        one_if_le selected,
        ap (λ (o : LaunchOptions). o.mode) same,
        ap (λ (o : LaunchOptions). o.show_help) same ∙ sym (or_false o.show_help),
        ap (λ (o : LaunchOptions). o.show_version) same ∙ sym (or_false o.show_version),
      ),
  λ (known, once, m, h, v).
      same_options o r m (h ∙ or_false o.show_help) (v ∙ or_false o.show_version),
)

parse_step :
    (k : Argument) (a : Text) (args : List Text) (o : LaunchOptions) (selected : Bool)
    (r : LaunchOptions)
    → argument a ≡ k
    → ((o : LaunchOptions) (selected : Bool)
        → (parse_from o selected args ≡ ok r) ↔ Parsed o selected args r)
    → (parse_from o selected (a ∷ args) ≡ ok r) ↔ Parsed o selected (a ∷ args) r
unfolding parse_from Parsed any_of count_if chosen
parse_step other a args o selected r e ih = rw (e, parse_from, chosen) (λ q. cc, λ p. cc (p.0))
parse_step asks_help a args o selected r e ih =
    rw (e, parse_from, chosen) (ground (arith, ih (record o { show_help = true }) selected))
parse_step asks_version a args o selected r e ih =
    rw (e, parse_from, chosen) (ground (arith, ih (record o { show_version = true }) selected))
parse_step (selects m) a args o true r e ih =
    rw (e, parse_from, chosen) (λ q. cc, λ p. ground (arith, p.1))
parse_step (selects m) a args o false r e ih =
    rw (e, parse_from, chosen) (ground (arith, ih (record o { mode = m }) true))

parse_from_iff :
    (args : List Text) (o : LaunchOptions) (selected : Bool) (r : LaunchOptions)
    → (parse_from o selected args ≡ ok r) ↔ Parsed o selected args r
parse_from_iff [] o selected r = Parsed-nil o selected r
parse_from_iff (a ∷ args) o selected r =
    parse_step (argument a) a args o selected r refl
      (λ o selected. parse_from_iff args o selected r)

-- `parseLaunchOptions` succeeds exactly when every argument is one that it knows and at most one
-- selects a mode; the mode is then the selected one, or real, and help and version are shown exactly
-- when some argument asks for them.
pub parse_launch_options_iff :
    (arguments : List Text) (r : LaunchOptions)
    → (parse_launch_options arguments ≡ ok r) ↔ Parsed default_options false arguments r
unfolding parse_launch_options
parse_launch_options_iff arguments r = parse_from_iff arguments default_options false r

-- A configuration is valid exactly when it allows at least one drive and names a directory.
pub validate_iff :
    (c : AppConfig)
    → (validate c ≡ ok tt) ↔ ((1 ≤ c.max_parallel_drives) × (is_empty c.report_directory ≡ false))
unfolding validate
validate_iff c = ground arith
