-- ===== src/Tests/CommandLines.antt =====
-- Command lines.
use drive_lab.Prelude.{◌≡◌, ◌↔◌, refl, true, false, List, [], ◌∷◌, Text, bytes, text_eq}
use drive_lab.Result.{ok}
use drive_lab.Mode.{demo}
use drive_lab.Options.{
  LaunchOptions, argument, parse_from, parse_launch_options, default_options, Parsed,
  parse_launch_options_iff,
}

abbrev demo_help : List Text
demo_help = bytes "--demo" ∷ bytes "-h" ∷ []

abbrev asked : LaunchOptions
asked = record { mode = demo; show_help = true; show_version = false }

parse_test : parse_launch_options demo_help ≡ ok asked
unfolding parse_launch_options parse_from argument text_eq bytes
parse_test = refl

parse_launch_options_iff_example :
    (parse_launch_options demo_help ≡ ok asked) ↔ Parsed default_options false demo_help asked
parse_launch_options_iff_example = parse_launch_options_iff demo_help asked
