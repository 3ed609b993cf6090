-- ===== src/Application/Cli.antt =====
-- app/core_cli.cpp: what the program does with its arguments.
use drive_lab.Prelude.{ℕ, Bool, true, false, List, [], ◌∷◌, ◌++◌, Text, bytes, if◌then◌else◌}
use drive_lab.Result.{Result, ok, err, Error}
use drive_lab.Mode.{ExecutionMode, real, demo, dry_run}
use drive_lab.Drive.{Drive, lock_key, drive_status_name}
use drive_lab.Capability.{CapabilityStatus, capability_name, capability_availability_name}
use drive_lab.Options.{AppConfig, parse_launch_options, usage}
use drive_lab.Application.{create_mock}
use drive_lab.Application.Commands.{CoreSnapshot, core_snapshot}

-- An exit status with what is written to the two streams, or one of the two user interfaces, which
-- then decides the status.
pub data CliOutcome : Type 0 where
  exits : ℕ → Text → Text → CliOutcome
  runs_demo_ui runs_production_ui : CliOutcome

abbrev newline : Text
newline = b'\n' ∷ []

abbrev failed : Error → CliOutcome
failed e = exits 1 [] (e.component ++ (bytes ": " ++ (e.message ++ newline)))

unfoldable pub capability_lines : List CapabilityStatus → Text
capability_lines [] = []
capability_lines (c ∷ cs) =
    bytes "  "
    ++ (capability_name c.id
        ++ (bytes ": "
            ++ (capability_availability_name c.availability
                ++ (bytes " [" ++ (c.provider ++ (bytes "]\n" ++ capability_lines cs))))))

abbrev shown_key : Result Text → Text
shown_key (ok key) = key
shown_key (err e) = bytes "INVALID"

unfoldable pub drive_lines : List Drive → Text
drive_lines [] = []
drive_lines (d ∷ ds) =
    bytes "  "
    ++ (d.current_path
        ++ (bytes "  "
            ++ (drive_status_name d.status
                ++ (bytes "  "
                    ++ (d.identity.model
                        ++ (bytes "\n    identity: "
                            ++ (shown_key (lock_key d.identity)
                                ++ (newline ++ drive_lines ds))))))))

-- The report on a snapshot; the version is a macro of the build.
unfoldable pub dry_run_report : Text → CoreSnapshot → Text
unfolding capability_lines drive_lines
dry_run_report version snapshot =
    bytes "DriveLab Core "
    ++ (version
        ++ (bytes
              "\nMode: dry-run\nInventory source: mock fixtures (native inventory is not wired to dry-run)\nExternal process execution: disabled\n\nCapabilities\n"
            ++ (capability_lines snapshot.capabilities
                ++ (bytes "\nFixture drives\n"
                    ++ (drive_lines snapshot.drives
                        ++ bytes "\nNo device or storage command was executed.\n")))))

-- `AppConfig` with its default members.
abbrev pub dry_run_config : AppConfig
dry_run_config = record {
  mode = dry_run;
  max_parallel_drives = 2;
  report_directory = bytes "/var/lib/drivelab/reports";
  mouse_enabled = true;
}

unfoldable pub run_dry_run_bootstrap : Text → CliOutcome
unfolding dry_run_report
run_dry_run_bootstrap version = elim (create_mock dry_run_config) [
  | err e ↦ failed e
  | ok application ↦ elim (core_snapshot application) [
    | err e ↦ failed e
    | ok snapshot ↦ exits 0 (dry_run_report version snapshot) []
  ]
]

abbrev start_ui : Bool → CliOutcome → Text → CliOutcome
start_ui true ui message = ui
start_ui false ui message = exits 1 [] message

-- By the mode that is selected; the flags say which user interfaces the build has.
unfoldable pub run_mode : Text → Bool → Bool → ExecutionMode → CliOutcome
run_mode version has_demo has_production dry_run = run_dry_run_bootstrap version
run_mode version has_demo has_production demo =
    start_ui has_demo runs_demo_ui (bytes "Demo UI is not available in this build.\n")
run_mode version has_demo has_production real =
    start_ui has_production runs_production_ui
      (bytes "Production UI is not available in this build.\n")

unfoldable pub run_application_cli : Text → Bool → Bool → List Text → Text → CliOutcome
unfolding run_mode
run_application_cli version has_demo has_production arguments name =
    elim (parse_launch_options arguments) [
      | err e ↦ exits 1 [] (e.message ++ (newline ++ usage name))
      | ok options ↦
          if options.show_help
          then exits 0 (usage name) []
          else if options.show_version
          then exits 0 (bytes "DriveLab " ++ (version ++ newline)) []
          else run_mode version has_demo has_production options.mode
    ]
