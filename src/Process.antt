-- ===== src/Process.antt =====
-- process/process_runner.h and process/disabled_process_runner.cpp: what would be run, and the
-- runner that runs nothing.
use drive_lab.Prelude.{ℕ, Bool, ◌||◌, List, [], ◌∷◌, ◌++◌, ◌==◌, Text, bytes, any_of, if◌then◌else◌}
use drive_lab.Result.{Result, err, execution_disabled}
use drive_lab.Mode.{ExecutionMode, execution_mode_name}

-- A timeout is a number of milliseconds.
pub record ProcessSpec : Type 0 where
  pub executable : Text
  pub arguments : List Text
  pub environment : List (Text × Text)
  pub timeout : ℕ
  pub capture_stdout : Bool
  pub capture_stderr : Bool

pub record ProcessResult : Type 0 where
  pub exit_code : ℕ
  pub terminating_signal : ℕ
  pub timed_out : Bool
  pub stdout_text : Text
  pub stderr_text : Text

-- The characters of `find_first_of`, and those that are escaped.
abbrev is_quotable : ℕ → Bool
is_quotable c = (c == b' ') || ((c == b'\t') || ((c == b'"') || (c == b'\'')))

abbrev is_escaped : ℕ → Bool
is_escaped c = (c == b'\\') || (c == b'"')

unfoldable pub escape : Text → Text
escape [] = []
escape (c ∷ cs) = let rest = c ∷ escape cs in if is_escaped c then b'\\' ∷ rest else rest

unfoldable pub quote_for_display : Text → Text
quote_for_display value =
    if any_of is_quotable value then b'"' ∷ (escape value ++ (b'"' ∷ [])) else value

unfoldable pub render_arguments : List Text → Text
render_arguments [] = []
render_arguments (a ∷ args) = b' ' ∷ (quote_for_display a ++ render_arguments args)

unfoldable pub render_process_spec : ProcessSpec → Text
unfolding render_arguments quote_for_display escape
render_process_spec spec = quote_for_display spec.executable ++ render_arguments spec.arguments

pub record DisabledProcessRunner : Type 0 where
  pub mode : ExecutionMode
  pub planned : List ProcessSpec

-- `DisabledProcessRunner::run`.
unfoldable pub run :
    ProcessSpec → DisabledProcessRunner → DisabledProcessRunner × Result ProcessResult
unfolding render_process_spec
run spec runner = (
  record runner { planned = runner.planned ++ (spec ∷ []) },
  err (record {
    code = execution_disabled;
    component = bytes "ProcessRunner";
    message =
        bytes "Process execution is disabled in "
        ++ (execution_mode_name runner.mode ++ (bytes " mode: " ++ render_process_spec spec));
  }),
)
