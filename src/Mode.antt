-- ===== src/Mode.antt =====
-- core/execution_mode.h.
use drive_lab.Prelude.{Text, bytes}

pub data ExecutionMode : Type 0 where
  real demo dry_run : ExecutionMode

unfoldable pub execution_mode_name : ExecutionMode → Text
execution_mode_name real = bytes "real"
execution_mode_name demo = bytes "demo"
execution_mode_name dry_run = bytes "dry-run"
