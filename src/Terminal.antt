-- ===== src/Terminal.antt =====
-- ui/tui_layout.h: where the parts of the screen stand. The size of the
-- window is an argument, and an `int` that is never negative is a ℕ.
pub mod Fits
pub mod Demo
pub mod Selection
use drive_lab.Prelude.{
  ℕ, ◌+◌, ◌-◌, ◌*◌, ◌/◌, Bool, true, false, ◌&&◌, ◌||◌, ltb, leb, if◌then◌else◌,
}

pub record Layout : Type 0 where
  pub height : ℕ
  pub width : ℕ
  pub main_top : ℕ
  pub main_bottom : ℕ
  pub bottom_top : ℕ
  pub bottom_rows : ℕ
  pub bottom_entry_y : ℕ
  pub left_divider : ℕ
  pub right_start : ℕ
  pub right_end : ℕ
  pub identity_separator : ℕ
  pub drive_start : ℕ
  pub drive_row_height : ℕ
  pub drive_row_stride : ℕ
  pub drive_first_y : ℕ
  pub drive_viewport_height : ℕ
  pub visible_drives : ℕ
  pub drive_indicator_y : ℕ
  pub content_top : ℕ
  pub valid : Bool

abbrev pub min : ℕ → ℕ → ℕ
min a b = if ltb b a then b else a

abbrev pub max : ℕ → ℕ → ℕ
max a b = if ltb a b then b else a

-- `std::clamp`.
abbrev pub clamp : ℕ → ℕ → ℕ → ℕ
clamp v low high = if ltb v low then low else if ltb high v then high else v

-- The layout that a window starts with, and keeps if it is too small.
abbrev pub initial : ℕ → ℕ → Layout
initial h w = record {
  height = h;
  width = w;
  main_top = 3;
  main_bottom = 0;
  bottom_top = 0;
  bottom_rows = 0;
  bottom_entry_y = 0;
  left_divider = 0;
  right_start = 0;
  right_end = 0;
  identity_separator = 7;
  drive_start = 6;
  drive_row_height = 3;
  drive_row_stride = 3;
  drive_first_y = 6;
  drive_viewport_height = 0;
  visible_drives = 0;
  drive_indicator_y = 0;
  content_top = 0;
  valid = false;
}

abbrev pub row_height : ℕ → ℕ
row_height h = if leb 34 h then 3 else 2

abbrev pub indicator_y : ℕ → ℕ
indicator_y h = h - (5 + 4) - 1 - (if leb 30 h then 1 else 0) - 1

-- The rows left free between two drives.
unfoldable pub gap_rows : ℕ → ℕ → ℕ → ℕ
gap_rows space row visible =
    if ltb 1 visible then min 2 (max 0 (space - visible * row) / max 1 (visible - 1)) else 0

unfoldable pub used_rows : ℕ → ℕ → ℕ → ℕ
unfolding gap_rows
used_rows space row visible = visible * row + (visible - 1) * gap_rows space row visible

abbrev pub drives_shown : ℕ → ℕ → ℕ
drives_shown space row = clamp (space / row) 1 5

-- The rest of `makeLayout`, for a window that is large enough.
unfoldable pub laid_out : ℕ → ℕ → Layout
unfolding used_rows
laid_out h w =
    let bottom = h - (5 + 4) in
    let left = clamp (w / 3) 27 34 in
    let row = row_height h in
    let space = indicator_y h - 6 in
    let visible = drives_shown space row in
    let separator = min 7 (bottom - 1 - 6) in
    record {
      height = h;
      width = w;
      main_top = 3;
      main_bottom = bottom - 1;
      bottom_top = bottom;
      bottom_rows = 5;
      bottom_entry_y = bottom + 3;
      left_divider = left;
      right_start = left + 2;
      right_end = w - 2;
      identity_separator = separator;
      drive_start = 6;
      drive_row_height = row;
      drive_row_stride = row + gap_rows space row visible;
      drive_first_y = 6 + (space - used_rows space row visible) / 2;
      drive_viewport_height = space;
      visible_drives = visible;
      drive_indicator_y = indicator_y h;
      content_top = 0;
      valid = ltb (3 + 2) separator && leb 30 (w - 2 - (left + 2));
    }

unfoldable pub make_layout : ℕ → ℕ → Layout
unfolding laid_out
make_layout h w = if ltb h 24 || ltb w 70 then initial h w else laid_out h w
