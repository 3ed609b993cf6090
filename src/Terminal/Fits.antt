-- ===== src/Terminal/Fits.antt =====
-- The parts of the screen fit into the window.
use drive_lab.Prelude.{ℕ, ◌+◌, ◌-◌, ◌*◌, ◌≤◌, ◌<◌, ◌≡◌, true, ◌⊎◌, false}
use drive_lab.Terminal.{Layout}

-- What the parts of a layout promise, in a window of the height and width.
abbrev pub Fits : ℕ → ℕ → Layout → Type 0
Fits h w l =
    ((24 ≤ h) × (70 ≤ w))
    × ((l.main_top + 2 < l.identity_separator) × (l.identity_separator < l.main_bottom))
    × ((l.main_bottom < l.bottom_top) × (l.bottom_entry_y + l.bottom_rows < h))
    × ((l.left_divider < l.right_start) × (l.right_start + 30 ≤ l.right_end) × (l.right_end < w))
    × ((1 ≤ l.visible_drives) × (l.drive_start ≤ l.drive_first_y))
    × ((l.drive_first_y + ((l.visible_drives - 1) * l.drive_row_stride + l.drive_row_height)
          ≤ l.drive_indicator_y)
        × (l.drive_indicator_y < l.main_bottom))

-- A window that is large enough has a valid layout in which every part fits; another has none.
abbrev pub Described : ℕ → ℕ → Layout → Type 0
Described h w l =
    (((24 ≤ h) × (70 ≤ w)) × ((l.valid ≡ true) × Fits h w l))
    ⊎ (((h < 24) ⊎ (w < 70)) × (l.valid ≡ false))
