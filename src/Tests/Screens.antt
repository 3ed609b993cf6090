-- ===== src/Tests/Screens.antt =====
-- Layouts of windows of several sizes.
use drive_lab.Prelude.{◌≡◌, refl, true, false}
use drive_lab.Terminal.{make_layout}

smallest_window : (make_layout 24 70).valid ≡ true
unfolding make_layout
smallest_window = refl

too_narrow : (make_layout 24 69).valid ≡ false
unfolding make_layout
too_narrow = refl

tall_window : (make_layout 50 120).visible_drives ≡ 5
unfolding make_layout
tall_window = refl
