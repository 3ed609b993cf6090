-- ===== src/Demo/Ticks.antt =====
-- How many ticks a time is, in app/demo_session.cpp.
use drive_lab.Prelude.{
  ℕ, zero, suc, ◌+◌, ◌-◌, ◌/◌, ◌%◌, ◌<◌, ◌≡◌, refl, ◌∙◌, inl, inr, leb, pos, arith, Bool-cases,
}
use drive_lab.Demo.State.{DemoWorld, DemoState, DemoSession}
use drive_lab.Demo.Clock.{tick_once, tick_loop, advance, demo_tick}

-- A number of ticks, one after the other.
unfoldable pub after_ticks : DemoWorld → ℕ → DemoState → DemoState
after_ticks w zero s = s
after_ticks w (suc n) s = after_ticks w n (tick_once w s)

after_ticks_add :
    (w : DemoWorld) (m n : ℕ) (s : DemoState)
    → after_ticks w n (after_ticks w m s) ≡ after_ticks w (m + n) s
unfolding after_ticks
after_ticks_add w zero n s = let e : zero + n ≡ n = omega arith in rw e refl
after_ticks_add w (suc m) n s =
    let e : suc m + n ≡ suc (m + n) = omega arith in rw e (after_ticks_add w m n (tick_once w s))

abbrev at_rest : DemoState → ℕ → DemoSession
at_rest s r = record { state = s; tick_remainder = r }

tick_loop_lem :
    (w : DemoWorld) (fuel r : ℕ) (s : DemoState)
    → r < fuel
    → tick_loop w fuel r s ≡ at_rest (after_ticks w (r / 500) s) (r % 500)
unfolding tick_loop after_ticks
tick_loop_lem w zero r s h = elim h [ ]
tick_loop_lem w (suc fuel) r s h = elim (Bool-cases (leb demo_tick r)) [
  | inr less ↦
      let p : r / 500 ≡ zero = ground arith in
      let q : r % 500 ≡ r = ground arith in rw (less, tick_loop, p, q) refl
  | inl more ↦
      let p : r / 500 ≡ suc ((r - 500) / 500) = ground arith in
      let q : r % 500 ≡ (r - 500) % 500 = ground arith in
      rw (more, tick_loop, p, q) (tick_loop_lem w fuel (r - 500) (tick_once w s) (ground arith))
]

-- `advance` by a positive time runs one tick for each 500 ms of it and of what was left over, and
-- keeps the rest, less than 500 ms, for the next time.
pub advance-after_ticks :
    (w : DemoWorld) (n : ℕ) (s : DemoSession)
    → 0 < n
    → advance w (pos n) s ≡ record {
      state = after_ticks w ((s.tick_remainder + n) / 500) s.state;
      tick_remainder = (s.tick_remainder + n) % 500;
    }
unfolding advance
advance-after_ticks w n s h =
    ground (arith, tick_loop_lem w (suc (s.tick_remainder + n)) (s.tick_remainder + n) s.state)

-- It makes no difference to a session whether a time is passed to `advance` at once or in two
-- positive parts.
pub advance-advance :
    (w : DemoWorld) (a b : ℕ) (s : DemoSession)
    → 0 < a
    → 0 < b
    → advance w (pos b) (advance w (pos a) s) ≡ advance w (pos (a + b)) s
advance-advance w a b s p q =
    let r = s.tick_remainder in
    let t : (r + a) / 500 + ((r + a) % 500 + b) / 500 ≡ (r + (a + b)) / 500 = omega arith in
    let u : ((r + a) % 500 + b) % 500 ≡ (r + (a + b)) % 500 = omega arith in
    rw (advance-after_ticks w a s p, advance-after_ticks w (a + b) s (omega arith))
      (advance-after_ticks w b _ q
        ∙ rw (after_ticks_add w ((r + a) / 500) (((r + a) % 500 + b) / 500) s.state, t, u) refl)
