-- ===== src/Tests/Scans.antt =====
-- Scans of an application with one disk.
use drive_lab.Prelude.{
  ℕ, ◌≡◌, refl, true, false, none, some, List, [], ◌∷◌, bytes, arith, ◌≤◌, map, inl, inr, ◌⊎◌,
}
use drive_lab.Result.{ok}
use drive_lab.Mode.{real}
use drive_lab.Options.{AppConfig}
use drive_lab.Application.{new_application}
use drive_lab.Production.{failed, complete}
use drive_lab.Production.Worker.{Answers, Answer, returned, threw}
use drive_lab.Production.Control.{
  Production, new_production, Event, starts, works, cancels, happens, history,
}
use drive_lab.Production.Ready.{Justified, history-Justified}
use drive_lab.Production.Orderly.{Orderly, Over, history-Orderly}
use drive_lab.Production.Ends.{only_works, scan-Ends, stopped-Fails}
use drive_lab.Production.Generations.{Follows, happens-Follows}
use drive_lab.Tests.OneDisk.{host, evidence_with}

abbrev real_config : AppConfig
real_config = record {
  mode = real;
  max_parallel_drives = 1;
  report_directory = [];
  mouse_enabled = false;
}

abbrev answers : Answers
answers = record {
  inventory = returned (ok host);
  acquired_at = 7;
  evidence = λ inventory. returned (evidence_with []);
}

abbrev full_scan : List Event
full_scan =
    starts none
    ∷ works answers
    ∷ works answers
    ∷ works answers
    ∷ works answers
    ∷ works answers
    ∷ works answers
    ∷ []

abbrev six_answers : List Answers
six_answers = answers ∷ answers ∷ answers ∷ answers ∷ answers ∷ answers ∷ []

abbrev after : List Event → Production
after es = history (new_production true (new_application real_config)) es

scan_completes :
    ((after full_scan).running ≡ false)
    × ((after full_scan).published.phase ≡ complete)
    × ((after full_scan).published.generation ≡ 1)
unfolding history drive_lab.Prelude.any_of drive_lab.Production.inventory_rows
    drive_lab.Production.Worker.assessed
scan_completes = (refl, refl, refl)

history-Justified_example : Justified (after full_scan).published
history-Justified_example = history-Justified (new_application real_config) true full_scan

history-Orderly_example : Orderly (after full_scan)
history-Orderly_example = history-Orderly (new_application real_config) true full_scan

scan-Ends_example :
    ((history (after (starts none ∷ [])) (only_works six_answers)).running ≡ false)
    × ((history (after (starts none ∷ [])) (only_works six_answers)).published.generation
        ≡ (after (starts none ∷ [])).published.generation)
    × Over (history (after (starts none ∷ [])) (only_works six_answers)).published
scan-Ends_example =
    scan-Ends (new_application real_config) true (starts none ∷ []) six_answers
      (unfold history in refl) (omega arith)

abbrev cancelled_early : List Event
cancelled_early = starts none ∷ works answers ∷ cancels ∷ []

stopped-Fails_example :
    ((history (after cancelled_early) (only_works six_answers)).running ≡ false)
    × ((history (after cancelled_early) (only_works six_answers)).published.phase ≡ failed)
stopped-Fails_example =
    stopped-Fails (new_application real_config) true cancelled_early six_answers
      (unfold history in refl) (unfold history in refl) (unfold history in refl) (omega arith)

happens-Follows_example :
    Follows
      (after full_scan)
      (starts (some (bytes "no thread")))
      (happens (after full_scan) (starts (some (bytes "no thread"))))
happens-Follows_example =
    happens-Follows (new_application real_config) true full_scan (starts (some (bytes "no thread")))
