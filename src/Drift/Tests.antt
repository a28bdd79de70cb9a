-- ===== src/Drift/Tests.antt =====
-- A run of src/monitoring/drift_detector.py, and its theorem there.
use cryptosentinel_ai.Prelude.{ℕ, ◌≤◌, ◌≡◌, refl, none, List, [], ◌∷◌, length}
use cryptosentinel_ai.Float.Fixed.{fixed}
use cryptosentinel_ai.Drift.Detector.{Numpy, new_detector}
use cryptosentinel_ai.Drift.Window.{last, observe_all, window_holds_last}

abbrev numpy : Numpy fixed
numpy = record { histogram = λ scores edges. length scores ∷ []; log = λ x. x; sum = λ xs. 1 }

abbrev scores : List ℕ
scores = 100_001 ∷ 200_001 ∷ 300_001 ∷ []

last_two : last 2 scores ≡ 200_001 ∷ 300_001 ∷ []
last_two = refl

window_holds_last_example :
    ((observe_all fixed numpy scores (new_detector fixed numpy 2 1 none)).window
      ≡ 200_001 ∷ 300_001 ∷ [])
    × (length (observe_all fixed numpy scores (new_detector fixed numpy 2 1 none)).window ≤ 2)
window_holds_last_example = window_holds_last fixed numpy 2 1 none scores
