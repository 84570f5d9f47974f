-- ===== src/Monitor/Tests.antt =====
-- The properties of crates/monitor at concrete inputs, and runs of the code.
use sonicbrew.Base.{◌≤◌, ◌≡◌, refl, true, false, List, [], ◌∷◌, ◌++◌}
use sonicbrew.Monitor.{Caller, before_load, from_samples}
use sonicbrew.Monitor.Xrun.{run, Finished, run-highest}

-- Two callers; the first one's exchange fails once for no reason, the second one overtakes it.
abbrev callers : List Caller
callers =
    record { count = 5; progress = before_load } ∷ record { count = 9; progress = before_load } ∷ []

run-highest_example :
    let (total, callers') =
      run
        (((0, false) ∷ (0, true) ∷ (1, false) ∷ (1, false) ∷ []) ++ (0, false) ∷ (0, false) ∷ [])
        2
        callers in
    let (midway, _) = run ((0, false) ∷ (0, true) ∷ (1, false) ∷ (1, false) ∷ []) 2 callers in
    (2 ≤ midway) × (midway ≤ total) × (total ≤ 9) × (Finished callers' → total ≡ 9)
run-highest_example =
    run-highest ((0, false) ∷ (0, true) ∷ (1, false) ∷ (1, false) ∷ [])
      ((0, false) ∷ (0, false) ∷ []) 2 callers (refl, (refl, tt))

stats : from_samples (4 ∷ 9 ∷ 2 ∷ []) ≡ record { least = 2; greatest = 9; avg = 5 }
unfolding from_samples
stats = refl
