-- ===== src/Monitor/Xrun.antt =====
-- The counter of crates/monitor/src/lib.rs under any interleaving of the callers of `record_xrun`.
use sonicbrew.Base.{
  ℕ, zero, suc, ◌≤◌, ◌≡◌, refl, sym, ◌++◌, Bool, not, ◌&&◌, ◌==◌, Bool-cases, List, [], ◌∷◌, arith,
  max, leb, leb→le, ap, ◌∙◌, inl, inr,
}
use mathlib.Core.Path.{subst}
use sonicbrew.Monitor.{Progress, before_load, looping, returned, Caller, step_caller}

-- A step of the caller at a place in the list.
abbrev pub step_at : ℕ → Bool → ℕ → List Caller → ℕ × List Caller
step_at i spurious total [] = (total, [])
step_at zero spurious total (c ∷ cs) =
    let (total', c') = step_caller spurious total c in (total', c' ∷ cs)
step_at (suc i) spurious total (c ∷ cs) =
    let (total', cs') = step_at i spurious total cs in (total', c ∷ cs')

-- Steps in the order of a schedule.
abbrev pub run : List (ℕ × Bool) → ℕ → List Caller → ℕ × List Caller
run [] total cs = (total, cs)
run ((i, spurious) ∷ schedule) total cs =
    let (total', cs') = step_at i spurious total cs in run schedule total' cs'

abbrev pub highest : ℕ → List Caller → ℕ
highest n [] = n
highest n (c ∷ cs) = max c.count (highest n cs)

abbrev SeenBy : ℕ → ℕ → Progress → Type 0
SeenBy total count before_load = Unit {0}
SeenBy total count (looping current) = current ≤ total
SeenBy total count returned = count ≤ total

-- What a caller has seen does not exceed the counter, and neither does what it has recorded.
abbrev pub IsSeen : ℕ → List Caller → Type 0
IsSeen total [] = Unit {0}
IsSeen total (c ∷ cs) = SeenBy total c.count c.progress × IsSeen total cs

abbrev pub Ready : List Caller → Type 0
Ready [] = Unit {0}
Ready (c ∷ cs) = (c.progress ≡ before_load) × Ready cs

abbrev pub Finished : List Caller → Type 0
Finished [] = Unit {0}
Finished (c ∷ cs) = (c.progress ≡ returned) × Finished cs

SeenBy-mono : (t t' n : ℕ) (p : Progress) → t ≤ t' → SeenBy t n p → SeenBy t' n p
SeenBy-mono t t' n before_load h s = tt
SeenBy-mono t t' n (looping current) h s = omega (arith, h, s)
SeenBy-mono t t' n returned h s = omega (arith, h, s)

IsSeen-mono : (t t' : ℕ) (cs : List Caller) → t ≤ t' → IsSeen t cs → IsSeen t' cs
IsSeen-mono t t' [] h s = tt
IsSeen-mono t t' (c ∷ cs) h s =
    (SeenBy-mono t t' c.count c.progress h s.0, IsSeen-mono t t' cs h s.1)

-- A step raises the counter or leaves it, to the caller's count at most.
record Stepped (total : ℕ) (c : Caller) (total' : ℕ) (c' : Caller) : Type 0 where
  rises : total ≤ total'
  bounded : total' ≤ max c.count total
  same : c'.count ≡ c.count
  seen : SeenBy total' c'.count c'.progress

step_progress :
    (spurious : Bool) (total count : ℕ) (p : Progress)
    → SeenBy total count p
    → let c : Caller = record { count = count; progress = p } in
      let (total', c') = step_caller spurious total c in Stepped total c total' c'
unfolding step_caller
step_progress spurious total count before_load s = record {
  rises = omega arith;
  bounded = omega arith;
  same = refl;
  seen = omega arith;
}
step_progress spurious total count returned s = record {
  rises = omega arith;
  bounded = omega arith;
  same = refl;
  seen = s;
}
step_progress spurious total count (looping current) s = elim (Bool-cases (leb count current)) [
  | inl le ↦
      rw (le, step_caller)
        (record {
          rises = omega arith;
          bounded = omega arith;
          same = refl;
          seen = omega (arith, leb→le count current le, s);
        })
  | inr gt ↦ elim (Bool-cases (not spurious && total == current)) [
    | inl same ↦
        rw (gt, same, step_caller)
          (record {
            rises = ground (arith, gt, same);
            bounded = omega arith;
            same = refl;
            seen = omega arith;
          })
    | inr other ↦
        rw (gt, other, step_caller)
          (record { rises = omega arith; bounded = omega arith; same = refl; seen = omega arith })
  ]
]

-- What a run does to the counter and to the callers.
pub record Runs (total : ℕ) (cs : List Caller) (total' : ℕ) (cs' : List Caller) : Type 0 where
  pub rises : total ≤ total'
  pub bounded : total' ≤ highest total cs
  pub same : (n : ℕ) → highest n cs' ≡ highest n cs
  pub seen : IsSeen total' cs'

highest_mono : (m n : ℕ) (cs : List Caller) → m ≤ n → highest m cs ≤ highest n cs
highest_mono m n [] h = h
highest_mono m n (c ∷ cs) h = omega (arith, highest_mono m n cs h)

le-highest : (n : ℕ) (cs : List Caller) → n ≤ highest n cs
le-highest n [] = omega arith
le-highest n (c ∷ cs) = omega (arith, le-highest n cs)

step_at-Runs :
    (i : ℕ) (spurious : Bool) (total : ℕ) (cs : List Caller)
    → IsSeen total cs
    → let (total', cs') = step_at i spurious total cs in Runs total cs total' cs'
step_at-Runs i spurious total [] s = record {
  rises = omega arith;
  bounded = omega arith;
  same = λ n. refl;
  seen = s;
}
step_at-Runs zero spurious total (c ∷ cs) s =
    let moved = step_progress spurious total c.count c.progress s.0 in
    record {
      rises = moved.rises;
      bounded = omega (arith, moved.bounded, le-highest total cs);
      same = λ n. ap (λ k. max k (highest n cs)) moved.same;
      seen = (moved.seen, IsSeen-mono total _ cs moved.rises s.1);
    }
step_at-Runs (suc i) spurious total (c ∷ cs) s =
    let moved = step_at-Runs i spurious total cs s.1 in
    record {
      rises = moved.rises;
      bounded = omega (arith, moved.bounded);
      same = λ n. ap (max c.count) (moved.same n);
      seen = (SeenBy-mono total _ c.count c.progress moved.rises s.0, moved.seen);
    }

highest-max : (n : ℕ) (cs : List Caller) → highest n cs ≡ max n (highest 0 cs)
highest-max n [] = omega arith
highest-max n (c ∷ cs) = omega (arith, highest-max n cs)

run-Runs :
    (schedule : List (ℕ × Bool)) (total : ℕ) (cs : List Caller)
    → IsSeen total cs
    → let (total', cs') = run schedule total cs in Runs total cs total' cs'
run-Runs [] total cs s = record {
  rises = omega arith;
  bounded = le-highest total cs;
  same = λ n. refl;
  seen = s;
}
run-Runs ((i, spurious) ∷ schedule) total cs s =
    let first = step_at-Runs i spurious total cs s in
    let total' = (step_at i spurious total cs).0 in
    let rest = run-Runs schedule _ _ first.seen in
    record {
      rises = omega (arith, first.rises, rest.rises);
      bounded = omega (
        arith,
        rest.bounded,
        first.same total',
        first.bounded,
        highest-max total' cs,
        highest-max total cs,
      );
      same = λ n. rest.same n ∙ first.same n;
      seen = rest.seen;
    }

Ready-IsSeen : (total : ℕ) (cs : List Caller) → Ready cs → IsSeen total cs
Ready-IsSeen total [] r = tt
Ready-IsSeen total (c ∷ cs) r = (rw r.0 tt, Ready-IsSeen total cs r.1)

highest-Finished :
    (total : ℕ) (cs : List Caller) → IsSeen total cs → Finished cs → highest total cs ≤ total
highest-Finished total [] s f = omega arith
highest-Finished total (c ∷ cs) s f =
    let recorded : c.count ≤ total = rw f.0 at s.0 in
    omega (arith, recorded, highest-Finished total cs s.1 f.1)

run-append :
    (first rest : List (ℕ × Bool)) (total : ℕ) (cs : List Caller)
    → run (first ++ rest) total cs ≡ run rest (run first total cs).0 (run first total cs).1
run-append [] rest total cs = refl
run-append ((i, spurious) ∷ first) rest total cs =
    run-append first rest (step_at i spurious total cs).0 (step_at i spurious total cs).1

-- However the callers' steps interleave, spurious failures included: the counter after more steps is
-- never below the counter after fewer, from the first step on; it never exceeds the highest of its first
-- value and the callers' counts; and once all callers have returned, it is that highest value.
pub run-highest :
    (first rest : List (ℕ × Bool)) (total : ℕ) (cs : List Caller)
    → Ready cs
    → let (total', cs') = run (first ++ rest) total cs in
      (total ≤ (run first total cs).0)
      × ((run first total cs).0 ≤ total')
      × (total' ≤ highest total cs)
      × (Finished cs' → total' ≡ highest total cs)
run-highest first rest total cs ready =
    let schedule = first ++ rest in
    let begun = run-Runs first total cs (Ready-IsSeen total cs ready) in
    let went_on = run-Runs rest _ _ begun.seen in
    let ran = run-Runs schedule total cs (Ready-IsSeen total cs ready) in
    (
      begun.rises,
      subst (λ r. (run first total cs).0 ≤ r.0) (sym (run-append first rest total cs))
          went_on.rises,
      ran.bounded,
      λ finished. omega (
        arith,
        ran.bounded,
        ran.same (run schedule total cs).0,
        highest-Finished _ _ ran.seen finished,
        highest_mono total (run schedule total cs).0 cs ran.rises,
      ),
    )
