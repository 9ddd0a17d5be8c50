-- ===== src/StatusChecker/Interval.antt =====
-- The rate of the checks, of orchestrator/src/buttercup/orchestrator/scheduler/status_checker.py.
use buttercup.Prelude.{
  ℕ, ◌+◌, ◌≤◌, ◌≡◌, refl, subst, ◌∙◌, Bool, false, List, [], ◌∷◌, arith, ltb, Bool-cases, inl, inr,
}
use buttercup.Outcome.{Result}
use buttercup.StatusChecker.{StatusChecker, start, should_check, check_statuses}

-- A check that notes when it ran, the last first, and answers or raises as it likes.
abbrev pub noted : (ℕ → Result Bool) → ℕ → List ℕ → Result Bool × List ℕ
noted answer now ran = (answer now, now ∷ ran)

-- Calls at the given times.
abbrev pub calls : (ℕ → Result Bool) → List ℕ → StatusChecker × List ℕ → StatusChecker × List ℕ
calls answer [] s = s
calls answer (now ∷ times) s = calls answer times (check_statuses (noted answer now) now s).1

abbrev pub Spaced : ℕ → List ℕ → Type 0
Spaced d [] = Unit
Spaced d (t ∷ []) = d ≤ t
Spaced d (t ∷ u ∷ ts) = (u + d ≤ t) × Spaced d (u ∷ ts)

abbrev last : List ℕ → ℕ
last [] = 0
last (t ∷ _) = t

-- What is kept between the calls.
record Ready (s : StatusChecker × List ℕ) : Type 0 where
  noted_last : s.0.last_check ≡ last s.1
  spaced : Spaced s.0.check_interval s.1

Spaced-cons : (d now : ℕ) (ran : List ℕ) → last ran + d ≤ now → Spaced d ran → Spaced d (now ∷ ran)
Spaced-cons d now [] h s = omega (arith, h)
Spaced-cons d now (t ∷ ran) h s = (h, s)

due_le : (now d l m : ℕ) → ltb now (l + d) ≡ false → l ≡ m → m + d ≤ now
due_le now d l m h e = ground arith

ready :
    (c : StatusChecker) (ran : List ℕ) (answer : ℕ → Result Bool) (now : ℕ)
    → Ready (c, ran)
    → let s' = (check_statuses (noted answer now) now (c, ran)).1 in
      Ready s' × (s'.0.check_interval ≡ c.check_interval)
unfolding check_statuses should_check
ready c ran answer now h = elim (Bool-cases (ltb now (c.last_check + c.check_interval))) [
  | inl early ↦ rw (early) (h, refl)
  | inr due ↦ rw (due) (
    record {
      noted_last = refl;
      spaced =
          Spaced-cons c.check_interval now ran
            (due_le now c.check_interval c.last_check (last ran) due h.noted_last) h.spaced;
    },
    refl,
  )
]

-- A run of calls keeps what is ready, and the interval.
calls-Ready :
    (answer : ℕ → Result Bool) (times : List ℕ) (s : StatusChecker × List ℕ)
    → Ready s
    → Ready (calls answer times s) × ((calls answer times s).0.check_interval ≡ s.0.check_interval)
calls-Ready answer [] s h = (h, refl)
calls-Ready answer (now ∷ times) (c, ran) h =
    let (here, same) = ready c ran answer now h in
    let (there, same') =
      calls-Ready answer times (check_statuses (noted answer now) now (c, ran)).1 here in
    (there, same' ∙ same)

-- However the clock runs, whatever the check answers and whether it raises, any two checks that run
-- one after the other are at least `check_interval` apart, and the first does not run earlier than
-- `check_interval`.
pub calls-Spaced :
    (answer : ℕ → Result Bool) (times : List ℕ) (check_interval : ℕ)
    → Spaced check_interval (calls answer times (start check_interval, [])).1
calls-Spaced answer times d =
    let (h, same) =
      calls-Ready answer times (start d, []) (record { noted_last = refl; spaced = tt }) in
    subst (λ i. Spaced i (calls answer times (start d, [])).1) same h.spaced
