-- ===== src/Submissions/Pov/Live.antt =====
-- At most one POV of an entry is accepted or passed at a time.
use buttercup.Prelude.{
  ℕ, ◌≤◌, ◌≡◌, refl, Bool, true, false, not, ◌&&◌, ◌||◌, List, [], ◌∷◌, length, filter, truthy,
  if◌then◌else◌, arith, find?,
}
use buttercup.Message.{CrashWithId, SubmissionEntry}
use buttercup.Outcome.{ok}
use buttercup.CompetitionApi.{is_accepted_or_passed}
use buttercup.CompetitionApi.Answers.{submit_pov-IsConsistent}
use buttercup.CompetitionApi.Client.{ApiClient}
use buttercup.Submissions.Entry.{
  get_first_successful_pov, get_pending_pov_submissions, pov_is_successful, pov_is_pending,
}
use buttercup.Submissions.Pov.{
  is_nonempty, is_some, try_pov, submit_first, submit_pov_if_needed, poll_pov, poll_povs,
  update_pov_status,
}

-- Submitted, and accepted or passed.
abbrev pub is_live : CrashWithId → Bool
is_live c = truthy c.competition_pov_id && is_accepted_or_passed c.result

abbrev pub count_live : List CrashWithId → ℕ
count_live cs = length (filter is_live cs)

abbrev pub has_live : List CrashWithId → Bool
has_live cs = is_nonempty (filter is_live cs)

-- With no successful and no pending POV there is no live one.
none_live :
    (cs : List CrashWithId)
    → (is_some (find? pov_is_successful cs) || is_nonempty (filter pov_is_pending cs)) ≡ false
    → count_live cs ≡ 0
none_live [] h = refl
none_live (c ∷ cs) h = ground (arith, none_live cs)

some_live :
    (cs : List CrashWithId)
    → (is_some (find? pov_is_successful cs) || is_nonempty (filter pov_is_pending cs)) ≡ true
    → has_live cs ≡ true
some_live [] h = h
some_live (c ∷ cs) h = ground (arith, some_live cs)

has_live-count :
    (cs : List CrashWithId) (b : Bool) → count_live cs ≡ (if b then 1 else 0) → has_live cs ≡ b
has_live-count cs b h = ground arith

module _ (c : ApiClient) where
  open c use {Remote}

  try_pov-live :
      (pov : CrashWithId) (r : Remote)
      → is_live pov ≡ false
      → is_live (try_pov c pov r).1 ≡ (try_pov c pov r).0
  unfolding try_pov
  try_pov-live pov r h = ground (arith, submit_pov-IsConsistent c pov.crash r)

  submit_first-live :
      (cs : List CrashWithId) (r : Remote)
      → count_live cs ≡ 0
      → count_live (submit_first c cs r).1 ≡ (if (submit_first c cs r).0 then 1 else 0)
  unfolding submit_first
  submit_first-live [] r h = refl
  submit_first-live (pov ∷ povs) r h =
      let r' = (try_pov c pov r).2 in ground (arith, try_pov-live pov r, submit_first-live povs r')

  submit_first-found :
      (cs : List CrashWithId) (r : Remote)
      → count_live cs ≡ 0
      → has_live (submit_first c cs r).1 ≡ (submit_first c cs r).0
  submit_first-found cs r h =
      has_live-count (submit_first c cs r).1 (submit_first c cs r).0 (submit_first-live cs r h)

  -- If at most one POV of the entry is accepted or passed, then so it is after a submission; and the
  -- step reports a change exactly if there was no such POV before and there is one now.
  pub submit_pov_if_needed-live :
      (e : SubmissionEntry) (r : Remote)
      → count_live e.crashes ≤ 1
      → (count_live (submit_pov_if_needed c e r).1.crashes ≤ 1)
        × ((submit_pov_if_needed c e r).0
            ≡ ok (not (has_live e.crashes) && has_live (submit_pov_if_needed c e r).1.crashes))
  unfolding submit_pov_if_needed get_first_successful_pov get_pending_pov_submissions
  submit_pov_if_needed-live e r h = ground (
    arith,
    none_live e.crashes,
    some_live e.crashes,
    submit_first-live e.crashes r,
    submit_first-found e.crashes r,
    has_live-count e.crashes false,
  )

  poll_pov-live :
      (pov : CrashWithId) (r : Remote) → is_live pov ≡ false → is_live (poll_pov c pov r).1 ≡ false
  unfolding poll_pov
  poll_pov-live pov r h = ground arith

  poll_povs-live :
      (cs : List CrashWithId) (r : Remote) → count_live (poll_povs c cs r).1 ≤ count_live cs
  unfolding poll_povs
  poll_povs-live [] r = omega arith
  poll_povs-live (pov ∷ povs) r =
      ground (arith, poll_pov-live pov r, poll_povs-live povs (poll_pov c pov r).2)

  -- Polling never adds an accepted or passed POV, whatever the server answers and also if a call
  -- raises.
  pub update_pov_status-live :
      (e : SubmissionEntry) (r : Remote)
      → count_live (update_pov_status c e r).1.crashes ≤ count_live e.crashes
  unfolding update_pov_status
  update_pov_status-live e r = poll_povs-live e.crashes r
