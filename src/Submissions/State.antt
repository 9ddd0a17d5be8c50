-- ===== src/Submissions/State.antt =====
-- The state of a `Submissions` object, and access to its entries. An entry is a shared object: the
-- loops of the source hold references into `self.entries`, so each operation here names its entry by
-- index and writes it back in place.
pub mod Enumerate
pub mod Ascending
use buttercup.Prelude.{
  ℕ, suc, String, Bool, not, ◌&&◌, none, some, List, [], ◌∷◌, ◌++◌, get_elem?, set, filter, str_eq,
}
use buttercup.Message.{SubmissionEntry}
use buttercup.Outcome.{Result, raised, Action}
use buttercup.Submissions.Env.{Env, Command, lset}
use buttercup.Submissions.Entry.{task_id}

-- `enumerate(l)`
abbrev pub enumerate_from {ℓ} : {A : Type ℓ} → ℕ → List A → List (ℕ × A)
enumerate_from i [] = []
enumerate_from i (x ∷ xs) = (i, x) ∷ enumerate_from (suc i) xs

-- The configuration fields of the dataclass.
pub record Limits : Type 0 where
  pub patch_submission_retry_limit : ℕ
  pub patch_requests_per_vulnerability : ℕ
  pub concurrent_patch_requests_per_task : ℕ

module _ (env : Env) where
  open env use {Local, should_stop_processing, run_command, get_matched_sarifs, lrange}

  pub record State : Type 0 where
    pub entries : List SubmissionEntry
    pub matched_sarifs : List String
    -- the calls buffered on the open Redis pipeline, in order
    pub pipeline : List Command
    pub remote : env.api.Remote
    pub local : Local

  -- `__post_init__`, with `_get_stored_submissions`: what a start reads from Redis.
  unfoldable pub start : env.api.Remote → Local → State
  start r l = record {
    entries = lrange l;
    matched_sarifs = get_matched_sarifs l;
    pipeline = [];
    remote = r;
    local = l;
  }

  -- `pipeline.execute()`
  abbrev pub run_commands : List Command → Local → Local
  run_commands [] l = l
  run_commands (c ∷ cs) l = run_commands cs (run_command c l)

  abbrev pub is_active : Local → SubmissionEntry → Bool
  is_active l e = not e.stop && not (should_stop_processing (task_id e) l)

  unfoldable pub enumerate_submissions : State → List (ℕ × SubmissionEntry)
  enumerate_submissions s = filter (λ p. is_active s.local p.1) (enumerate_from 0 s.entries)

  unfoldable pub enumerate_task_submissions : String → State → List (ℕ × SubmissionEntry)
  unfolding enumerate_submissions
  enumerate_task_submissions task s =
      filter (λ p. str_eq (task_id p.1) task) (enumerate_submissions s)

  abbrev pub M : Type 0 → Type 0
  M A = Action State A

  -- Runs on `self.entries[i]`.
  abbrev pub with_entry : {A : Type 0} → ℕ → (SubmissionEntry → M A) → M A
  with_entry i f s = elim (get_elem? s.entries i) [ none ↦ (raised, s) | some e ↦ f e s ]

  abbrev pub put_entry : ℕ → SubmissionEntry → State → State
  put_entry i e s = record s { entries = set s.entries i e }

  abbrev pub buffer : Command → State → State
  buffer c s = record s { pipeline = s.pipeline ++ c ∷ [] }

  -- A step that reads and writes one entry and calls the competition API, as a method.
  abbrev pub on_entry :
      {A : Type 0}
      → (SubmissionEntry → env.api.Remote → Result A × SubmissionEntry × env.api.Remote)
      → ℕ
      → M A
  on_entry step i = with_entry i λ e s.
      let (r, e', remote') = step e s.remote in
      (r, record s { entries = set s.entries i e'; remote = remote' })

  -- `_persist(self.redis, i, e)`
  abbrev pub persist : ℕ → SubmissionEntry → Local → Local
  persist i e l = run_command (lset i e) l
