-- ===== src/Submissions/Records/Find.antt =====
-- What `_find_patch` finds.
use buttercup.Prelude.{
  ℕ, ◌≡◌, String, Bool, true, some, List, [], ◌∷◌, get_elem?, subst, some_eq, eq_iff, Option-cases,
  inl, inr, Bool-cases,
}
use buttercup.Prelude.All.{All}
use buttercup.Message.{SubmissionEntryPatch, SubmissionEntry}
use buttercup.Submissions.Env.{Env}
use buttercup.Submissions.State.{State, enumerate_submissions}
use buttercup.Submissions.State.Enumerate.{IsAt, enumerate_submissions-IsAt}
use buttercup.Submissions.Records.{Found, position, has_internal_id, find_patch_in, find_patch}

-- The entry stands at its index, the patch at its place in the entry, and it has the id.
pub record IsFound (id : String) (entries : List SubmissionEntry) (f : Found) : Type 0 where
  pub at_index : get_elem? entries f.index ≡ some f.entry
  pub at_place : get_elem? f.entry.patches f.place ≡ some f.patch
  pub has_id : f.patch.internal_patch_id ≡ id

get_elem?-position {ℓ} :
    {A : Type ℓ} (p : A → Bool) (xs : List A) {x : A}
    → get_elem? xs (position p xs) ≡ some x
    → p x ≡ true
get_elem?-position p [] h = cc
get_elem?-position p (y ∷ xs) {x} h = elim (Bool-cases (p y)) [
  | inl e ↦
      let at_zero : get_elem? (y ∷ xs) 0 ≡ some x = rw e at h in
      subst (λ z. p z ≡ true) (some_eq at_zero) e
  | inr e ↦ get_elem?-position p xs (rw e at h)
]

IsFound-here :
    (id : String) (entries : List SubmissionEntry) (i : ℕ) (e : SubmissionEntry)
    (p : SubmissionEntryPatch)
    → get_elem? entries i ≡ some e
    → get_elem? e.patches (position (has_internal_id id) e.patches) ≡ some p
    → IsFound id entries (record {
      index = i;
      entry = e;
      place = position (has_internal_id id) e.patches;
      patch = p;
    })
IsFound-here id entries i e p a q = record {
  at_index = a;
  at_place = q;
  has_id = (eq_iff p.internal_patch_id id).0 (get_elem?-position (has_internal_id id) e.patches q);
}

find_patch_in-IsFound :
    (id : String) (entries : List SubmissionEntry) (es : List (ℕ × SubmissionEntry)) (f : Found)
    → All (IsAt entries) es
    → find_patch_in id es ≡ some f
    → IsFound id entries f
unfolding find_patch_in
find_patch_in-IsFound id entries [] f a h = cc
find_patch_in-IsFound id entries ((i, e) ∷ es) f a h =
    elim (Option-cases (get_elem? e.patches (position (has_internal_id id) e.patches))) [
      | inl q ↦ find_patch_in-IsFound id entries es f a.1 (rw (q, find_patch_in) at h)
      | inr (p, q) ↦
          subst (IsFound id entries) (some_eq (rw (q, find_patch_in) at h))
            (IsFound-here id entries i e p a.0 q)
    ]

module _ (env : Env) where
  -- A patch that is found has the internal id that was looked for, and stands at the place of the
  -- entry that is told, which stands at the index that is told.
  pub find_patch-IsFound :
      (id : String) (s : State env) (f : Found)
      → find_patch env id s ≡ some f
      → IsFound id s.entries f
  unfolding find_patch
  find_patch-IsFound id s f h =
      find_patch_in-IsFound id s.entries (enumerate_submissions env s) f
        (enumerate_submissions-IsAt env s) h
