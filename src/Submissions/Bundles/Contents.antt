-- ===== src/Submissions/Bundles/Contents.antt =====
-- The one bundle of an entry and the ids it is given, of `_ensure_bundle_contents` in
-- orchestrator/src/buttercup/orchestrator/scheduler/submissions.py.
use buttercup.Prelude.{
  ◌≤◌, ◌≡◌, refl, ap, sym, ◌∙◌, String, Bool, true, false, ◌||◌, Option, none, some, [], ◌∷◌, ◌++◌,
  length, arith, inl, inr, str_eq, eq_iff, List-cases, Bool-cases,
}
use buttercup.Prelude.Branch.{if_ind}
use buttercup.Message.{SubmissionResult, Bundle, SubmissionEntry}
use buttercup.Outcome.{Result, ok, result_ind}
use buttercup.CompetitionApi.{submit_bundle}
use buttercup.Submissions.Entry.{task_id}
use buttercup.Submissions.Pov.{has_text, text_or_empty}
use buttercup.CompetitionApi.Client.{ApiClient}
use buttercup.Submissions.Bundles.{
  wants_change, retarget_bundle, wanted_or_held, create_bundle, update_bundle,
  ensure_bundle_contents,
}

str_eq_refl : (s : String) → str_eq s s ≡ true
str_eq_refl s = (eq_iff s s).1 refl

wants_change-held :
    (wanted : Option String) (held : String)
    → wants_change wanted (wanted_or_held wanted held) ≡ false
wants_change-held none held = refl
wants_change-held (some wanted) held = ground (arith, str_eq_refl wanted)

module _ (c : ApiClient) (pov_id : String) (patch_id sarif_id : Option String) where
  abbrev pub differs : Bundle → Bool
  differs b =
      wants_change patch_id b.competition_patch_id || wants_change sarif_id b.competition_sarif_id

  -- With a bundle that has the wanted ids, nothing is done.
  nothing_to_do :
      (e : SubmissionEntry) (b : Bundle) (r : c.Remote)
      → e.bundles ≡ b ∷ []
      → differs b ≡ false
      → ensure_bundle_contents c pov_id patch_id sarif_id e r ≡ (ok false, e, r)
  unfolding ensure_bundle_contents update_bundle
  nothing_to_do e b r h t =
      rw (h, ensure_bundle_contents, update_bundle, t)
        (ap (λ bs. kept (record e { bundles = bs })) h)
    where
      kept : SubmissionEntry → Result Bool × SubmissionEntry × c.Remote
      kept e' = (ok false, e', r)

  bundles-ensure_bundle_contents :
      (e : SubmissionEntry) (b : Bundle) (r : c.Remote)
      → e.bundles ≡ b ∷ []
      → differs b ≡ true
      → (ensure_bundle_contents c pov_id patch_id sarif_id e r).1.bundles
        ≡ retarget_bundle patch_id sarif_id b ∷ []
  unfolding ensure_bundle_contents update_bundle
  bundles-ensure_bundle_contents e b r h t = rw (h, ensure_bundle_contents, update_bundle, t)

  differs-retarget_bundle : (b : Bundle) → differs (retarget_bundle patch_id sarif_id b) ≡ false
  differs-retarget_bundle b = ground (
    arith,
    wants_change-held patch_id b.competition_patch_id,
    wants_change-held sarif_id b.competition_sarif_id,
  )

  -- Whatever a call for an entry with one bundle does, and whatever the server answers, the same call
  -- right after it does nothing: it does not call the server, changes nothing and reports no change.
  -- So the server is not called again after a call that failed.
  pub ensure_bundle_contents-again :
      (e : SubmissionEntry) (b : Bundle) (r : c.Remote)
      → e.bundles ≡ b ∷ []
      → let first = ensure_bundle_contents c pov_id patch_id sarif_id e r in
        ensure_bundle_contents c pov_id patch_id sarif_id first.1 first.2
        ≡ (ok false, first.1, first.2)
  ensure_bundle_contents-again e b r h =
      let first = ensure_bundle_contents c pov_id patch_id sarif_id e r in
      elim (Bool-cases (differs b)) [
        | inl t ↦
            nothing_to_do first.1 (retarget_bundle patch_id sarif_id b) first.2
              (bundles-ensure_bundle_contents e b r h t) (differs-retarget_bundle b)
        | inr t ↦
            nothing_to_do first.1 b first.2
              (ap (λ out. out.1.bundles) (nothing_to_do e b r h t) ∙ h) t
      ]

  -- For the rules of branching terms: if a change is reported, then there is one bundle, with the
  -- wanted ids.
  pub record Wanted (out : Result Bool × SubmissionEntry × c.Remote) : Type 0 where
    pub made : out.0 ≡ ok true → (b : Bundle) × (out.1.bundles ≡ b ∷ []) × (differs b ≡ false)

  differs-text_or_empty :
      (wanted : Option String) → wants_change wanted (text_or_empty wanted) ≡ false
  differs-text_or_empty none = refl
  differs-text_or_empty (some wanted) = ground (arith, str_eq_refl wanted)

  abbrev created : SubmissionEntry → Option String → Bundle
  created e id = record {
    task_id = task_id e;
    competition_pov_id = pov_id;
    competition_patch_id = text_or_empty patch_id;
    competition_sarif_id = text_or_empty sarif_id;
    bundle_id = text_or_empty id;
  }

  create_bundle-Wanted :
      (e : SubmissionEntry) (r : c.Remote)
      → e.bundles ≡ []
      → Wanted (create_bundle c pov_id patch_id sarif_id e r)
  unfolding create_bundle
  create_bundle-Wanted e r h =
      let answer =
        submit_bundle c (task_id e) pov_id (text_or_empty patch_id) (text_or_empty sarif_id) r in
      result_ind Wanted answer.0 (record { made = λ p. cc })
        λ (reply : Option String × SubmissionResult).
          if_ind Wanted (has_text reply.0)
            (record {
              made = λ p. (
                created e reply.0,
                ap (λ bs. bs ++ created e reply.0 ∷ []) h,
                ground (arith, differs-text_or_empty patch_id, differs-text_or_empty sarif_id),
              );
            })
            (record { made = λ p. cc })

  -- If a call for an entry with at most one bundle reports a change, then the entry has exactly one
  -- bundle, with the patch id and the SARIF id that were wanted, as far as they were given.
  pub ensure_bundle_contents-Wanted :
      (e : SubmissionEntry) (r : c.Remote)
      → length e.bundles ≤ 1
      → (ensure_bundle_contents c pov_id patch_id sarif_id e r).0 ≡ ok true
      → (b : Bundle) × ((ensure_bundle_contents c pov_id patch_id sarif_id e r).1.bundles ≡ b ∷ [])
        × (differs b ≡ false)
  unfolding ensure_bundle_contents
  ensure_bundle_contents-Wanted e r le h = elim (List-cases e.bundles) [
    | inl k ↦
        rw (k, ensure_bundle_contents)
          ((create_bundle-Wanted e r k).made (rw (k, ensure_bundle_contents) at h))
    | inr (b, bs, k) ↦ elim (List-cases bs) [
      | inr (b', bs', k') ↦ ground (arith)
      | inl k' ↦
          let one : e.bundles ≡ b ∷ [] = k ∙ ap (λ xs. b ∷ xs) k' in
          elim (Bool-cases (differs b)) [
            | inl t ↦ (
              retarget_bundle patch_id sarif_id b,
              bundles-ensure_bundle_contents e b r one t,
              differs-retarget_bundle b,
            )
            | inr t ↦
                let quiet : ok false ≡ ok true =
                  sym (ap (λ out. out.0) (nothing_to_do e b r one t)) ∙ h in
                cc
          ]
    ]
  ]
