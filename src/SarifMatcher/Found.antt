-- ===== src/SarifMatcher/Found.antt =====
-- The match is what is found in all comparisons in order, for the loops of
-- orchestrator/src/buttercup/orchestrator/scheduler/sarif_matcher.py.
use buttercup.Prelude.{
  ◌≡◌, refl, sym, ap, ◌∙◌, Bool, true, false, Option, none, some, List, [], ◌∷◌, ◌++◌, map, find?,
  List-cases, inl, inr, arith,
}
use mathlib.Core.List.{append_assoc, append-nil}
use buttercup.Outcome.{Result, ok, raised}
use buttercup.SarifMatcher.Frames.{readable, frames_of, all_frames}
use buttercup.SarifMatcher.{
  SarifInfo, Frame, SarifMatch, StackFrame, Run, Python, sarif_detail, compared, is_match,
  match_frame, get_frame, match_thread_callstack, match_threads, match_sarif,
}

-- What is found first, or else second.
abbrev pub or_else {ℓ} : {A : Type ℓ} → Option A → Option A → Option A
or_else (some a) b = some a
or_else none b = b

module _ {ℓ} {A : Type ℓ} (p : A → Bool) where
  cons_or_else :
      (x : A) (xs : List A) → find? p (x ∷ xs) ≡ elim (p x) [ true ↦ some x | false ↦ find? p xs ]
  cons_or_else x xs = ground arith

  or_else_assoc :
      (b : Bool) (x : A) (o o' : Option A)
      → elim b [ true ↦ some x | false ↦ or_else o o' ]
        ≡ or_else (elim b [ true ↦ some x | false ↦ o ]) o'
  or_else_assoc true x o o' = refl
  or_else_assoc false x o o' = refl

  find?-append : (xs ys : List A) → find? p (xs ++ ys) ≡ or_else (find? p xs) (find? p ys)
  find?-append [] ys = refl
  find?-append (x ∷ xs) ys =
      cons_or_else x (xs ++ ys)
      ∙ ap (λ o. elim (p x) [ true ↦ some x | false ↦ o ]) (find?-append xs ys)
      ∙ or_else_assoc (p x) x (find? p xs) (find? p ys)
      ∙ ap (λ o. or_else o (find? p ys)) (sym (cons_or_else x xs))

module _ (python : Python) where
  -- Each frame with each entry of the report.
  abbrev pub comparisons : List Frame → List SarifInfo → List SarifMatch
  comparisons [] infos = []
  comparisons (frame ∷ frames) infos = map (compared python frame) infos ++ comparisons frames infos

  comparisons-append :
      (fs gs : List Frame) (infos : List SarifInfo)
      → comparisons (fs ++ gs) infos ≡ comparisons fs infos ++ comparisons gs infos
  comparisons-append [] gs infos = refl
  comparisons-append (f ∷ fs) gs infos =
      ap (λ l. map (compared python f) infos ++ l) (comparisons-append fs gs infos)
      ∙ sym (
          append_assoc (map (compared python f) infos) (comparisons fs infos)
            (comparisons gs infos))

  abbrev pub found : List Frame → List SarifInfo → Option SarifMatch
  found frames infos = find? (is_match python) (comparisons frames infos)

  pub found-append :
      (fs gs : List Frame) (infos : List SarifInfo)
      → found (fs ++ gs) infos ≡ or_else (found fs infos) (found gs infos)
  found-append fs gs infos =
      ap (find? (is_match python)) (comparisons-append fs gs infos)
      ∙ find?-append (is_match python) (comparisons fs infos) (comparisons gs infos)

  match_frame-first :
      (frame : Frame) (infos : List SarifInfo)
      → match_frame python frame infos ≡ find? (is_match python) (map (compared python frame) infos)
  unfolding match_frame
  match_frame-first frame [] = refl
  match_frame-first frame (info ∷ infos) =
      ap
        (λ o. elim (is_match python (compared python frame info)) [
          | true ↦ some (compared python frame info)
          | false ↦ o
        ])
        (match_frame-first frame infos)
      ∙ sym (
          cons_or_else (is_match python) (compared python frame info)
            (map (compared python frame) infos))

  pub found_one :
      (frame : Frame) (infos : List SarifInfo)
      → found (frame ∷ []) infos ≡ match_frame python frame infos
  found_one frame infos =
      ap (find? (is_match python)) (append-nil (map (compared python frame) infos))
      ∙ sym (match_frame-first frame infos)

  either :
      (o rest : Option SarifMatch) → (elim o [ some m ↦ some m | none ↦ rest ]) ≡ or_else o rest
  either (some m) rest = refl
  either none rest = refl

  -- One step of the loop over the frames of a thread.
  step :
      (read : Result (Option Frame)) (infos : List SarifInfo) (rest : Option SarifMatch)
      → (elim read [
        | raised ↦ rest
        | ok none ↦ rest
        | ok (some frame) ↦ elim (match_frame python frame infos) [ some m ↦ some m | none ↦ rest ]
      ])
        ≡ or_else (found (readable python read) infos) rest
  step raised infos rest = refl
  step (ok none) infos rest = refl
  step (ok (some frame)) infos rest =
      either (match_frame python frame infos) rest
      ∙ ap (λ o. or_else o rest) (sym (found_one frame infos))

  match_thread_callstack-found :
      (fs : List StackFrame) (infos : List SarifInfo)
      → match_thread_callstack python fs infos ≡ found (frames_of python fs) infos
  unfolding match_thread_callstack
  match_thread_callstack-found [] infos = refl
  match_thread_callstack-found (f ∷ fs) infos =
      step (get_frame python f) infos (match_thread_callstack python fs infos)
      ∙ ap (or_else (found (readable python (get_frame python f)) infos))
          (match_thread_callstack-found fs infos)
      ∙ sym (found-append (readable python (get_frame python f)) (frames_of python fs) infos)

  match_threads-found :
      (ts : List (List StackFrame)) (infos : List SarifInfo)
      → match_threads python ts infos ≡ found (all_frames python ts) infos
  unfolding match_threads
  match_threads-found [] infos = refl
  match_threads-found (t ∷ ts) infos =
      either (match_thread_callstack python t infos) (match_threads python ts infos)
      ∙ ap (λ o. or_else o (match_threads python ts infos)) (match_thread_callstack-found t infos)
      ∙ ap (or_else (found (frames_of python t) infos)) (match_threads-found ts infos)
      ∙ sym (found-append (frames_of python t) (all_frames python ts) infos)

  no_infos : (frames : List Frame) → found frames [] ≡ none
  no_infos [] = refl
  no_infos (f ∷ fs) = no_infos fs

  pub match_sarif-found :
      (runs : List Run) (threads : List (List StackFrame))
      → match_sarif python runs threads
        ≡ found (all_frames python threads) (sarif_detail python runs)
  unfolding match_sarif
  match_sarif-found runs threads = elim (List-cases (sarif_detail python runs)) [
    | inl e ↦ rw (e, match_sarif) (sym (no_infos (all_frames python threads)))
    | inr (info, infos, e) ↦ rw (e, match_sarif) (match_threads-found threads (info ∷ infos))
  ]
