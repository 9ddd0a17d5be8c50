-- ===== src/SarifMatcher/First.antt =====
-- Which match is found, of orchestrator/src/buttercup/orchestrator/scheduler/sarif_matcher.py.
use buttercup.Prelude.{
  ◌≡◌, refl, sym, ap, ◌∙◌, true, false, Option, none, some, List, [], ◌∷◌, ◌++◌, Bool-cases, subst,
  inl, inr,
}
use buttercup.Prelude.All.{All}
use buttercup.SarifMatcher.Fits.{Fits, Flags, compared-Flags, is_match-Fits}
use buttercup.SarifMatcher.Collects.{Collects}
use buttercup.SarifMatcher.Listed.{Locates, places, sarif_detail-Collects}
use buttercup.SarifMatcher.Frames.{Shows, lines_of, all_frames, all_frames-Collects}
use buttercup.SarifMatcher.{
  SarifInfo, Frame, SarifMatch, StackFrame, Run, Python, sarif_detail, compared, is_match,
  match_frame, match_sarif,
}
use buttercup.SarifMatcher.Found.{or_else, found, found_one, found-append, match_sarif-found}

true_ne_false : true ≡ false → ⊥
true_ne_false h = cc

module _ (python : Python) where
  -- The frame fits none of the entries; none of the frames does.
  abbrev pub FitsNone : List SarifInfo → Frame → Type 0
  FitsNone infos frame = All (λ info. Fits python frame info → ⊥) infos

  -- The first entry that the frame fits.
  pub record FirstEntry (frame : Frame) (infos : List SarifInfo) (info : SarifInfo) : Type 0 where
    pub before : List SarifInfo
    pub after : List SarifInfo
    pub at : infos ≡ before ++ (info ∷ after)
    pub fits : Fits python frame info
    pub first : FitsNone before frame

  -- The first frame that fits an entry, the first entry that it fits, and how they fit.
  pub record FirstMatch (frames : List Frame) (infos : List SarifInfo) (m : SarifMatch)
      : Type 0 where
    pub before : List Frame
    pub after : List Frame
    pub at : frames ≡ before ++ (m.frame ∷ after)
    pub first : All (FitsNone infos) before
    pub entry : FirstEntry m.frame infos m.sarif_info
    pub flags : Flags python m

  -- What is told of the frames and the entries that are compared.
  abbrev pub Answers : List Frame → List SarifInfo → Option SarifMatch → Type 0
  Answers frames infos none = All (FitsNone infos) frames
  Answers frames infos (some m) = FirstMatch frames infos m

  -- The same for one frame.
  abbrev Row : Frame → List SarifInfo → Option SarifMatch → Type 0
  Row frame infos none = FitsNone infos frame
  Row frame infos (some m) =
      (info : SarifInfo) × (m ≡ compared python frame info) × FirstEntry frame infos info

  Row-cons :
      (frame : Frame) (info : SarifInfo) (infos : List SarifInfo) (o : Option SarifMatch)
      → (Fits python frame info → ⊥)
      → Row frame infos o
      → Row frame (info ∷ infos) o
  Row-cons frame info infos none n h = (n, h)
  Row-cons frame info infos (some m) n (i, e, h) = (
    i,
    e,
    record {
      before = info ∷ h.before;
      after = h.after;
      at = ap (λ l. info ∷ l) h.at;
      fits = h.fits;
      first = (n, h.first);
    },
  )

  match_frame-Row :
      (frame : Frame) (infos : List SarifInfo) → Row frame infos (match_frame python frame infos)
  unfolding match_frame
  match_frame-Row frame [] = tt
  match_frame-Row frame (info ∷ infos) =
      let fit = is_match-Fits python frame info in
      elim (Bool-cases (is_match python (compared python frame info))) [
        | inl e ↦
            rw (e, match_frame)
              (
                info,
                refl,
                record { before = []; after = infos; at = refl; fits = fit.0 e; first = tt },
              )
        | inr e ↦
            rw (e, match_frame)
              (Row-cons frame info infos (match_frame python frame infos)
                (λ f. true_ne_false (sym (fit.1 f) ∙ e)) (match_frame-Row frame infos))
      ]

  Answers-cons :
      (frame : Frame) (frames : List Frame) (infos : List SarifInfo) (o rest : Option SarifMatch)
      → Row frame infos o
      → Answers frames infos rest
      → Answers (frame ∷ frames) infos (or_else o rest)
  Answers-cons frame frames infos none none r h = (r, h)
  Answers-cons frame frames infos none (some m) r h = record {
    before = frame ∷ h.before;
    after = h.after;
    at = ap (λ l. frame ∷ l) h.at;
    first = (r, h.first);
    entry = h.entry;
    flags = h.flags;
  }
  Answers-cons frame frames infos (some m) rest (info, e, r) h =
      subst (FirstMatch (frame ∷ frames) infos) (sym e) (record {
        before = [];
        after = frames;
        at = refl;
        first = tt;
        entry = r;
        flags = compared-Flags python frame info;
      })

  found-Answers :
      (frames : List Frame) (infos : List SarifInfo)
      → Answers frames infos (found python frames infos)
  found-Answers [] infos = tt
  found-Answers (frame ∷ frames) infos =
      subst (Answers (frame ∷ frames) infos)
        (ap (λ o. or_else o (found python frames infos)) (sym (found_one python frame infos))
          ∙ sym (found-append python (frame ∷ []) frames infos))
        (Answers-cons frame frames infos (match_frame python frame infos)
          (found python frames infos) (match_frame-Row frame infos) (found-Answers frames infos))

  -- The frames compared are those of the lines of the trace, one thread after the other, that name a
  -- file and whose line is a number; the entries are those of the report's locations, in order, that have a
  -- URI that is not "", their own or else their artifact's, and both lines. There is no match exactly
  -- if no such frame fits such an entry. Else it is of the first frame that fits one and of the
  -- first entry that this frame fits, and its flags tell how they fit. To fit, the line must be in the entry's
  -- lines and the file or its name be the same; or the functions be the same, two that are missing
  -- counting as the same; or the entry's be what stands behind "OSS_FUZZ_" in the frame's.
  pub match_sarif-first :
      (runs : List Run) (threads : List (List StackFrame))
      → (frames : List Frame) × (infos : List SarifInfo) × Collects
          (Shows python)
          (lines_of python threads)
          frames
        × Collects (Locates python) (places python runs) infos
        × Answers frames infos (match_sarif python runs threads)
  match_sarif-first runs threads = (
    all_frames python threads,
    sarif_detail python runs,
    all_frames-Collects python threads,
    sarif_detail-Collects python runs,
    subst (Answers (all_frames python threads) (sarif_detail python runs))
        (sym (match_sarif-found python runs threads))
        (found-Answers (all_frames python threads) (sarif_detail python runs)),
  )
