-- ===== src/SarifMatcher/Frames.antt =====
-- Which frames of a stack trace are compared, described apart from `_get_frame` in
-- orchestrator/src/buttercup/orchestrator/scheduler/sarif_matcher.py.
use buttercup.Prelude.{ℕ, ◌≡◌, refl, sym, ◌∙◌, String, Option, none, some, List, [], ◌∷◌, ◌++◌}
use buttercup.Outcome.{Result, ok, raised}
use buttercup.SarifMatcher.{Frame, StackFrame, Python, frame_at, get_frame}
use buttercup.SarifMatcher.Collects.{
  Gives, gives, gives_none, Collects, Collects-cons, Collects-append,
}

none_some : {A : Type 0} {a : A} → none ≡ some a → ⊥
none_some h = cc

raised_ok : {A : Type 0} {a : A} → raised ≡ ok a → ⊥
raised_ok h = cc

module _ (python : Python) where
  open python use {path, int}

  -- The frame that a line of the trace shows, if it names a file and its line is a number.
  pub record Shows (line : StackFrame) (frame : Frame) : Type 0 where
    pub filename : String
    pub named : line.filename ≡ some filename
    pub file : frame.file ≡ path filename
    pub number : int line.fileline ≡ ok frame.line
    pub function : frame.function ≡ line.function_name

  -- The frames that can be read, in order.
  abbrev pub readable : Result (Option Frame) → List Frame
  readable (ok (some frame)) = frame ∷ []
  readable _ = []

  numbered-Gives :
      (line : StackFrame) (filename : String) (number : Result ℕ)
      → line.filename ≡ some filename
      → int line.fileline ≡ number
      → Gives Shows line (readable (frame_at python filename line.function_name number))
  numbered-Gives line filename raised e n = gives_none (λ frame h. raised_ok (sym n ∙ h.number))
  numbered-Gives line filename (ok n) e is =
      gives _ (record { filename = filename; named = e; file = refl; number = is; function = refl })

  named-Gives :
      (line : StackFrame) (named : Option String)
      → line.filename ≡ named
      → Gives Shows line (
          readable (elim named [
            | none ↦ ok none
            | some filename ↦ frame_at python filename line.function_name (int line.fileline)
          ]))
  named-Gives line none e = gives_none (λ frame h. none_some (sym e ∙ h.named))
  named-Gives line (some filename) e = numbered-Gives line filename (int line.fileline) e refl

  readable-Gives : (line : StackFrame) → Gives Shows line (readable (get_frame python line))
  unfolding get_frame
  readable-Gives line = named-Gives line line.filename refl

  abbrev pub frames_of : List StackFrame → List Frame
  frames_of [] = []
  frames_of (f ∷ fs) = readable (get_frame python f) ++ frames_of fs

  abbrev pub all_frames : List (List StackFrame) → List Frame
  all_frames [] = []
  all_frames (t ∷ ts) = frames_of t ++ all_frames ts

  frames_of-Collects : (fs : List StackFrame) → Collects Shows fs (frames_of fs)
  frames_of-Collects [] = refl
  frames_of-Collects (f ∷ fs) =
      Collects-cons Shows f fs (readable (get_frame python f)) (frames_of fs) (readable-Gives f)
        (frames_of-Collects fs)

  -- The lines of the trace, one thread after the other.
  abbrev pub lines_of : List (List StackFrame) → List StackFrame
  lines_of [] = []
  lines_of (t ∷ ts) = t ++ lines_of ts

  pub all_frames-Collects :
      (ts : List (List StackFrame)) → Collects Shows (lines_of ts) (all_frames ts)
  all_frames-Collects [] = refl
  all_frames-Collects (t ∷ ts) =
      Collects-append Shows t (lines_of ts) (frames_of t) (all_frames ts) (frames_of-Collects t)
        (all_frames-Collects ts)
