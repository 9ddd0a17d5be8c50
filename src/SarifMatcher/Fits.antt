-- ===== src/SarifMatcher/Fits.antt =====
-- When a frame and an entry of a report belong together, described apart from the tests of
-- `_match_frame` in orchestrator/src/buttercup/orchestrator/scheduler/sarif_matcher.py.
use buttercup.Prelude.{
  ◌≤◌, ◌≡◌, refl, String, true, Option, none, some, arith, eq_iff, ◌⊎◌, ◌↔◌, ap, some_eq,
}
use buttercup.Outcome.{Result, ok, raised}
use buttercup.SarifMatcher.{
  SarifInfo, Frame, SarifMatch, Python, option_eq, line_match, is_behind, stripped_function_match,
  compared, is_match,
}

-- The frame stands in the lines of the entry, the last one included.
abbrev pub InLines : Frame → SarifInfo → Type 0
InLines frame info = (info.lines.0 ≤ frame.line) × (frame.line ≤ info.lines.1)

-- The names of the functions, two that are missing counting as the same.
abbrev pub SameFunction : Frame → SarifInfo → Type 0
SameFunction frame info = frame.function ≡ info.function

module _ (python : Python) where
  open python use {name, startswith, behind}

  -- The function of the entry is what stands behind the prefix in that of the frame.
  abbrev pub BehindPrefix : Option String → Option String → Type 0
  BehindPrefix (some f) (some i) = (startswith "OSS_FUZZ_" f ≡ true) × (behind "OSS_FUZZ_" f ≡ ok i)
  BehindPrefix _ _ = ⊥

  abbrev pub Fits : Frame → SarifInfo → Type 0
  Fits frame info =
      (InLines frame info × ((name frame.file ≡ name info.file) ⊎ (frame.file ≡ info.file)))
      ⊎ SameFunction frame info
      ⊎ BehindPrefix frame.function info.function

  option_eq_iff : (a b : Option String) → (option_eq a b ≡ true) ↔ (a ≡ b)
  option_eq_iff none none = (λ h. refl, λ h. refl)
  option_eq_iff none (some b) = (λ h. cc, λ h. cc)
  option_eq_iff (some a) none = (λ h. cc, λ h. cc)
  option_eq_iff (some a) (some b) =
      (λ h. ap some ((eq_iff a b).0 h), λ h. (eq_iff a b).1 (some_eq h))

  line_match_iff :
      (frame : Frame) (info : SarifInfo)
      → (line_match python frame.line info.lines ≡ true) ↔ InLines frame info
  line_match_iff frame info = ground arith

  is_behind_iff :
      (rest : Result String) (i : String) → (is_behind python rest i ≡ true) ↔ (rest ≡ ok i)
  is_behind_iff raised i = (λ h. cc, λ h. cc)
  is_behind_iff (ok rest) i = (
    λ h. ap ok ((eq_iff rest i).0 h),
    λ h. (eq_iff rest i).1 (ap (λ r. elim r [ raised ↦ rest | ok t ↦ t ]) h),
  )

  stripped_iff :
      (f i : Option String) → (stripped_function_match python f i ≡ true) ↔ BehindPrefix f i
  stripped_iff none none = (λ h. cc, λ h. absurd h)
  stripped_iff none (some i) = (λ h. cc, λ h. absurd h)
  stripped_iff (some f) none = (λ h. cc, λ h. absurd h)
  stripped_iff (some f) (some i) = ground (arith, is_behind_iff (behind "OSS_FUZZ_" f) i)

  -- The flags of a match, of its frame and its entry.
  pub record Flags (m : SarifMatch) : Type 0 where
    pub lines : (m.matches_lines ≡ true) ↔ InLines m.frame m.sarif_info
    pub function : (m.matches_function ≡ true) ↔ SameFunction m.frame m.sarif_info
    pub stripped :
        (m.matches_stripped_function ≡ true) ↔ BehindPrefix m.frame.function m.sarif_info.function
    pub filename : (m.matches_filename ≡ true) ↔ (name m.frame.file ≡ name m.sarif_info.file)
    pub full_path : (m.matches_full_path ≡ true) ↔ (m.frame.file ≡ m.sarif_info.file)

  pub compared-Flags : (frame : Frame) (info : SarifInfo) → Flags (compared python frame info)
  compared-Flags frame info = record {
    lines = line_match_iff frame info;
    function = option_eq_iff frame.function info.function;
    stripped = stripped_iff frame.function info.function;
    filename = eq_iff (name frame.file) (name info.file);
    full_path = eq_iff frame.file info.file;
  }

  is_match_iff : (m : SarifMatch) → Flags m → (is_match python m ≡ true) ↔ Fits m.frame m.sarif_info
  is_match_iff m h = ground (arith, h.lines, h.function, h.stripped, h.filename, h.full_path)

  pub is_match-Fits :
      (frame : Frame) (info : SarifInfo)
      → (is_match python (compared python frame info) ≡ true) ↔ Fits frame info
  is_match-Fits frame info = is_match_iff (compared python frame info) (compared-Flags frame info)
