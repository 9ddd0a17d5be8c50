-- ===== src/SarifMatcher.antt =====
-- orchestrator/src/buttercup/orchestrator/scheduler/sarif_matcher.py. A report has the shape of SARIF: an
-- entry of a dictionary that may be missing is an Option. Python's texts and paths, and the parser of stack
-- traces, are parameters.
pub mod Fits
pub mod Collects
pub mod Listed
pub mod Frames
pub mod Found
pub mod First
use buttercup.Prelude.{
  ℕ, String, Bool, true, false, ◌&&◌, ◌||◌, Option, none, some, List, [], ◌∷◌, ◌++◌, get_elem?,
  filter, str_eq, leb, if◌then◌else◌,
}
use buttercup.Message.{ℤ, pos, negsuc}
use buttercup.Outcome.{Result, ok, raised}

pub record SarifInfo : Type 0 where
  pub file : String
  pub lines : ℕ × ℕ
  pub function : Option String
  pub cwe : Option String

pub record Frame : Type 0 where
  pub file : String
  pub line : ℕ
  pub function : Option String

pub record SarifMatch : Type 0 where
  pub sarif_info : SarifInfo
  pub frame : Frame
  pub matches_function : Bool
  pub matches_stripped_function : Bool
  pub matches_filename : Bool
  pub matches_full_path : Bool
  pub matches_lines : Bool

-- What the parser of stack traces makes of a line.
pub record StackFrame : Type 0 where
  pub filename : Option String
  pub fileline : Option String
  pub function_name : Option String

pub record Location : Type 0 where
  pub uri : Option String
  pub index : Option ℤ
  pub start_line : Option ℕ
  pub end_line : Option ℕ
  -- the names of the logical locations, if there are any
  pub logical_names : List (Option String)

pub record Finding : Type 0 where
  pub rule_id : Option String
  pub message_text : Option String
  pub locations : List Location

pub record Run : Type 0 where
  -- the URIs of the artifacts
  pub artifacts : List (Option String)
  pub results : List Finding

-- `str`, `Path` and `int`.
pub record Python : Type 0 where
  pub contains : (part text : String) → Bool
  pub startswith : (prefix text : String) → Bool
  -- `text.split()`, and what `text.split(separator)[1]` is, if there is one
  pub words : String → List String
  pub behind : (separator text : String) → Result String
  -- a `Path` is its normal text
  pub path : String → String
  pub name : (path : String) → String
  pub int : Option String → Result ℕ

abbrev pub option_eq : Option String → Option String → Bool
option_eq none none = true
option_eq (some a) (some b) = str_eq a b
option_eq _ _ = false

abbrev pub first_name : List (Option String) → Option String
first_name [] = none
first_name (none ∷ names) = first_name names
first_name (some n ∷ names) = some n

module _ (python : Python) where
  open python use {contains, startswith, words, behind, path, name, int}

  abbrev pub first_word : List String → Option String
  first_word [] = none
  first_word (w ∷ ws) = some w

  -- The texts of a rule and of a message, "" where there is none.
  abbrev pub text_of : Option String → String
  text_of none = ""
  text_of (some t) = t

  unfoldable pub cwe_of : Finding → Option String
  cwe_of result =
      if contains "CWE-" (text_of result.rule_id)
      then some (text_of result.rule_id)
      else if contains "CWE-" (text_of result.message_text)
      then first_word (filter (startswith "CWE-") (words (text_of result.message_text)))
      else none

  abbrev pub artifact_uri : List (Option String) → Option ℤ → Option String
  artifact_uri artifacts none = elim (get_elem? artifacts 0) [ some (some u) ↦ some u | _ ↦ none ]
  artifact_uri artifacts (some (pos i)) = elim (get_elem? artifacts i) [
    | some (some u) ↦ some u
    | _ ↦ none
  ]
  artifact_uri artifacts (some (negsuc i)) = none

  abbrev pub uri_of : List (Option String) → Location → Option String
  uri_of artifacts location = elim location.uri [
    | some u ↦ some u
    | none ↦ artifact_uri artifacts location.index
  ]

  -- An empty URI counts as none.
  abbrev pub located :
      Option String → (uri : String) → Option ℕ → Option ℕ → List (Option String) → List SarifInfo
  located cwe uri (some start_line) (some end_line) names =
      if str_eq uri ""
      then []
      else record {
        file = path uri;
        lines = (start_line, end_line);
        function = first_name names;
        cwe = cwe;
      }
        ∷ []
  located cwe uri _ _ names = []

  abbrev pub info_of : List (Option String) → Option String → Location → List SarifInfo
  info_of artifacts cwe location = elim (uri_of artifacts location) [
    | none ↦ []
    | some uri ↦ located cwe uri location.start_line location.end_line location.logical_names
  ]

  abbrev pub infos_of_locations :
      List (Option String) → Option String → List Location → List SarifInfo
  infos_of_locations artifacts cwe [] = []
  infos_of_locations artifacts cwe (l ∷ ls) =
      info_of artifacts cwe l ++ infos_of_locations artifacts cwe ls

  abbrev pub infos_of_results : List (Option String) → List Finding → List SarifInfo
  unfolding cwe_of
  infos_of_results artifacts [] = []
  infos_of_results artifacts (result ∷ results) =
      infos_of_locations artifacts (cwe_of result) result.locations
      ++ infos_of_results artifacts results

  -- `_sarif_detail`, of the runs of the report
  unfoldable pub sarif_detail : List Run → List SarifInfo
  unfolding cwe_of
  sarif_detail [] = []
  sarif_detail (run ∷ runs) = infos_of_results run.artifacts run.results ++ sarif_detail runs

  abbrev pub line_match : (frame_line : ℕ) (info_lines : ℕ × ℕ) → Bool
  line_match frame_line (first, last) = leb first frame_line && leb frame_line last

  abbrev pub is_behind : Result String → (info_function : String) → Bool
  is_behind raised info_function = false
  is_behind (ok rest) info_function = str_eq rest info_function

  abbrev pub stripped_function_match : (frame_function info_function : Option String) → Bool
  stripped_function_match (some f) (some i) =
      startswith "OSS_FUZZ_" f && is_behind (behind "OSS_FUZZ_" f) i
  stripped_function_match _ _ = false

  -- What is compared of a frame and an entry of the report.
  abbrev pub compared : Frame → SarifInfo → SarifMatch
  compared frame info = record {
    sarif_info = info;
    frame = frame;
    matches_function = option_eq frame.function info.function;
    matches_stripped_function = stripped_function_match frame.function info.function;
    matches_filename = str_eq (name frame.file) (name info.file);
    matches_full_path = str_eq frame.file info.file;
    matches_lines = line_match frame.line info.lines;
  }

  abbrev pub is_match : SarifMatch → Bool
  is_match m =
      (m.matches_lines && (m.matches_filename || m.matches_full_path))
      || (m.matches_function || m.matches_stripped_function)

  -- `_match_frame`
  unfoldable pub match_frame : Frame → List SarifInfo → Option SarifMatch
  match_frame frame [] = none
  match_frame frame (info ∷ infos) = elim (is_match (compared frame info)) [
    | true ↦ some (compared frame info)
    | false ↦ match_frame frame infos
  ]

  abbrev pub frame_at : (filename : String) → Option String → Result ℕ → Result (Option Frame)
  frame_at filename function raised = raised
  frame_at filename function (ok line) =
      ok (some (record { file = path filename; line = line; function = function }))

  -- `_get_frame`
  unfoldable pub get_frame : StackFrame → Result (Option Frame)
  get_frame frame = elim frame.filename [
    | none ↦ ok none
    | some filename ↦ frame_at filename frame.function_name (int frame.fileline)
  ]

  -- `_match_thread_callstack`: a frame that cannot be read is left out.
  unfoldable pub match_thread_callstack : List StackFrame → List SarifInfo → Option SarifMatch
  unfolding get_frame match_frame
  match_thread_callstack [] infos = none
  match_thread_callstack (f ∷ fs) infos = elim (get_frame f) [
    | raised ↦ match_thread_callstack fs infos
    | ok none ↦ match_thread_callstack fs infos
    | ok (some frame) ↦ elim (match_frame frame infos) [
      | some m ↦ some m
      | none ↦ match_thread_callstack fs infos
    ]
  ]

  unfoldable pub match_threads : List (List StackFrame) → List SarifInfo → Option SarifMatch
  unfolding match_thread_callstack
  match_threads [] infos = none
  match_threads (t ∷ ts) infos = elim (match_thread_callstack t infos) [
    | some m ↦ some m
    | none ↦ match_threads ts infos
  ]

  -- `match`, of a report's runs and the threads of the parsed stack trace
  unfoldable pub match_sarif : List Run → (threads : List (List StackFrame)) → Option SarifMatch
  unfolding sarif_detail match_threads
  match_sarif runs threads = elim (sarif_detail runs) [
    | [] ↦ none
    | info ∷ infos ↦ match_threads threads (info ∷ infos)
  ]
