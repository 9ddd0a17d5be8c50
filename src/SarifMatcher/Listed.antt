-- ===== src/SarifMatcher/Listed.antt =====
-- Which entries of a report are compared, described apart from the loops of `_sarif_detail` in
-- orchestrator/src/buttercup/orchestrator/scheduler/sarif_matcher.py.
use buttercup.Prelude.{
  ℕ, ◌≡◌, ◌≢◌, refl, sym, ap, ◌∙◌, subst, String, true, false, Option, none, some, List, [], ◌∷◌,
  ◌++◌, get_elem?, str_eq, eq_iff, Bool-cases, Option-cases, some_eq, inl, inr, ◌⊎◌,
}
use buttercup.Message.{ℤ, pos, negsuc}
use buttercup.SarifMatcher.{
  SarifInfo, Location, Finding, Run, Python, cwe_of, artifact_uri, uri_of, located, info_of,
  infos_of_locations, infos_of_results, sarif_detail, first_name,
}
use buttercup.SarifMatcher.Collects.{
  Gives, gives, gives_none, Collects, Collects-cons, Collects-append,
}

none_some : {A : Type 0} {a : A} → none ≡ some a → ⊥
none_some h = cc

not_both : true ≡ false → ⊥
not_both h = cc

-- A location of a finding, with the artifacts of its run.
pub record Place : Type 0 where
  pub artifacts : List (Option String)
  pub finding : Finding
  pub location : Location

-- The URI of a location, or else that of its artifact, the first one where no index is given.
abbrev pub IndexIs : Option ℤ → ℕ → Type 0
IndexIs none i = i ≡ 0
IndexIs (some (pos n)) i = i ≡ n
IndexIs (some (negsuc n)) i = ⊥

abbrev pub UriIs : Place → String → Type 0
UriIs p uri =
    (p.location.uri ≡ some uri)
    ⊎ ((p.location.uri ≡ none)
        × ((i : ℕ) × IndexIs p.location.index i × (get_elem? p.artifacts i ≡ some (some uri))))

-- The first name that is given.
abbrev pub FirstName : List (Option String) → Option String → Type 0
FirstName [] o = o ≡ none
FirstName (none ∷ names) o = FirstName names o
FirstName (some n ∷ names) o = o ≡ some n

first_name-FirstName : (names : List (Option String)) → FirstName names (first_name names)
first_name-FirstName [] = refl
first_name-FirstName (none ∷ names) = first_name-FirstName names
first_name-FirstName (some n ∷ names) = refl

module _ (python : Python) where
  open python use {path}

  -- What a location says: a file that is not "", both lines, and the function; and its finding's CWE.
  pub record Locates (p : Place) (info : SarifInfo) : Type 0 where
    pub uri : String
    pub uri_is : UriIs p uri
    pub not_empty : uri ≢ ""
    pub file : info.file ≡ path uri
    pub start_line : p.location.start_line ≡ some info.lines.0
    pub end_line : p.location.end_line ≡ some info.lines.1
    pub function : FirstName p.location.logical_names info.function
    pub cwe : info.cwe ≡ cwe_of python p.finding

  -- The locations of the report, in order.
  abbrev pub places_of : List (Option String) → Finding → List Location → List Place
  places_of artifacts finding [] = []
  places_of artifacts finding (l ∷ ls) =
      record { artifacts = artifacts; finding = finding; location = l }
      ∷ places_of artifacts finding ls

  abbrev pub places_of_findings : List (Option String) → List Finding → List Place
  places_of_findings artifacts [] = []
  places_of_findings artifacts (f ∷ fs) =
      places_of artifacts f f.locations ++ places_of_findings artifacts fs

  abbrev pub places : List Run → List Place
  places [] = []
  places (run ∷ runs) = places_of_findings run.artifacts run.results ++ places runs

  entry_some :
      (o : Option (Option String)) (u : String)
      → (elim o [ some (some v) ↦ some v | _ ↦ none ]) ≡ some u
      → o ≡ some (some u)
  entry_some none u h = cc
  entry_some (some none) u h = cc
  entry_some (some (some v)) u h = ap some h

  artifact_uri-some :
      (artifacts : List (Option String)) (index : Option ℤ) (u : String)
      → artifact_uri python artifacts index ≡ some u
      → (i : ℕ) × IndexIs index i × (get_elem? artifacts i ≡ some (some u))
  artifact_uri-some artifacts none u h = (0, refl, entry_some (get_elem? artifacts 0) u h)
  artifact_uri-some artifacts (some (pos n)) u h = (n, refl, entry_some (get_elem? artifacts n) u h)
  artifact_uri-some artifacts (some (negsuc n)) u h = cc

  artifact_uri-entry :
      (artifacts : List (Option String)) (index : Option ℤ) (u : String) (i : ℕ)
      → IndexIs index i
      → get_elem? artifacts i ≡ some (some u)
      → artifact_uri python artifacts index ≡ some u
  artifact_uri-entry artifacts none u i h g =
      ap (λ o. elim o [ some (some v) ↦ some v | _ ↦ none ])
        (subst (λ n. get_elem? artifacts n ≡ some (some u)) h g)
  artifact_uri-entry artifacts (some (pos n)) u i h g =
      ap (λ o. elim o [ some (some v) ↦ some v | _ ↦ none ])
        (subst (λ n. get_elem? artifacts n ≡ some (some u)) h g)
  artifact_uri-entry artifacts (some (negsuc n)) u i h g = absurd h

  -- What `uri_of` finds is the URI of the place, and it finds it.
  uri_of-UriIs :
      (p : Place) (u : String) → uri_of python p.artifacts p.location ≡ some u → UriIs p u
  uri_of-UriIs p u h = elim (Option-cases p.location.uri) [
    | inl e ↦ inr (e, artifact_uri-some p.artifacts p.location.index u (rw e at h))
    | inr (v, e) ↦ inl (e ∙ rw e at h)
  ]

  UriIs-uri_of :
      (p : Place) (u : String) → UriIs p u → uri_of python p.artifacts p.location ≡ some u
  UriIs-uri_of p u (inl h) = rw h refl
  UriIs-uri_of p u (inr (h, (i, is, at))) =
      rw h (artifact_uri-entry p.artifacts p.location.index u i is at)

  located-Gives :
      (p : Place) (u : String) (first last : Option ℕ)
      → uri_of python p.artifacts p.location ≡ some u
      → p.location.start_line ≡ first
      → p.location.end_line ≡ last
      → Gives Locates p
          (located python (cwe_of python p.finding) u first last p.location.logical_names)
  located-Gives p u none last h a b = gives_none (λ info l. none_some (sym a ∙ l.start_line))
  located-Gives p u (some n) none h a b = gives_none (λ info l. none_some (sym b ∙ l.end_line))
  located-Gives p u (some n) (some m) h a b = elim (Bool-cases (str_eq u "")) [
    | inl e ↦
        rw (e, located)
          (gives_none (λ info l.
            l.not_empty (some_eq (sym (UriIs-uri_of p l.uri l.uri_is) ∙ h) ∙ (eq_iff u "").0 e)))
    | inr e ↦
        rw (e, located)
          (gives _ (record {
            uri = u;
            uri_is = uri_of-UriIs p u h;
            not_empty = λ same. not_both (sym ((eq_iff u "").1 same) ∙ e);
            file = refl;
            start_line = a;
            end_line = b;
            function = first_name-FirstName p.location.logical_names;
            cwe = refl;
          }))
  ]

  info_of-Gives :
      (p : Place)
      → Gives Locates p (info_of python p.artifacts (cwe_of python p.finding) p.location)
  info_of-Gives p = elim (Option-cases (uri_of python p.artifacts p.location)) [
    | inl e ↦
        rw (e, info_of) (gives_none (λ info l. none_some (sym e ∙ UriIs-uri_of p l.uri l.uri_is)))
    | inr (u, e) ↦
        rw (e, info_of) (located-Gives p u p.location.start_line p.location.end_line e refl refl)
  ]

  infos_of_locations-Collects :
      (artifacts : List (Option String)) (finding : Finding) (ls : List Location)
      → Collects Locates
          (places_of artifacts finding ls)
          (infos_of_locations python artifacts (cwe_of python finding) ls)
  infos_of_locations-Collects artifacts finding [] = refl
  infos_of_locations-Collects artifacts finding (l ∷ ls) =
      Collects-cons Locates _ (places_of artifacts finding ls)
        (info_of python artifacts (cwe_of python finding) l)
        (infos_of_locations python artifacts (cwe_of python finding) ls)
        (info_of-Gives (record { artifacts = artifacts; finding = finding; location = l }))
        (infos_of_locations-Collects artifacts finding ls)

  infos_of_results-Collects :
      (artifacts : List (Option String)) (fs : List Finding)
      → Collects Locates (places_of_findings artifacts fs) (infos_of_results python artifacts fs)
  unfolding infos_of_results
  infos_of_results-Collects artifacts [] = refl
  infos_of_results-Collects artifacts (f ∷ fs) =
      Collects-append Locates (places_of artifacts f f.locations) (places_of_findings artifacts fs)
        (infos_of_locations python artifacts (cwe_of python f) f.locations)
        (infos_of_results python artifacts fs) (infos_of_locations-Collects artifacts f f.locations)
        (infos_of_results-Collects artifacts fs)

  pub sarif_detail-Collects :
      (runs : List Run) → Collects Locates (places runs) (sarif_detail python runs)
  unfolding sarif_detail
  sarif_detail-Collects [] = refl
  sarif_detail-Collects (run ∷ runs) =
      Collects-append Locates (places_of_findings run.artifacts run.results) (places runs)
        (infos_of_results python run.artifacts run.results) (sarif_detail python runs)
        (infos_of_results-Collects run.artifacts run.results) (sarif_detail-Collects runs)
