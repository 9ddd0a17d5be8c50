-- ===== src/Maps/Builds.antt =====
-- Which build is found, of common/src/buttercup/common/maps.py.
use buttercup.Prelude.{
  ◌≡◌, ◌≢◌, refl, sym, ap, ◌∙◌, subst, String, Bool, true, ◌&&◌, Option, none, some, some_eq, List,
  [], ◌∷◌, arith, eq_iff, any, str_eq, ◌==◌, if◌then◌else◌, Bool-cases, inl, inr,
}
use buttercup.Message.{BuildType, build_type_number, BuildOutput}
use buttercup.Outcome.{Result, ok}
use buttercup.Redis.{Redis, Json, Codec, Field}
use buttercup.Maps.{
  build_san_list, san_set_key, build_output_key, is_valid_request, add_build, get_build_from_san,
  builds_of, get_builds,
}
use mathlib.Core.List.{Mem, mem-cons_self, mem-cons_of_mem}

-- A key tells what it was made of.
pub dumps-injective : (json : Json) (xs ys : List Field) → json.dumps xs ≡ json.dumps ys → xs ≡ ys
dumps-injective json xs ys h =
    some_eq (sym (json.loads-dumps xs) ∙ ap json.loads h ∙ json.loads-dumps ys)

none_not_found : {b : BuildOutput} → ◌≢◌ {A = Result (Option BuildOutput)} (ok none) (ok (some b))
none_not_found h = cc

found_eq :
    {b c : BuildOutput} → ◌≡◌ {A = Result (Option BuildOutput)} (ok (some b)) (ok (some c)) → b ≡ c
found_eq h = cc

module _ (json : Json) (r : Redis) (codec : Codec r.Bytes BuildOutput) where
  -- Whether a build is the one that is asked for.
  abbrev pub is_build_of :
      (task_id : String) → BuildType → (san internal_patch_id : String) → BuildOutput → Bool
  is_build_of task_id build_type san internal_patch_id b =
      str_eq b.task_id task_id
      && (build_type_number b.build_type == build_type_number build_type
          && (str_eq b.sanitizer san && str_eq b.internal_patch_id internal_patch_id))

  abbrev fields : String → BuildType → String → String → List Field
  fields t ty s p =
      Field.text t
      ∷ Field.text build_san_list
      ∷ Field.number (build_type_number ty)
      ∷ Field.text s
      ∷ Field.text p
      ∷ []

  -- The keys are the same exactly if all parts are.
  build_output_key-eq :
      (t t' : String) (ty ty' : BuildType) (s s' p p' : String)
      → str_eq (build_output_key json r t ty s p) (build_output_key json r t' ty' s' p') ≡ (
          str_eq t t'
          && (build_type_number ty == build_type_number ty' && (str_eq s s' && str_eq p p')))
  unfolding build_output_key
  build_output_key-eq t t' ty ty' s s' p p' =
      let key = build_output_key json r t ty s p in
      let key' = build_output_key json r t' ty' s' p' in
      elim (Bool-cases (str_eq key key')) [
        | inl e ↦
            let parts =
              dumps-injective json (fields t ty s p) (fields t' ty' s' p')
                ((eq_iff key key').0 e) in
            ground (arith, e, parts, eq_iff t t', eq_iff s s', eq_iff p p')
        | inr e ↦ ground (arith, e, eq_iff key key', eq_iff t t', eq_iff s s', eq_iff p p')
      ]

  get_build_from_san-add_build :
      (b : BuildOutput) (t : String) (ty : BuildType) (san p : String) (s : r.Store)
      → get_build_from_san json r codec t ty san p (add_build json r codec b s) ≡ (
          if is_valid_request json r ty p && is_build_of t ty san p b
          then ok (some b)
          else get_build_from_san json r codec t ty san p s)
  unfolding get_build_from_san add_build
  get_build_from_san-add_build b t ty san p s =
      let set = san_set_key json r b.task_id b.build_type in
      let added = build_output_key json r b.task_id b.build_type b.sanitizer b.internal_patch_id in
      let key = build_output_key json r t ty san p in
      let before = (r.sadd set b.sanitizer s).1 in
      ground (
        arith,
        r.get-set added (codec.serialize b) key before,
        r.get-sadd set b.sanitizer key s,
        build_output_key-eq b.task_id t b.build_type ty b.sanitizer san b.internal_patch_id p,
        codec.parse-serialize b,
      )

  own :
      (b : BuildOutput) (s : r.Store)
      → is_valid_request json r b.build_type b.internal_patch_id ≡ true
      → get_build_from_san json r codec b.task_id b.build_type b.sanitizer b.internal_patch_id
          (add_build json r codec b s)
        ≡ ok (some b)
  own b s v =
      get_build_from_san-add_build b b.task_id b.build_type b.sanitizer b.internal_patch_id s
      ∙ ground (
        arith,
        v,
        eq_iff b.task_id b.task_id,
        eq_iff b.sanitizer b.sanitizer,
        eq_iff b.internal_patch_id b.internal_patch_id,
      )

  listed :
      (b : BuildOutput) (s : r.Store)
      → any
          (λ x. str_eq x b.sanitizer)
          (r.smembers (san_set_key json r b.task_id b.build_type) (add_build json r codec b s))
        ≡ true
  unfolding add_build
  listed b s =
      let set = san_set_key json r b.task_id b.build_type in
      let added = build_output_key json r b.task_id b.build_type b.sanitizer b.internal_patch_id in
      let before = (r.sadd set b.sanitizer s).1 in
      ground (
        arith,
        r.smembers-any set b.sanitizer (r.set added (codec.serialize b) before),
        r.sismember-set added (codec.serialize b) set b.sanitizer before,
        r.sismember-sadd set b.sanitizer set b.sanitizer s,
        eq_iff set set,
        eq_iff b.sanitizer b.sanitizer,
      )

  get_build_from_san-ok :
      (t : String) (ty : BuildType) (san p : String) (s : r.Store)
      → is_valid_request json r ty p ≡ true
      → (o : Option BuildOutput) × (get_build_from_san json r codec t ty san p s ≡ ok o)
  unfolding get_build_from_san
  get_build_from_san-ok t ty san p s v = (
    elim (r.get (build_output_key json r t ty san p) s) [
      | none ↦ none
      | some it ↦ some (codec.parse it)
    ],
    rw v refl,
  )

  builds_of-cons_ok :
      (t : String) (ty : BuildType) (p x : String) (sans : List String) (o : Option BuildOutput)
      (s : r.Store)
      → get_build_from_san json r codec t ty x p s ≡ ok o
      → (bs : List BuildOutput) × (builds_of json r codec t ty p sans s ≡ ok bs)
      → (bs : List BuildOutput) × (builds_of json r codec t ty p (x ∷ sans) s ≡ ok bs)
  builds_of-cons_ok t ty p x sans none s e (bs, h) = (bs, rw (e, builds_of) h)
  builds_of-cons_ok t ty p x sans (some c) s e (bs, h) = (c ∷ bs, rw (e, builds_of, h) refl)

  builds_of-ok :
      (t : String) (ty : BuildType) (p : String) (sans : List String) (s : r.Store)
      → is_valid_request json r ty p ≡ true
      → (bs : List BuildOutput) × (builds_of json r codec t ty p sans s ≡ ok bs)
  builds_of-ok t ty p [] s v = ([], refl)
  builds_of-ok t ty p (x ∷ sans) s v =
      let (o, e) = get_build_from_san-ok t ty x p s v in
      builds_of-cons_ok t ty p x sans o s e (builds_of-ok t ty p sans s v)

  -- A valid request does not raise.
  pub get_builds-ok :
      (t : String) (ty : BuildType) (p : String) (s : r.Store)
      → is_valid_request json r ty p ≡ true
      → (bs : List BuildOutput) × (get_builds json r codec t ty p s ≡ ok bs)
  unfolding get_builds
  get_builds-ok t ty p s v =
      let (bs, e) = builds_of-ok t ty p (r.smembers (san_set_key json r t ty) s) s v in (bs, rw v e)

  -- The builds that the loop over some sanitizers returns, with `b` if its sanitizer is among them.
  record Returns (t : String) (ty : BuildType) (san p : String) (b : BuildOutput) (s : r.Store)
      (sans : List String) : Type 0 where
    builds : List BuildOutput
    returned : builds_of json r codec t ty p sans s ≡ ok builds
    found : any (λ x. str_eq x san) sans ≡ true → Mem b builds

  module _ (t : String) (ty : BuildType) (san p : String) (b : BuildOutput) (s : r.Store)
      (here : get_build_from_san json r codec t ty san p s ≡ ok (some b)) where
    builds_of-cons :
        (x : String) (sans : List String) (o : Option BuildOutput)
        → get_build_from_san json r codec t ty x p s ≡ ok o
        → Returns t ty san p b s sans
        → Returns t ty san p b s (x ∷ sans)
    builds_of-cons x sans none e rest = record {
      builds = rest.builds;
      returned = rw (e, builds_of) rest.returned;
      found = λ h. elim (Bool-cases (str_eq x san)) [
        | inl same ↦ absurd (
            none_not_found (
              sym e
              ∙ ap (λ k. get_build_from_san json r codec t ty k p s) ((eq_iff x san).0 same)
              ∙ here))
        | inr other ↦ rest.found (ground arith)
      ];
    }
    builds_of-cons x sans (some c) e rest = record {
      builds = c ∷ rest.builds;
      returned = rw (e, builds_of, rest.returned) refl;
      found = λ h. elim (Bool-cases (str_eq x san)) [
        | inl same ↦
            let is_b : ok (some b) ≡ ok (some c) =
              sym here
              ∙ ap (λ k. get_build_from_san json r codec t ty k p s) (sym ((eq_iff x san).0 same))
              ∙ e in
            subst (λ d. Mem b (d ∷ rest.builds)) (found_eq is_b) mem-cons_self
        | inr other ↦ mem-cons_of_mem c (rest.found (ground arith))
      ];
    }

    builds_of-Returns :
        (sans : List String) → is_valid_request json r ty p ≡ true → Returns t ty san p b s sans
    builds_of-Returns [] v = record { builds = []; returned = refl; found = λ h. cc }
    builds_of-Returns (x ∷ sans) v =
        let (o, e) = get_build_from_san-ok t ty x p s v in
        builds_of-cons x sans o e (builds_of-Returns sans v)

  -- Let the patch id of a build be valid for its type. Once the build is added, it is found, in each of
  -- its parts as it was, by exactly the requests that are valid and name its task, type, sanitizer and
  -- patch id, and all other requests find what they found before; and the list of builds that is asked
  -- for its task, type and patch id is returned and has it.
  pub add_build_found :
      (b : BuildOutput) (s : r.Store)
      → is_valid_request json r b.build_type b.internal_patch_id ≡ true
      → let s' = add_build json r codec b s in
        ((t : String) (ty : BuildType) (san p : String)
          → get_build_from_san json r codec t ty san p s' ≡ (
              if is_valid_request json r ty p && is_build_of t ty san p b
              then ok (some b)
              else get_build_from_san json r codec t ty san p s))
        × ((bs : List BuildOutput) × (get_builds json r codec b.task_id b.build_type
                b.internal_patch_id s'
              ≡ ok bs)
            × Mem b bs)
  unfolding get_builds
  add_build_found b s v =
      let s' = add_build json r codec b s in
      let sans = r.smembers (san_set_key json r b.task_id b.build_type) s' in
      let found =
        builds_of-Returns b.task_id b.build_type b.sanitizer b.internal_patch_id b s' (own b s v)
          sans v in
      (
        λ t ty san p. get_build_from_san-add_build b t ty san p s,
        (found.builds, rw v found.returned, found.found (listed b s)),
      )
