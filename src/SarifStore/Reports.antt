-- ===== src/SarifStore/Reports.antt =====
-- Which SARIF reports a task has, of common/src/buttercup/common/sarif_store.py.
use buttercup.Prelude.{
  suc, ◌≡◌, refl, sym, ap, ◌∙◌, String, Bool, true, false, List, [], ◌∷◌, ◌++◌, map, filter, arith,
  length, ltb, str_eq, if◌then◌else◌, Bool-cases, inl, inr,
}
use mathlib.Core.List.{append_assoc, append-nil}
use buttercup.Redis.{Codec}
use buttercup.SarifStore.{
  SarifBroadcastDetail, SarifBroadcast, RedisLists, get_key, store, get_by_task_id,
  delete_by_task_id, store_all, store_sarif_broadcast,
}

module _ {Store Value : Type 0} (l : RedisLists Store)
    (json : Codec String (SarifBroadcastDetail Value)) (lower : String → String) where
  -- Whether a report goes under the key of the task.
  abbrev pub is_about : String → SarifBroadcastDetail Value → Bool
  is_about task_id d = str_eq (get_key l json lower d.task_id) (get_key l json lower task_id)

  parsed :
      (texts : List String) (d : SarifBroadcastDetail Value)
      → map json.parse (texts ++ (json.serialize d ∷ [])) ≡ map json.parse texts ++ (d ∷ [])
  parsed [] d = ap (λ e. e ∷ []) (json.parse-serialize d)
  parsed (t ∷ texts) d = ap (λ ds. json.parse t ∷ ds) (parsed texts d)

  get_by_task_id-store :
      (task_id : String) (d : SarifBroadcastDetail Value) (s : Store)
      → get_by_task_id l json lower task_id (store l json lower d s) ≡ (
          if is_about task_id d
          then get_by_task_id l json lower task_id s ++ (d ∷ [])
          else get_by_task_id l json lower task_id s)
  unfolding get_by_task_id store
  get_by_task_id-store task_id d s =
      let key = get_key l json lower task_id in
      let key' = get_key l json lower d.task_id in
      elim (Bool-cases (str_eq key' key)) [
        | inl h ↦
            ground (arith, l.lrange-rpush key' (json.serialize d) key s, parsed (l.lrange key s) d)
        | inr h ↦ ground (arith, l.lrange-rpush key' (json.serialize d) key s)
      ]

  joined :
      (b : Bool) (xs : List (SarifBroadcastDetail Value)) (d : SarifBroadcastDetail Value)
      (ys : List (SarifBroadcastDetail Value))
      → (if b then xs ++ (d ∷ []) else xs) ++ ys ≡ xs ++ (if b then d ∷ ys else ys)
  joined true xs d ys = append_assoc xs (d ∷ []) ys
  joined false xs d ys = refl

  length-parsed : (texts : List String) → length (map json.parse texts) ≡ length texts
  length-parsed [] = refl
  length-parsed (t ∷ texts) = ap suc (length-parsed texts)

  get_by_task_id-store_all :
      (task_id : String) (ds : List (SarifBroadcastDetail Value)) (s : Store)
      → get_by_task_id l json lower task_id (store_all l json lower ds s)
        ≡ get_by_task_id l json lower task_id s ++ filter (is_about task_id) ds
  get_by_task_id-store_all task_id [] s = sym (append-nil (get_by_task_id l json lower task_id s))
  get_by_task_id-store_all task_id (d ∷ ds) s =
      get_by_task_id-store_all task_id ds (store l json lower d s)
      ∙ ap (λ found. found ++ filter (is_about task_id) ds) (get_by_task_id-store task_id d s)
      ∙ joined (is_about task_id d) (get_by_task_id l json lower task_id s) d
          (filter (is_about task_id) ds)

  -- After a broadcast a task has, behind the reports that it had, exactly those of the broadcast whose
  -- task id makes the same key, in their order and with their contents.
  pub get_by_task_id-store_sarif_broadcast :
      (task_id : String) (b : SarifBroadcast Value) (s : Store)
      → get_by_task_id l json lower task_id (store_sarif_broadcast l json lower b s)
        ≡ get_by_task_id l json lower task_id s ++ filter (is_about task_id) b.broadcasts
  unfolding store_sarif_broadcast
  get_by_task_id-store_sarif_broadcast task_id b s = get_by_task_id-store_all task_id b.broadcasts s

  -- Deleting the reports of a task leaves none under its key and all that are under another, and tells
  -- 1 if there was a report and 0 if there was none.
  pub get_by_task_id-delete_by_task_id :
      (task_id other : String) (s : Store)
      → let (count, s') = delete_by_task_id l json lower task_id s in
        (count ≡ (if ltb 0 (length (get_by_task_id l json lower task_id s)) then 1 else 0))
        × (get_by_task_id l json lower other s' ≡ (
            if str_eq (get_key l json lower task_id) (get_key l json lower other)
            then []
            else get_by_task_id l json lower other s))
  unfolding delete_by_task_id get_by_task_id
  get_by_task_id-delete_by_task_id task_id other s =
      let key = get_key l json lower task_id in
      let key' = get_key l json lower other in
      (
        l.delete-count key s
            ∙ ap (λ n. if ltb 0 n then 1 else 0) (sym (length-parsed (l.lrange key s))),
        ground (arith, l.lrange-delete key key' s),
      )
