-- ===== src/Tests/MemoryLists.antt =====
-- The lists of a Redis server, kept with their keys, and the reports of two tasks.
use buttercup.Prelude.{
  ◌≡◌, refl, String, List, [], ◌∷◌, ◌++◌, filter, arith, eq_iff, length, ltb, str_eq, if◌then◌else◌,
}
use buttercup.Redis.{Field, Codec}
use buttercup.Tests.MemoryRedis.Keys.{token_json}
use buttercup.Prelude.{Option, some, ap}
use buttercup.SarifStore.{
  SarifBroadcastDetail, SarifBroadcast, RedisLists, get_by_task_id, store_sarif_broadcast,
}
use buttercup.SarifStore.Reports.{is_about, get_by_task_id-store_sarif_broadcast}

-- Each text with its key, in the order of the pushes.
abbrev Texts : Type 0
Texts = List (String × String)

abbrev list_at : String → Texts → List String
list_at k [] = []
list_at k ((a, v) ∷ s) = let rest = list_at k s in if str_eq a k then v ∷ rest else rest

abbrev removed : String → Texts → Texts
removed k [] = []
removed k ((a, v) ∷ s) = let rest = removed k s in if str_eq a k then rest else (a, v) ∷ rest

pub list_at-append :
    (k v k' : String) (s : Texts)
    → list_at k' (s ++ ((k, v) ∷ []))
      ≡ (if str_eq k k' then list_at k' s ++ (v ∷ []) else list_at k' s)
list_at-append k v k' [] = ground arith
list_at-append k v k' ((a, w) ∷ s) = ground (arith, list_at-append k v k' s)

pub list_at-removed :
    (k k' : String) (s : Texts)
    → list_at k' (removed k s) ≡ (if str_eq k k' then [] else list_at k' s)
list_at-removed k k' [] = ground arith
list_at-removed k k' ((a, w) ∷ s) =
    ground (arith, list_at-removed k k' s, eq_iff a k, eq_iff a k', eq_iff k k')

abbrev memory_lists : RedisLists Texts
memory_lists = record {
  rpush = λ k v s. s ++ ((k, v) ∷ []);
  lrange = list_at;
  delete = λ k s. (if ltb 0 (length (list_at k s)) then 1 else 0, removed k s);
  keys = λ pattern s. [];
  lrange-rpush = list_at-append;
  lrange-delete = list_at-removed;
  delete-count = λ k s. refl;
}

abbrev Report : Type 0
Report = SarifBroadcastDetail String

abbrev blank : Report
blank = record { metadata = ""; sarif = ""; sarif_id = ""; task_id = "" }

abbrev report_of : Option (List Field) → Report
report_of (some (Field.text m ∷ Field.text s ∷ Field.text i ∷ Field.text t ∷ [])) = record {
  metadata = m;
  sarif = s;
  sarif_id = i;
  task_id = t;
}
report_of _ = blank

abbrev fields_of : Report → List Field
fields_of d =
    Field.text d.metadata ∷ Field.text d.sarif ∷ Field.text d.sarif_id ∷ Field.text d.task_id ∷ []

report-fields : (d : Report) → report_of (token_json.loads (token_json.dumps (fields_of d))) ≡ d
report-fields d = ap report_of (token_json.loads-dumps (fields_of d))

report_codec : Codec String Report
report_codec = record {
  serialize = λ d. token_json.dumps (fields_of d);
  parse = λ s. report_of (token_json.loads s);
  parse-serialize = report-fields;
}

abbrev plain : String → String
plain s = s

abbrev broadcast : SarifBroadcast String
broadcast = record {
  broadcasts =
      record { metadata = "m"; sarif = "one"; sarif_id = "1"; task_id = "a" }
      ∷ record { metadata = "m"; sarif = "two"; sarif_id = "2"; task_id = "b" }
      ∷ [];
  message_id = "m";
  message_time = 0;
}

get_by_task_id-store_sarif_broadcast_example :
    get_by_task_id memory_lists report_codec plain "a"
      (store_sarif_broadcast memory_lists report_codec plain broadcast [])
    ≡ get_by_task_id memory_lists report_codec plain "a" []
      ++ filter (is_about memory_lists report_codec plain "a") broadcast.broadcasts
get_by_task_id-store_sarif_broadcast_example =
    get_by_task_id-store_sarif_broadcast memory_lists report_codec plain "a" broadcast []

abbrev reported : Texts
reported = store_sarif_broadcast memory_lists report_codec plain broadcast []
