-- ===== src/PovStatus/Keys.antt =====
-- A pending request is read back from its key as it was.
use buttercup.Prelude.{ℕ, ◌≡◌, some, get_elem?}
use buttercup.Message.{PovReproduceRequest}
use buttercup.Outcome.{ok}
use buttercup.Redis.{Redis, Json}
use buttercup.PovStatus.{pov_reproduce_pending, make_key, request_of_fields, get_one_pending}

module _ (json : Json) (r : Redis) where
  -- If the member that the random choice takes from the pending set is the key of a request, then
  -- that very request is returned, with each field in its place.
  pub get_one_pending-make_key :
      (i : ℕ) (q : PovReproduceRequest) (s : r.Store)
      → get_elem? (r.smembers pov_reproduce_pending s) i ≡ some (make_key json q)
      → get_one_pending json r i s ≡ ok (some q)
  unfolding get_one_pending make_key request_of_fields
  get_one_pending-make_key i q s h = rw (h, get_one_pending, json.loads-dumps)
