-- ===== src/Queues.antt =====
-- `ReliableQueue` of common/src/buttercup/common/queues.py, less the texts that name its streams. A
-- method works on the server, and `pop` on the field `last_stream_id` too.
pub mod Pop
pub mod Delivery
pub mod Factory
pub mod Frame
use buttercup.Prelude.{
  ℕ, zero, suc, String, Bool, true, false, Option, none, some, List, [], ◌∷◌, str_eq, if◌then◌else◌,
}
use buttercup.Outcome.{Result, ok, raised}
use buttercup.Redis.{Codec}
use buttercup.Streams.{Streams, Entry}

pub record RqItem (A : Type 0) : Type 0 where
  pub item_id : String
  pub deserialized : A

pub record ReliableQueue : Type 0 where
  pub queue_name : String
  pub group_name : Option String
  pub task_timeout_ms : ℕ
  pub reader_name : String
  pub last_stream_id : String
  pub block_time : Option ℕ

module _ {Store Bytes A : Type 0} (x : Streams Store Bytes) (codec : Codec Bytes A) where
  open x use {xlen, xadd, xreadgroup, xautoclaim, xack, xpending_range, xclaim}

  unfoldable pub size : ReliableQueue → Store → ℕ
  size q s = xlen q.queue_name s

  unfoldable pub push : ReliableQueue → A → Store → Store
  push q item s = (xadd q.queue_name (codec.serialize item) s).1

  -- `_ensure_group_name`
  abbrev pub with_group {ℓ} : {B : Type ℓ} → ReliableQueue → (String → Result B) → Result B
  with_group q body = elim q.group_name [ none ↦ raised | some g ↦ body g ]

  -- The `stream_item` of `pop`, or none where nothing was claimed either.
  unfoldable pub stream_item :
      ReliableQueue → (group : String) → Store → Option (List (Entry Bytes)) × Store
  stream_item q g s =
      let (streams_items, s1) =
        xreadgroup g q.reader_name q.queue_name q.last_stream_id q.block_time s in
      elim streams_items [
        | some (items ∷ _) ↦ (some items, s1)
        | _ ↦
            let (res, s2) = xautoclaim q.queue_name g q.reader_name q.task_timeout_ms s1 in
            (elim res [ some (e ∷ es) ↦ some (e ∷ es) | _ ↦ none ], s2)
      ]

  abbrev pub item_of : Entry Bytes → RqItem A
  item_of e = record { item_id = e.message_id; deserialized = codec.parse e.item }

  -- What a call leaves: the answer, the queue with its `last_stream_id`, and the server.
  pub record Popped : Type 0 where
    pub answer : Result (Option (RqItem A))
    pub queue : ReliableQueue
    pub store : Store

  -- The rest of the call, of the items that were found. An empty history is followed by `again`.
  abbrev pub answer_of :
      ReliableQueue
      → (again : Store → Option Popped) → Option (List (Entry Bytes)) × Store
      → Option Popped
  answer_of q again (none, s) = some (record { answer = ok none; queue = q; store = s })
  answer_of q again (some (e ∷ _), s) =
      some (record { answer = ok (some (item_of e)); queue = q; store = s })
  answer_of q again (some [], s) = elim (str_eq q.last_stream_id ">") [
    | true ↦ some (record { answer = raised; queue = q; store = s })
    | false ↦ again s
  ]

  -- The calls of itself that are left; none is the answer where they run out.
  unfoldable pub pop_within : (fuel : ℕ) → ReliableQueue → (group : String) → Store → Option Popped
  unfolding stream_item
  pop_within zero q g s = none
  pop_within (suc fuel) q g s =
      answer_of q (λ s'. pop_within fuel (record q { last_stream_id = ">" }) g s')
        (stream_item q g s)

  unfoldable pub pop : ReliableQueue → Store → Option Popped
  unfolding pop_within
  pop q s = elim q.group_name [
    | none ↦ some (record { answer = raised; queue = q; store = s })
    | some g ↦ pop_within 2 q g s
  ]

  unfoldable pub ack_item : ReliableQueue → (item_id : String) → Store → Result Store
  ack_item q item_id s = with_group q (λ g. ok (xack q.queue_name g item_id s))

  unfoldable pub times_delivered : ReliableQueue → (item_id : String) → Store → Result ℕ
  times_delivered q item_id s =
      with_group q
        (λ g. elim (xpending_range q.queue_name g item_id s) [ some (n ∷ _) ↦ ok n | _ ↦ ok 0 ])

  unfoldable pub claim_item :
      ReliableQueue → (item_id : String) (min_idle_time : ℕ) → Store → Result Store
  claim_item q item_id min_idle_time s =
      with_group q (λ g. ok (xclaim q.queue_name g q.reader_name min_idle_time item_id s))
