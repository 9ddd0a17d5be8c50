-- ===== src/Queues/Delivery.antt =====
-- Any number of consumers of one group on one queue, with pushes, of
-- common/src/buttercup/common/queues.py.
use buttercup.Prelude.{
  ℕ, refl, sym, ap, ◌∙◌, subst, String, Bool, Option, none, some, List, [], ◌∷◌, ◌++◌, str_eq,
  filter,
}
use buttercup.Prelude.Filters.{reject, reject-append-filter-perm}
use mathlib.Core.List.{Perm, perm_middle, append-nil, append_assoc}
use mathlib.Core.List.Perm
use buttercup.Outcome.{Result, ok, raised}
use buttercup.Redis.{Codec}
use buttercup.Streams.{Streams, Entry}
use buttercup.Queues.{ReliableQueue, Popped, push, pop, ack_item, claim_item}
use buttercup.Queues.Pop.{pop-Kept}

-- A call on the queue by some consumer, each with its own object.
pub data Call (A : Type 0) : Type 0 where
  pushes : ReliableQueue → A → Call A
  pops : ReliableQueue → Call A
  acks : ReliableQueue → (item_id : String) → Call A
  claims : ReliableQueue → (item_id : String) (min_idle_time : ℕ) → Call A

-- The server, and what was pushed and acknowledged so far.
pub record World (Store Bytes : Type 0) : Type 0 where
  pub store : Store
  pub pushed : List (Entry Bytes)
  pub acked : List (Entry Bytes)

module _ {Store Bytes A : Type 0} (x : Streams Store Bytes) (codec : Codec Bytes A)
    (name group : String) where
  open x use {waiting, pending, xadd}

  -- The object of a consumer, of this queue and group.
  abbrev pub here : ReliableQueue → ReliableQueue
  here q = record q { queue_name = name; group_name = some group }

  abbrev pub store_after : Option (Popped x codec) → Store → Store
  store_after none s = s
  store_after (some out) s = out.store

  abbrev pub result_or : Result Store → Store → Store
  result_or raised s = s
  result_or (ok s') s = s'

  abbrev pub entry_of : A → Store → Entry Bytes
  entry_of a s = record {
    message_id = (xadd name (codec.serialize a) s).0;
    item = codec.serialize a;
  }

  abbrev has_id : String → Entry Bytes → Bool
  has_id i e = str_eq e.message_id i

  abbrev pub perform : Call A → World Store Bytes → World Store Bytes
  perform (pushes q a) w = record w {
    store = push x codec (here q) a w.store;
    pushed = entry_of a w.store ∷ w.pushed;
  }
  perform (pops q) w = record w { store = store_after (pop x codec (here q) w.store) w.store }
  perform (acks q i) w = record w {
    store = result_or (ack_item x codec (here q) i w.store) w.store;
    acked = filter (has_id i) (pending name group w.store) ++ w.acked;
  }
  perform (claims q i idle) w = record w {
    store = result_or (claim_item x codec (here q) i idle w.store) w.store;
  }

  abbrev pub perform_all : List (Call A) → World Store Bytes → World Store Bytes
  perform_all [] w = w
  perform_all (c ∷ cs) w = perform_all cs (perform c w)

  -- The entries that are on their way, with those that were acknowledged, are those that were pushed.
  abbrev pub Balanced : World Store Bytes → Type 0
  Balanced w = Perm ((waiting name group w.store ++ pending name group w.store) ++ w.acked) w.pushed

  pushed_perm :
      (e : Entry Bytes) (ws ps ks : List (Entry Bytes))
      → Perm (((ws ++ (e ∷ [])) ++ ps) ++ ks) (e ∷ ((ws ++ ps) ++ ks))
  pushed_perm e ws ps ks = Perm.append_right ks (
      Perm.append_right ps
        (subst (λ l. Perm (ws ++ (e ∷ [])) (e ∷ l)) (append-nil ws) (perm_middle ws [])))

  acked_perm :
      (p : Entry Bytes → Bool) (ws ps ks : List (Entry Bytes))
      → Perm ((ws ++ reject p ps) ++ (filter p ps ++ ks)) ((ws ++ ps) ++ ks)
  acked_perm p ws ps ks =
      subst (λ l. Perm l ((ws ++ ps) ++ ks))
        (ap (λ l. l ++ ks) (sym (append_assoc ws (reject p ps) (filter p ps)))
          ∙ append_assoc (ws ++ reject p ps) (filter p ps) ks)
        (Perm.append_right ks (Perm.append_left ws (reject-append-filter-perm p ps)))

  -- Where the two lists of the server end as a permutation of what they were.
  moved_Balanced :
      (s : Store) (w : World Store Bytes)
      → Perm
          (waiting name group s ++ pending name group s)
          (waiting name group w.store ++ pending name group w.store)
      → Balanced w
      → Balanced (record w { store = s })
  moved_Balanced s w p h = Perm.trans (Perm.append_right w.acked p) h

  perform-Balanced : (c : Call A) (w : World Store Bytes) → Balanced w → Balanced (perform c w)
  unfolding push ack_item claim_item
  perform-Balanced (pushes q a) w h =
      let bytes = codec.serialize a in
      rw (x.waiting-xadd name group bytes w.store, x.pending-xadd name group bytes w.store)
        (Perm.trans
          (pushed_perm (entry_of a w.store) (waiting name group w.store)
            (pending name group w.store) w.acked)
          (Perm.cons (entry_of a w.store) h))
  perform-Balanced (pops q) w h =
      let (out, same, kept) = pop-Kept x codec (here q) group w.store refl in
      subst (λ o. Balanced (record w { store = store_after o w.store })) (sym same)
        (moved_Balanced out.store w kept.entries h)
  perform-Balanced (acks q i) w h =
      rw (x.waiting-xack name group i w.store, x.pending-xack name group i w.store)
        (Perm.trans
          (acked_perm (has_id i) (waiting name group w.store) (pending name group w.store) w.acked)
          h)
  perform-Balanced (claims q i idle) w h =
      rw
        (
          x.waiting-xclaim name group q.reader_name idle i w.store,
          x.pending-xclaim name group q.reader_name idle i w.store,
        )
        h

  -- Whatever calls consumers of a group make on a queue, in any order and with any number of consumers,
  -- each entry that was pushed stands exactly once among those that no consumer was given, those that
  -- are pending and those that were acknowledged, if that was so before.
  pub perform_all-Balanced :
      (cs : List (Call A)) (w : World Store Bytes) → Balanced w → Balanced (perform_all cs w)
  perform_all-Balanced [] w h = h
  perform_all-Balanced (c ∷ cs) w h = perform_all-Balanced cs (perform c w) (perform-Balanced c w h)
