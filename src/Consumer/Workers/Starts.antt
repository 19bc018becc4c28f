-- ===== src/Consumer/Workers/Starts.antt =====
-- DefaultKafkaMsgWorker.java: how many consumers are started, and on how many threads.
use mq_kafka.Prelude.{
  ℕ, zero, suc, ◌<◌, ◌≡◌, refl, ap, ◌∙◌, Bool, true, false, ◌&&◌, ◌||◌, Option, none, some, List,
  [], ◌∷◌, length, length-append, leb, arith,
}
use mq_kafka.Consumer.Workers.{
  TopicGroup, Subscription, TopicGroupMap, join_group, join_valid, topic_mapping, put_topic,
  put_all_topics, Worker, default_unless_positive, is_not_empty, new_worker, sum_entries, sum_sizes,
  total_of, do_configure, validate, range_of, consumers_of, build_consumers,
}

length-range_of : (n : ℕ) (c : ℕ × ℕ) → length (range_of n c) ≡ n
length-range_of zero c = refl
length-range_of (suc n) c = ap suc (length-range_of n c)

length-consumers_of :
    (topic : ℕ) (entries : List Subscription)
    → length (consumers_of topic entries) ≡ sum_entries entries
length-consumers_of topic [] = refl
length-consumers_of topic (entry ∷ entries) = omega (
  arith,
  length-append (range_of entry.size (topic, entry.group)) (consumers_of topic entries),
  length-range_of entry.size (topic, entry.group),
  length-consumers_of topic entries,
)

length-build_consumers : (table : TopicGroupMap) → length (build_consumers table) ≡ sum_sizes table
unfolding build_consumers
length-build_consumers [] = refl
length-build_consumers ((topic, entries) ∷ rest) = omega (
  arith,
  length-append (consumers_of topic entries) (build_consumers rest),
  length-consumers_of topic entries,
  length-build_consumers rest,
)

-- Whether an entry has both a topic and a group.
abbrev pub has_both : TopicGroup → Bool
has_both it = elim it.topic [
  | none ↦ false
  | some topic ↦ elim it.group [ none ↦ false | some group ↦ true ]
]

abbrev pub any_has_both : List TopicGroup → Bool
any_has_both [] = false
any_has_both (it ∷ its) = has_both it || any_has_both its

join_group-is_not_empty :
    (topic : ℕ) (entry : Subscription) (m : TopicGroupMap)
    → is_not_empty (join_group topic entry m) ≡ true
unfolding join_group
join_group-is_not_empty topic entry [] = refl
join_group-is_not_empty topic entry ((t, entries) ∷ rest) = ground arith

join_valid-is_not_empty :
    (it : TopicGroup) (m : TopicGroupMap)
    → is_not_empty (join_valid it m) ≡ (has_both it || is_not_empty m)
unfolding join_valid
join_valid-is_not_empty it m = by it.topic it.group
  where
    by :
        (t g : Option ℕ)
        → is_not_empty (elim t [
          | none ↦ m
          | some topic ↦ elim g [
            | none ↦ m
            | some group ↦ join_group topic (record { group = group; size = it.consumer_size }) m
          ]
        ])
          ≡ (elim t [ none ↦ false | some topic ↦ elim g [ none ↦ false | some group ↦ true ] ]
              || is_not_empty m)
    by none g = refl
    by (some t) none = refl
    by (some t) (some g) =
        join_group-is_not_empty t (record { group = g; size = it.consumer_size }) m

or_swap : (a b c : Bool) → (a || (b || c)) ≡ ((b || a) || c)
or_swap true true c = refl
or_swap true false c = refl
or_swap false true c = refl
or_swap false false c = refl

topic_mapping-is_not_empty :
    (its : List TopicGroup) (m : TopicGroupMap)
    → is_not_empty (topic_mapping its m) ≡ (any_has_both its || is_not_empty m)
unfolding topic_mapping
topic_mapping-is_not_empty [] m = refl
topic_mapping-is_not_empty (it ∷ its) m =
    topic_mapping-is_not_empty its (join_valid it m)
    ∙ ap (λ b. any_has_both its || b) (join_valid-is_not_empty it m)
    ∙ or_swap (any_has_both its) (has_both it) (is_not_empty m)

put_topic-is_not_empty :
    (topic : ℕ) (entries : List Subscription) (m : TopicGroupMap)
    → is_not_empty (put_topic topic entries m) ≡ true
unfolding put_topic
put_topic-is_not_empty topic entries [] = refl
put_topic-is_not_empty topic entries ((t, old) ∷ rest) = ground arith

or_true : (b : Bool) → (b || true) ≡ true
or_true true = refl
or_true false = refl

put_all_topics-is_not_empty :
    (more table : TopicGroupMap)
    → is_not_empty (put_all_topics more table) ≡ (is_not_empty more || is_not_empty table)
unfolding put_all_topics
put_all_topics-is_not_empty [] table = refl
put_all_topics-is_not_empty ((topic, entries) ∷ more) table =
    put_all_topics-is_not_empty more (put_topic topic entries table)
    ∙ ap (λ b. is_not_empty more || b) (put_topic-is_not_empty topic entries table)
    ∙ or_true (is_not_empty more)

total_of-positive : (table : TopicGroupMap) → leb 1 (total_of table 1) ≡ true
unfolding total_of
total_of-positive table = ground arith

default_unless_positive-positive :
    (n before : ℕ) → 0 < before → leb 1 (default_unless_positive n before) ≡ true
default_unless_positive-positive zero before p = ground arith
default_unless_positive-positive (suc n) before p = ground arith

only_first : (b : Bool) → (((b || false) || false) && true && true && true) ≡ b
only_first true = refl
only_first false = refl

module _ (topic_groups : List TopicGroup) (max_poll poll_interval timeout batch_commit : ℕ) where
  abbrev pub configured : Worker → Worker
  configured w = do_configure topic_groups max_poll poll_interval timeout batch_commit w

  -- A worker that was configured has a thread for each consumer that it builds, whatever was
  -- configured before: their number is the size of the pool, if it is not 0 and fits into an int.
  pub do_configure-build_consumers :
      (w : Worker)
      → 0 < length (build_consumers (configured w).topic_group_map)
      → length (build_consumers (configured w).topic_group_map) < 2147483648
      → length (build_consumers (configured w).topic_group_map) ≡ (configured w).total_consumer_size
  unfolding do_configure total_of
  do_configure-build_consumers w p b =
      let count =
        length-build_consumers (put_all_topics (topic_mapping topic_groups []) w.topic_group_map) in
      ground (arith, count)

  -- A new worker passes its validation exactly if some entry has both a topic and a group: numbers
  -- that are not positive never make it fail.
  pub validate-do_configure : validate (configured new_worker) ≡ any_has_both topic_groups
  unfolding validate do_configure
  validate-do_configure =
      rw
        (
          total_of-positive (put_all_topics (topic_mapping topic_groups []) []),
          default_unless_positive-positive poll_interval 1800000 (omega arith),
          default_unless_positive-positive timeout 25000 (omega arith),
          put_all_topics-is_not_empty (topic_mapping topic_groups []) [],
          topic_mapping-is_not_empty topic_groups [],
        )
        (only_first (any_has_both topic_groups))
