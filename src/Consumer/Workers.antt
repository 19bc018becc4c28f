-- ===== src/Consumer/Workers.antt =====
-- The start of a worker's consumers: `doConfigure`, `validate` and `buildAndStartConsumer` of
-- consumer/worker/DefaultKafkaMsgWorker.java, on consumer/biz/bean/TopicGroup.java. Topics and groups
-- are constants of enumerations, here numbers; the table of topics is a list without order.
pub mod Starts
use mq_kafka.Prelude.{
  ℕ, zero, suc, ◌+◌, ◌%◌, Bool, true, false, not, ◌&&◌, ◌||◌, Option, none, some, List, [], ◌∷◌,
  ◌++◌, ltb, leb, ◌==◌, if◌then◌else◌, map,
}

pub record TopicGroup : Type 0 where
  pub topic : Option ℕ
  pub group : Option ℕ
  pub consumer_size : ℕ

-- The constructor, for a size that is not negative; a negative one is taken like 0.
abbrev pub new_topic_group : Option ℕ → Option ℕ → ℕ → TopicGroup
new_topic_group topic group size = record {
  topic = topic;
  group = group;
  consumer_size = if ltb 0 size then size else 1;
}

-- An entry of a topic's list, whose group is there.
pub record Subscription : Type 0 where
  pub group : ℕ
  pub size : ℕ

abbrev pub TopicGroupMap : Type 0
TopicGroupMap = List (ℕ × List Subscription)

abbrev pub same_subscription : Subscription → Subscription → Bool
same_subscription a b = a.group == b.group && a.size == b.size

abbrev has_subscription : Subscription → List Subscription → Bool
has_subscription a [] = false
has_subscription a (b ∷ bs) = same_subscription b a || has_subscription a bs

-- `groupingBy` with `distinct`: an entry joins its topic's list, unless the list has an equal one.
unfoldable pub join_group : ℕ → Subscription → TopicGroupMap → TopicGroupMap
join_group topic entry [] = (topic, entry ∷ []) ∷ []
join_group topic entry ((t, entries) ∷ rest) =
    let later = join_group topic entry rest in
    if t == topic
    then (t, if has_subscription entry entries then entries else entries ++ (entry ∷ [])) ∷ rest
    else (t, entries) ∷ later

-- Entries without topic or group are left out.
unfoldable pub join_valid : TopicGroup → TopicGroupMap → TopicGroupMap
unfolding join_group
join_valid it mapping = elim it.topic [
  | none ↦ mapping
  | some topic ↦ elim it.group [
    | none ↦ mapping
    | some group ↦ join_group topic (record { group = group; size = it.consumer_size }) mapping
  ]
]

unfoldable pub topic_mapping : List TopicGroup → TopicGroupMap → TopicGroupMap
unfolding join_valid
topic_mapping [] mapping = mapping
topic_mapping (it ∷ its) mapping = topic_mapping its (join_valid it mapping)

-- `putAll`: a topic that is there gets the new list.
unfoldable pub put_topic : ℕ → List Subscription → TopicGroupMap → TopicGroupMap
put_topic topic entries [] = (topic, entries) ∷ []
put_topic topic entries ((t, old) ∷ rest) =
    let later = put_topic topic entries rest in
    if t == topic then (t, entries) ∷ rest else (t, old) ∷ later

unfoldable pub put_all_topics : TopicGroupMap → TopicGroupMap → TopicGroupMap
unfolding put_topic
put_all_topics [] table = table
put_all_topics ((topic, entries) ∷ more) table = put_all_topics more (put_topic topic entries table)

-- The fields that `doConfigure` sets. The numbers of the caller are 0 where they are not positive.
pub record Worker : Type 0 where
  pub topic_group_map : TopicGroupMap
  pub total_consumer_size : ℕ
  pub max_poll_records : ℕ
  pub poll_interval_timeout_millis : ℕ
  pub worker_execute_timeout_millis : ℕ
  pub batch_commit_size : ℕ

abbrev pub new_worker : Worker
new_worker = record {
  topic_group_map = [];
  total_consumer_size = 1;
  max_poll_records = 500;
  poll_interval_timeout_millis = 1800000;
  worker_execute_timeout_millis = 25000;
  batch_commit_size = 1;
}

abbrev sum_entries : List Subscription → ℕ
sum_entries [] = 0
sum_entries (entry ∷ entries) = entry.size + sum_entries entries

abbrev pub sum_sizes : TopicGroupMap → ℕ
sum_sizes [] = 0
sum_sizes ((topic, entries) ∷ rest) = sum_entries entries + sum_sizes rest

-- `mapToInt(..).sum()`, an int of 32 bits that is taken if it is positive.
unfoldable pub total_of : TopicGroupMap → ℕ → ℕ
total_of table before =
    let sum = sum_sizes table % 4294967296 in
    if ltb 0 sum && ltb sum 2147483648 then sum else before

abbrev default_unless_positive : ℕ → ℕ → ℕ
default_unless_positive zero before = before
default_unless_positive (suc n) before = suc n

unfoldable pub do_configure : List TopicGroup → ℕ → ℕ → ℕ → ℕ → Worker → Worker
unfolding topic_mapping put_all_topics total_of
do_configure topic_groups max_poll poll_interval timeout batch_commit w =
    let table = put_all_topics (topic_mapping topic_groups []) w.topic_group_map in
    record {
      topic_group_map = table;
      total_consumer_size = total_of table w.total_consumer_size;
      max_poll_records = default_unless_positive max_poll w.max_poll_records;
      poll_interval_timeout_millis =
          default_unless_positive poll_interval w.poll_interval_timeout_millis;
      worker_execute_timeout_millis =
          default_unless_positive timeout w.worker_execute_timeout_millis;
      batch_commit_size = batch_commit;
    }

abbrev is_not_empty : TopicGroupMap → Bool
is_not_empty [] = false
is_not_empty (entry ∷ rest) = true

unfoldable pub validate : Worker → Bool
validate w =
    is_not_empty w.topic_group_map
    && leb 1 w.total_consumer_size
    && leb 1 w.poll_interval_timeout_millis
    && leb 1 w.worker_execute_timeout_millis

-- The consumers that are built, by topic and group.
abbrev range_of : ℕ → ℕ × ℕ → List (ℕ × ℕ)
range_of zero consumer = []
range_of (suc n) consumer = consumer ∷ range_of n consumer

abbrev consumers_of : ℕ → List Subscription → List (ℕ × ℕ)
consumers_of topic [] = []
consumers_of topic (entry ∷ entries) =
    range_of entry.size (topic, entry.group) ++ consumers_of topic entries

unfoldable pub build_consumers : TopicGroupMap → List (ℕ × ℕ)
build_consumers [] = []
build_consumers ((topic, entries) ∷ rest) = consumers_of topic entries ++ build_consumers rest
