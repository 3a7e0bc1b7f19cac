-- ===== src/Tests/Topics.antt =====
-- src/model/topic_tree.c on small trees.
use mqtt_viewer.Base.{
  zero, suc, str_eq, [], ◌∷◌, none, some, ◌≡◌, inl, refl, arith, replicate, Bytes, codes,
}
use mqtt_viewer.TopicTree.{
  TopicTree, blank, segments, tokens, topic_tree_init, topic_tree_insert, topic_tree_find,
  insert_from, find_from, find_child, node_new, add_child,
}
use mqtt_viewer.TopicTree.Extends.{IsValid}
use mqtt_viewer.TopicTree.Slashes.{topic_tree_insert-slash}
use mqtt_viewer.TopicTree.Lookup.{
  Short, NodeOrStuck, topic_tree_insert-find, topic_tree_find-kept, topic_tree_insert-known,
}
use mqtt_viewer.TopicTree.Long.{SomeLong, inserted, topic_tree_find-long}

-- The tree of the topic "a".
abbrev one_topic : TopicTree
one_topic = record {
  nodes = record blank { segment = codes "a" } ∷ [];
  roots = 0 ∷ [];
  total_count = 1;
}

one_topic-IsValid : IsValid one_topic
one_topic-IsValid none k = (omega arith, tt)
one_topic-IsValid (some zero) k = tt
one_topic-IsValid (some (suc i)) k = tt

segments-Short : Short (segments (codes "a/b"))
unfolding segments tokens
segments-Short = (omega arith, (omega arith, tt))

a_found : topic_tree_find one_topic (codes "a") ≡ some 0
unfolding topic_tree_find segments tokens find_from find_child str_eq
a_found = refl

insert_find_example :
    let (t', n) = topic_tree_insert one_topic (codes "a/b") in
    IsValid t'
    × (topic_tree_find t' (codes "a/b") ≡ n)
    × NodeOrStuck t' none (segments (codes "a/b")) n
insert_find_example =
    topic_tree_insert-find one_topic (codes "a/b") one_topic-IsValid segments-Short

find_kept_example :
    topic_tree_find (topic_tree_insert one_topic (codes "a/b")).0 (codes "a") ≡ some 0
find_kept_example =
    topic_tree_find-kept one_topic (codes "a/b") (codes "a") 0 one_topic-IsValid segments-Short
      a_found

insert_known_example : topic_tree_insert one_topic (codes "a") ≡ (one_topic, some 0)
insert_known_example = topic_tree_insert-known one_topic (codes "a") 0 a_found

abbrev long_topic : Bytes
long_topic = replicate 128 b'x'

long_segment : SomeLong (segments long_topic)
unfolding segments tokens
long_segment = inl (omega arith)

find_long_example : topic_tree_find (inserted (long_topic ∷ [])) long_topic ≡ none
find_long_example = topic_tree_find-long (long_topic ∷ []) long_topic long_segment

-- Two insertions of one long topic make two nodes.
insert_long_run :
    (topic_tree_insert (topic_tree_insert topic_tree_init long_topic).0 long_topic).1 ≡ some 1
unfolding topic_tree_insert topic_tree_init segments tokens insert_from find_child node_new
    add_child str_eq
insert_long_run = refl

insert_run : (topic_tree_insert one_topic (codes "a/b")).1 ≡ some 1
unfolding topic_tree_insert segments tokens insert_from find_child node_new add_child str_eq
insert_run = refl

slash_example :
    topic_tree_insert one_topic (b'/' ∷ b'a' ∷ []) ≡ topic_tree_insert one_topic (b'a' ∷ [])
slash_example = topic_tree_insert-slash one_topic (b'a' ∷ []) (omega arith)
