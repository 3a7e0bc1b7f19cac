-- ===== src/TopicTree/Slashes.antt =====
-- Empty levels of a topic, which the tree does not keep.
use mqtt_viewer.Base.{none, ◌≤◌, [], ◌∷◌, ◌≡◌, sym, ap, ◌∙◌, arith, length, take_all, Bytes}
use mqtt_viewer.TopicTree.{TopicTree, tokens, segments, insert_from, topic_tree_insert}

segments-slash : (topic : Bytes) → length topic ≤ 510 → segments (b'/' ∷ topic) ≡ segments topic
unfolding segments tokens
segments-slash topic h =
    ap (tokens []) (take_all 510 topic h ∙ sym (take_all 511 topic (omega arith)))

-- A topic of at most 510 bytes and the same topic behind a '/' are inserted as one: they get the same
-- node, though they are two topics of MQTT.
pub topic_tree_insert-slash :
    (t : TopicTree) (topic : Bytes)
    → length topic ≤ 510
    → topic_tree_insert t (b'/' ∷ topic) ≡ topic_tree_insert t topic
unfolding topic_tree_insert
topic_tree_insert-slash t topic h = ap (λ segs. insert_from segs none t) (segments-slash topic h)
