-- ===== src/TopicTree.antt =====
-- src/model/topic_tree.h and .c: the index of every topic seen. The node pool is the list `nodes`,
-- and a pointer to a node is its index there; a node is never freed while the tree lives. A node's
-- payload block is the list of the bytes stored in it.
pub mod Extends
pub mod Grow
pub mod Insert
pub mod Long
pub mod Lookup
pub mod Slashes
use mqtt_viewer.Base.{
  ℕ, zero, suc, ◌+◌, ◌-◌, Bool, true, false, List, [], ◌∷◌, ◌++◌, Option, none, some, length, take,
  drop, get_or, set, ltb, leb, ◌==◌, if◌then◌else◌, Bytes, str_eq,
}
use mqtt_viewer.Ring.{add32}
use mqtt_viewer.Decimal.{decimal}
use mqtt_viewer.Util.{truncated}

abbrev pub topic_max_children : ℕ
topic_max_children = 64

abbrev pub topic_payload_cap : ℕ
topic_payload_cap = 16384

-- The fields but those of the widgets, `throughput` and `filter_match`. `last_payload` is `none` while no block was allocated;
-- `last_payload_stored` counts its valid bytes.
pub record TopicNode : Type 0 where
  pub parent : Option ℕ
  pub children : List ℕ
  pub last_payload : Option Bytes
  pub last_message_ts : ℕ
  pub last_subtree_message_ts : ℕ
  pub last_display_update_us : ℕ
  pub last_subtree_display_update_us : ℕ
  pub last_payload_len : ℕ
  pub last_payload_stored : ℕ
  pub last_qos : ℕ
  pub message_count : ℕ
  pub subtree_message_count : ℕ
  pub has_retained : Bool
  pub expanded : Bool
  pub segment : Bytes
  pub msg_count_str : Bytes
  pub subtree_count_str : Bytes

pub record TopicTree : Type 0 where
  pub nodes : List TopicNode
  pub roots : List ℕ
  pub total_count : ℕ

-- A zeroed block of the pool.
abbrev pub blank : TopicNode
blank = record {
  parent = none;
  children = [];
  last_payload = none;
  last_message_ts = 0;
  last_subtree_message_ts = 0;
  last_display_update_us = 0;
  last_subtree_display_update_us = 0;
  last_payload_len = 0;
  last_payload_stored = 0;
  last_qos = 0;
  message_count = 0;
  subtree_message_count = 0;
  has_retained = false;
  expanded = false;
  segment = [];
  msg_count_str = [];
  subtree_count_str = [];
}

abbrev pub node_at : TopicTree → ℕ → TopicNode
node_at t i = get_or t.nodes i blank

abbrev pub put_node : TopicTree → ℕ → TopicNode → TopicTree
put_node t i n = record t { nodes = set t.nodes i n }

unfoldable pub topic_tree_init : TopicTree
topic_tree_init = record { nodes = []; roots = []; total_count = 0 }

-- The child slots that the loops of `topic_tree_insert` and `topic_tree_find` look at: the roots, or
-- the children of the current node.
abbrev pub children_of : TopicTree → Option ℕ → List ℕ
children_of t none = t.roots
children_of t (some i) = (node_at t i).children

-- The new node's index is the number of nodes before it. `segment` holds 127 bytes at most.
unfoldable pub node_new : TopicTree → Bytes → Option ℕ → TopicTree
node_new t seg parent = record t {
  nodes = t.nodes ++ (record blank { segment = truncated 128 seg; parent = parent } ∷ []);
  total_count = add32 t.total_count 1;
}

unfoldable pub find_child : TopicTree → List ℕ → Bytes → Option ℕ
find_child t [] seg = none
find_child t (i ∷ is) seg = if str_eq (node_at t i).segment seg then some i else find_child t is seg

-- `add_child(children, child_count, child)`, with the slots of `parent`.
unfoldable pub add_child : TopicTree → Option ℕ → ℕ → TopicTree
add_child t none child =
    if ltb (length t.roots) topic_max_children
    then record t { roots = t.roots ++ (child ∷ []) }
    else t
add_child t (some p) child =
    if ltb (length (node_at t p).children) topic_max_children
    then put_node t p (record (node_at t p) { children = (node_at t p).children ++ (child ∷ []) })
    else t

-- A token ends; an empty one is none.
abbrev pub flush : Bytes → List Bytes → List Bytes
flush [] ls = ls
flush (d ∷ l) ls = (d ∷ l) ∷ ls

-- The tokens of `strtok_r(buf, "/", ..)`: `seg` is the token read so far.
unfoldable pub tokens : Bytes → Bytes → List Bytes
tokens seg [] = flush seg []
tokens seg (c ∷ s) =
    let rest = tokens (if c == b'/' then [] else seg ++ (c ∷ [])) s in
    if c == b'/' then flush seg rest else rest

-- The segments of a topic, cut to the 511 bytes of `buf`.
unfoldable pub segments : Bytes → List Bytes
unfolding tokens
segments topic = tokens [] (truncated 512 topic)

-- The loop of `topic_tree_insert`; `current` is `parent` of the round to come.
unfoldable pub insert_from : List Bytes → Option ℕ → TopicTree → TopicTree × Option ℕ
insert_from [] current t = (t, current)
insert_from (seg ∷ segs) current t = elim (find_child t (children_of t current) seg) [
  | some i ↦ insert_from segs (some i) t
  | none ↦ elim (leb topic_max_children (length (children_of t current))) [
    | true ↦ (t, none)
    | false ↦
        insert_from segs (some (length t.nodes))
          (add_child (node_new t seg current) current (length t.nodes))
  ]
]

unfoldable pub topic_tree_insert : TopicTree → Bytes → TopicTree × Option ℕ
topic_tree_insert t topic = insert_from (segments topic) none t

-- The loop of `topic_tree_find`.
unfoldable pub find_from : TopicTree → List Bytes → Option ℕ → Option ℕ
find_from t [] current = current
find_from t (seg ∷ segs) current = elim (find_child t (children_of t current) seg) [
  | none ↦ none
  | some i ↦ find_from t segs (some i)
]

unfoldable pub topic_tree_find : TopicTree → Bytes → Option ℕ
topic_tree_find t topic = find_from t (segments topic) none

unfoldable pub topic_tree_count : TopicTree → ℕ
topic_tree_count t = t.total_count

-- The walk over `parent`, from a node up to its root, at most `fuel` nodes.
unfoldable pub ancestors : ℕ → TopicTree → Option ℕ → List ℕ
ancestors zero t n = []
ancestors (suc fuel) t none = []
ancestors (suc fuel) t (some i) = i ∷ ancestors fuel t (node_at t i).parent

-- One body of a loop for each node of the walk, which changes no `parent`.
unfoldable pub update_all : (TopicNode → TopicNode) → List ℕ → TopicTree → TopicTree
update_all f [] t = t
update_all f (i ∷ is) t = update_all f is (put_node t i (f (node_at t i)))

-- Parents come before their children, so a walk meets `i + 1` nodes at most.
unfoldable pub topic_node_count_message : TopicTree → ℕ → TopicTree
unfolding ancestors update_all
topic_node_count_message t i =
    let counted =
      put_node t i (record (node_at t i) { message_count = add32 (node_at t i).message_count 1 }) in
    update_all (λ n. record n { subtree_message_count = add32 n.subtree_message_count 1 })
      (ancestors (suc i) counted (some i)) counted

-- The badge text of a subtree count, "Σ n" in UTF-8, cut to 15 bytes.
abbrev pub subtree_badge : ℕ → Bytes
subtree_badge n = if ltb 0 n then truncated 16 (0xce ∷ 0xa3 ∷ b' ' ∷ decimal n) else []

abbrev pub uncount : ℕ → TopicNode → TopicNode
uncount cleared n =
    let left =
      if ltb cleared n.subtree_message_count then n.subtree_message_count - cleared else 0 in
    record n { subtree_message_count = left; subtree_count_str = subtree_badge left }

unfoldable pub topic_node_payload_clear : TopicNode → TopicNode
topic_node_payload_clear n = record n { last_payload_stored = 0 }

-- The number of messages that the node had comes second.
unfoldable pub topic_node_clear_messages : TopicTree → ℕ → TopicTree × ℕ
unfolding ancestors update_all topic_node_payload_clear
topic_node_clear_messages t i =
    let cleared = (node_at t i).message_count in
    let t' =
      if ltb 0 cleared then update_all (uncount cleared) (ancestors (suc i) t (some i)) t else t in
    let n = record (node_at t' i) { message_count = 0; msg_count_str = [] } in
    (put_node t' i (record (topic_node_payload_clear n) { has_retained = false }), cleared)

-- `none` for NULL; otherwise the bytes held.
unfoldable pub topic_node_payload : TopicNode → Option Bytes
topic_node_payload n = elim n.last_payload [
  | none ↦ none
  | some b ↦ some (take n.last_payload_stored b)
]

-- The bytes of the block, none where it is allocated now.
abbrev pub block_of : Option Bytes → Bytes
block_of none = []
block_of (some b) = b

-- `src` is given as its `len` bytes; the old block's bytes past the copy stay.
unfoldable pub topic_node_payload_set : TopicNode → Option Bytes → TopicNode
unfolding topic_node_payload_clear
topic_node_payload_set n none = topic_node_payload_clear n
topic_node_payload_set n (some []) = topic_node_payload_clear n
topic_node_payload_set n (some (c ∷ src)) =
    let stored = take topic_payload_cap (c ∷ src) in
    record n {
      last_payload = some (stored ++ drop (length stored) (block_of n.last_payload));
      last_payload_stored = length stored;
    }

-- The loop of `topic_node_full_path` over the stack, root first; `top` is true at the root.
unfoldable pub join_from : ℕ → Bool → List Bytes → Bytes → Bytes
join_from size top [] buf = buf
join_from size top (seg ∷ segs) buf =
    let sep = if top then [] else b'/' ∷ [] in
    let more = join_from size false segs (buf ++ (sep ++ seg)) in
    if leb size (length buf + length seg + length sep) then buf else more

abbrev pub segments_of : TopicTree → List ℕ → List Bytes
segments_of t [] = []
segments_of t (i ∷ is) = segments_of t is ++ ((node_at t i).segment ∷ [])

-- The stack holds 64 nodes at most, and the node itself is the last of the path.
unfoldable pub topic_node_full_path : TopicTree → ℕ → ℕ → Bytes
unfolding ancestors join_from
topic_node_full_path t i buf_size =
    if buf_size == 0
    then []
    else join_from buf_size true (segments_of t (ancestors 64 t (some i))) []
