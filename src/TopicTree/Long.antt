-- ===== src/TopicTree/Long.antt =====
-- Topics with a segment that does not fit into a node.
use mqtt_viewer.Base.{
  zero, suc, ℕ, ◌≤◌, ◌<◌, List, [], ◌∷◌, Option, none, some, ◌≡◌, refl, ap, ◌∙◌, ◌⊎◌, inl, inr,
  arith, length, length-take, get_or, Bool-cases, Option-cases, Bytes, str_eq, str_eq_iff,
}
use native.Mathlib.Decide.{dec_lt, ℕ_discrete}
use mqtt_viewer.TopicTree.{
  TopicTree, blank, node_at, children_of, find_child, find_from, insert_from, segments,
  topic_tree_init, topic_tree_insert, topic_tree_find,
}
use mqtt_viewer.TopicTree.Extends.{
  InTree, IsValid, find_child-All, find_from-found, find_from-missing,
}
use mqtt_viewer.TopicTree.Grow.{Grown, free_slot}
use mqtt_viewer.TopicTree.Insert.{
  Grown-IsValid, insert_from-found, insert_from-full, insert_from-new, insert_from-nil,
}

-- Some segment does not fit into a node.
abbrev pub SomeLong : List Bytes → Type 0
SomeLong [] = ⊥
SomeLong (seg ∷ segs) = (127 < length seg) ⊎ SomeLong segs

-- The segments of the nodes were cut by `node_new`.
abbrev pub AllShort : TopicTree → Type 0
AllShort t = (i : ℕ) → length (node_at t i).segment ≤ 127

find_child-long :
    (t : TopicTree) (is : List ℕ) (seg : Bytes)
    → AllShort t
    → 127 < length seg
    → find_child t is seg ≡ none
unfolding find_child
find_child-long t [] seg a h = refl
find_child-long t (i ∷ is) seg a h = elim (Bool-cases (str_eq (node_at t i).segment seg)) [
  | inl e ↦ absurd (omega (arith, a i, ap length ((str_eq_iff (node_at t i).segment seg).0 e)))
  | inr e ↦ rw e (find_child-long t is seg a h)
]

find_from-long :
    (t : TopicTree) (segs : List Bytes) (place : Option ℕ)
    → AllShort t
    → SomeLong segs
    → find_from t segs place ≡ none
find_from-long t [] place a h = absurd h
find_from-long t (seg ∷ segs) place a (inl h) =
    find_from-missing t seg segs place (find_child-long t (children_of t place) seg a h)
find_from-long t (seg ∷ segs) place a (inr h) =
    elim (Option-cases (find_child t (children_of t place) seg)) [
      | inl e ↦ find_from-missing t seg segs place e
      | inr (j, e) ↦ find_from-found t seg segs place j e ∙ find_from-long t segs (some j) a h
    ]

get_or_past : {A : Type 0} (xs : List A) (i : ℕ) (d : A) → length xs ≤ i → get_or xs i d ≡ d
get_or_past [] i d h = refl
get_or_past (x ∷ xs) zero d h = absurd (omega arith)
get_or_past (x ∷ xs) (suc i) d h = get_or_past xs i d (omega arith)

Grown-AllShort :
    {t t' : TopicTree} {seg : Bytes} {place : Option ℕ}
    → AllShort t
    → Grown t seg place t'
    → AllShort t'
Grown-AllShort {t} {t'} {seg} a g i = elim (dec_lt i (length t.nodes)) [
  | yes old ↦ omega (arith, a i, ap length (g.segs i old))
  | no k ↦ elim (ℕ_discrete i (length t.nodes)) [
    | yes e ↦ rw e (omega (arith, ap length g.new_seg, length-take 127 seg))
    | no ne ↦ rw (get_or_past t'.nodes i blank (omega (arith, g.size))) (omega arith)
  ]
]

insert_from-AllShort :
    (segs : List Bytes) (place : Option ℕ) (t : TopicTree)
    → IsValid t
    → InTree t place
    → AllShort t
    → IsValid (insert_from segs place t).0 × AllShort (insert_from segs place t).0
insert_from-AllShort [] place t v h a = rw (insert_from-nil t place) (v, a)
insert_from-AllShort (seg ∷ segs) place t v h a =
    elim (Option-cases (find_child t (children_of t place) seg)) [
      | inr (j, e) ↦ rw (insert_from-found t seg segs place j e) (
          insert_from-AllShort segs (some j) t v
            (find_child-All (λ k. k < length t.nodes) t (children_of t place) seg j (v place h) e)
            a)
      | inl e ↦ elim (dec_lt (length (children_of t place)) 64) [
        | yes few ↦
            let g = free_slot t seg place h few in
            rw (insert_from-new t seg segs place e few) (
              insert_from-AllShort segs (some (length t.nodes)) _ (Grown-IsValid v h g)
                (omega (arith, g.size)) (Grown-AllShort a g))
        | no many ↦ rw (insert_from-full t seg segs place e (omega arith)) (v, a)
      ]
    ]

-- The tree after the insertion of topics, of the last in the list first.
abbrev pub inserted : List Bytes → TopicTree
inserted [] = topic_tree_init
inserted (topic ∷ topics) = (topic_tree_insert (inserted topics) topic).0

inserted-AllShort : (topics : List Bytes) → IsValid (inserted topics) × AllShort (inserted topics)
unfolding topic_tree_init topic_tree_insert
inserted-AllShort [] = (valid, λ i. omega arith)
  where
    valid : IsValid (record { nodes = []; roots = []; total_count = 0 })
    valid none k = tt
    valid (some i) k = tt
inserted-AllShort (topic ∷ topics) =
    let before = inserted-AllShort topics in
    insert_from-AllShort (segments topic) none (inserted topics) before.0 tt before.1

-- A topic with a segment of more than 127 bytes is never found, whatever was inserted: in the tree
-- after any insertions into the empty tree, of that topic too, the lookup gives none.
pub topic_tree_find-long :
    (topics : List Bytes) (topic : Bytes)
    → SomeLong (segments topic)
    → topic_tree_find (inserted topics) topic ≡ none
unfolding topic_tree_find
topic_tree_find-long topics topic h =
    find_from-long (inserted topics) (segments topic) none ((inserted-AllShort topics).1) h
