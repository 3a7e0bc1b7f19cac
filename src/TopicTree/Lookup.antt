-- ===== src/TopicTree/Lookup.antt =====
-- What inserting a topic promises to later lookups.
use mqtt_viewer.Base.{
  ℕ, ◌≤◌, ◌<◌, List, [], ◌∷◌, Option, none, some, ◌≡◌, refl, sym, ap, ◌∙◌, ◌⊎◌, inl, inr, arith,
  length, Option-cases, Bytes, All,
}
use native.Mathlib.Decide.{dec_lt}
use mqtt_viewer.TopicTree.{
  TopicTree, children_of, node_new, find_child, add_child, find_from, insert_from, segments,
  topic_tree_insert, topic_tree_find,
}
use mqtt_viewer.TopicTree.Extends.{
  InTree, IsValid, Extends, Extends-refl, Extends-trans, InTree-grown, find_child-All,
  find_child-step, find_from-nil, find_from-found, find_from-missing, find_from-Extends,
}
use mqtt_viewer.TopicTree.Grow.{free_slot}
use mqtt_viewer.TopicTree.Insert.{
  Grown-Extends, Grown-IsValid, find_child-Grown, insert_from-found, insert_from-full,
  insert_from-new, insert_from-nil,
}

-- The segments fit into a node.
abbrev pub Short : List Bytes → Type 0
Short segs = All (λ seg. length seg ≤ 127) segs

-- Why a topic has no node: it has no segment, or going down its segments in the tree ends at a place
-- that has no child of the next segment, and all its 64 child slots in use.
pub data IsStuck (t : TopicTree) : Option ℕ → List Bytes → Type 0 where
  no_segment : IsStuck t none []
  full :
      {place : Option ℕ} {seg : Bytes} {segs : List Bytes}
      → 64 ≤ length (children_of t place)
      → find_child t (children_of t place) seg ≡ none
      → IsStuck t place (seg ∷ segs)
  below :
      {place : Option ℕ} {seg : Bytes} {segs : List Bytes} {i : ℕ}
      → find_child t (children_of t place) seg ≡ some i
      → IsStuck t (some i) segs
      → IsStuck t place (seg ∷ segs)

-- A node, or a reason for none.
abbrev pub NodeOrStuck : TopicTree → Option ℕ → List Bytes → Option ℕ → Type 0
NodeOrStuck t place segs n = ((i : ℕ) × (n ≡ some i)) ⊎ ((n ≡ none) × IsStuck t place segs)

-- What the loop of `topic_tree_insert` has done from tree `t` and place `place`.
record Inserted (t : TopicTree) (segs : List Bytes) (place : Option ℕ) (out : TopicTree × Option ℕ)
    : Type 0 where
  valid : IsValid out.0
  extends : Extends t out.0
  result : find_from out.0 segs place ≡ out.1
  outcome : NodeOrStuck out.0 place segs out.1

Inserted-through :
    {t u : TopicTree} (seg : Bytes) (segs : List Bytes) (place : Option ℕ) (j : ℕ)
    (out : TopicTree × Option ℕ)
    → IsValid u
    → InTree u place
    → Extends t u
    → find_child u (children_of u place) seg ≡ some j
    → Inserted u segs (some j) out
    → Inserted t (seg ∷ segs) place out
Inserted-through seg segs place j out v h x e r = record {
  valid = r.valid;
  extends = Extends-trans x r.extends;
  result =
      find_from-found out.0 seg segs place j (find_child-step place seg j v h r.extends e)
      ∙ r.result;
  outcome = elim r.outcome [
    | inl n ↦ inl n
    | inr n ↦ inr (n.0, IsStuck.below (find_child-step place seg j v h r.extends e) n.1)
  ];
}

insert_from-Inserted :
    (segs : List Bytes) (place : Option ℕ) (t : TopicTree)
    → IsValid t
    → InTree t place
    → Short segs
    → Inserted t segs place (insert_from segs place t)
insert_from-Inserted [] place t v h s = rw (insert_from-nil t place) (record {
  valid = v;
  extends = Extends-refl t;
  result = find_from-nil t place;
  outcome = at_end place;
})
  where
    at_end : (p : Option ℕ) → NodeOrStuck t p [] p
    at_end none = inr (refl, IsStuck.no_segment)
    at_end (some i) = inl (i, refl)
insert_from-Inserted (seg ∷ segs) place t v h s =
    elim (Option-cases (find_child t (children_of t place) seg)) [
      | inr (j, e) ↦ rw (insert_from-found t seg segs place j e) (
          Inserted-through seg segs place j _ v h (Extends-refl t) e (
            insert_from-Inserted segs (some j) t v
              (find_child-All (λ k. k < length t.nodes) t (children_of t place) seg j (v place h) e)
              s.1))
      | inl e ↦ elim (dec_lt (length (children_of t place)) 64) [
        | yes few ↦
            let g = free_slot t seg place h few in
            let u = add_child (node_new t seg place) place (length t.nodes) in
            rw (insert_from-new t seg segs place e few) (
              Inserted-through seg segs place (length t.nodes) _ (Grown-IsValid v h g)
                (InTree-grown place (Grown-Extends v h g) h) (Grown-Extends v h g)
                (find_child-Grown v h g s.0 e)
                (insert_from-Inserted segs (some (length t.nodes)) u (Grown-IsValid v h g)
                  (omega (arith, g.size)) s.1))
        | no many ↦ rw (insert_from-full t seg segs place e (omega arith)) (record {
          valid = v;
          extends = Extends-refl t;
          result = find_from-missing t seg segs place e;
          outcome = inr (refl, IsStuck.full (omega arith) e);
        })
      ]
    ]

-- Where the topic's segments are at most 127 bytes long, inserting it into a valid tree leaves a
-- valid tree in which looking the topic up gives what the insertion returned. It returns a node but
-- for two cases: the topic has no segment, or the way down its segments ends at a place that lacks
-- the next one and has all its 64 child slots in use.
pub topic_tree_insert-find :
    (t : TopicTree) (topic : Bytes)
    → IsValid t
    → Short (segments topic)
    → let (t', n) = topic_tree_insert t topic in
      IsValid t' × (topic_tree_find t' topic ≡ n) × NodeOrStuck t' none (segments topic) n
unfolding topic_tree_insert topic_tree_find
topic_tree_insert-find t topic v s =
    let r = insert_from-Inserted (segments topic) none t v tt s in (r.valid, r.result, r.outcome)

-- Inserting a topic whose segments are at most 127 bytes long into a valid tree changes no earlier
-- lookup: a topic found before is found as the same node.
pub topic_tree_find-kept :
    (t : TopicTree) (topic other : Bytes) (i : ℕ)
    → IsValid t
    → Short (segments topic)
    → topic_tree_find t other ≡ some i
    → topic_tree_find (topic_tree_insert t topic).0 other ≡ some i
unfolding topic_tree_insert topic_tree_find
topic_tree_find-kept t topic other i v s e =
    let r = insert_from-Inserted (segments topic) none t v tt s in
    find_from-Extends (segments other) none i v tt r.extends e

insert_from-known :
    (segs : List Bytes) (place : Option ℕ) (t : TopicTree) (i : ℕ)
    → find_from t segs place ≡ some i
    → insert_from segs place t ≡ (t, some i)
insert_from-known [] place t i e =
    insert_from-nil t place ∙ ap (λ n. (t, n)) (sym (find_from-nil t place) ∙ e)
insert_from-known (seg ∷ segs) place t i e =
    elim (Option-cases (find_child t (children_of t place) seg)) [
      | inl p ↦ absurd (ground (arith, find_from-missing t seg segs place p))
      | inr (j, p) ↦
          insert_from-found t seg segs place j p
          ∙ insert_from-known segs (some j) t i (sym (find_from-found t seg segs place j p) ∙ e)
    ]

-- Inserting a topic that the tree holds changes nothing and returns its node.
pub topic_tree_insert-known :
    (t : TopicTree) (topic : Bytes) (i : ℕ)
    → topic_tree_find t topic ≡ some i
    → topic_tree_insert t topic ≡ (t, some i)
unfolding topic_tree_insert topic_tree_find
topic_tree_insert-known t topic i e = insert_from-known (segments topic) none t i e
