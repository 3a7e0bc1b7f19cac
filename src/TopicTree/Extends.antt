-- ===== src/TopicTree/Extends.antt =====
-- How the topic tree grows: nodes and child slots are only added, at the end.
use mqtt_viewer.Base.{
  ℕ, ◌≤◌, ◌<◌, List, [], ◌∷◌, ◌++◌, append-nil, append_assoc, Option, none, some, ◌≡◌, refl, sym,
  ap, ◌∙◌, inl, inr, arith, length, Option-cases, Bytes, All,
}
use mqtt_viewer.TopicTree.{TopicTree, node_at, children_of, find_child, find_from}

-- A node of the tree, or the place above the roots.
abbrev pub InTree : TopicTree → Option ℕ → Type 0
InTree t none = Unit {0}
InTree t (some i) = i < length t.nodes

abbrev pub AllIn : TopicTree → List ℕ → Type 0
AllIn t is = All (λ i. i < length t.nodes) is

-- Every child slot holds a node.
abbrev pub IsValid : TopicTree → Type 0
IsValid t = (place : Option ℕ) → InTree t place → AllIn t (children_of t place)

pub record Extends (t t' : TopicTree) : Type 0 where
  pub grown : length t.nodes ≤ length t'.nodes
  pub same : (i : ℕ) → i < length t.nodes → (node_at t' i).segment ≡ (node_at t i).segment
  pub kept :
      (place : Option ℕ)
      → InTree t place
      → (more : List ℕ) × (children_of t' place ≡ children_of t place ++ more)

pub Extends-refl : (t : TopicTree) → Extends t t
Extends-refl t = record {
  grown = omega arith;
  same = λ i h. refl;
  kept = λ place h. ([], sym (append-nil (children_of t place)));
}

pub InTree-grown :
    {t t' : TopicTree} (place : Option ℕ) → Extends t t' → InTree t place → InTree t' place
InTree-grown none e h = tt
InTree-grown (some i) e h = omega (arith, e.grown)

pub Extends-trans : {t u v : TopicTree} → Extends t u → Extends u v → Extends t v
Extends-trans {t} {u} {v} e f = record {
  grown = omega (arith, e.grown, f.grown);
  same = λ i h. f.same i (omega (arith, e.grown)) ∙ e.same i h;
  kept = λ place h.
      let (xs, p) = e.kept place h in
      let (ys, q) = f.kept place (InTree-grown place e h) in
      (xs ++ ys, q ∙ ap (λ l. l ++ ys) p ∙ append_assoc (children_of t place) xs ys);
}

-- A child that is found is one of the slots.
pub find_child-All :
    (P : ℕ → Type 0) (t : TopicTree) (is : List ℕ) (seg : Bytes) (i : ℕ)
    → All P is
    → find_child t is seg ≡ some i
    → P i
unfolding find_child
find_child-All P t [] seg i h e = absurd (ground arith)
find_child-All P t (j ∷ is) seg i h e = ground (arith, find_child-All P t is seg i h.1)

-- A child that is found stays found.
pub find_child-Extends :
    {t t' : TopicTree} (is more : List ℕ) (seg : Bytes) (i : ℕ)
    → Extends t t'
    → AllIn t is
    → find_child t is seg ≡ some i
    → find_child t' (is ++ more) seg ≡ some i
unfolding find_child
find_child-Extends [] more seg i x h e = absurd (ground arith)
find_child-Extends (j ∷ is) more seg i x h e =
    ground (arith, x.same j h.0, find_child-Extends is more seg i x h.1)

pub find_child-step :
    {t t' : TopicTree} (place : Option ℕ) (seg : Bytes) (i : ℕ)
    → IsValid t
    → InTree t place
    → Extends t t'
    → find_child t (children_of t place) seg ≡ some i
    → find_child t' (children_of t' place) seg ≡ some i
find_child-step {t} {t'} place seg i v h x e =
    let (more, p) = x.kept place h in
    ap (λ is. find_child t' is seg) p
    ∙ find_child-Extends (children_of t place) more seg i x (v place h) e

pub find_from-nil : (t : TopicTree) (place : Option ℕ) → find_from t [] place ≡ place
unfolding find_from
find_from-nil t place = refl

-- One round of the loop of `topic_tree_find`.
pub find_from-found :
    (t : TopicTree) (seg : Bytes) (segs : List Bytes) (place : Option ℕ) (j : ℕ)
    → find_child t (children_of t place) seg ≡ some j
    → find_from t (seg ∷ segs) place ≡ find_from t segs (some j)
unfolding find_from
find_from-found t seg segs place j e = ground arith

pub find_from-missing :
    (t : TopicTree) (seg : Bytes) (segs : List Bytes) (place : Option ℕ)
    → find_child t (children_of t place) seg ≡ none
    → find_from t (seg ∷ segs) place ≡ none
unfolding find_from
find_from-missing t seg segs place e = ground arith

-- What `topic_tree_find` finds, it still finds after the tree has grown.
pub find_from-Extends :
    {t t' : TopicTree} (segs : List Bytes) (place : Option ℕ) (i : ℕ)
    → IsValid t
    → InTree t place
    → Extends t t'
    → find_from t segs place ≡ some i
    → find_from t' segs place ≡ some i
find_from-Extends {t} {t'} [] place i v h x e =
    find_from-nil t' place ∙ sym (find_from-nil t place) ∙ e
find_from-Extends {t} {t'} (seg ∷ segs) place i v h x e =
    elim (Option-cases (find_child t (children_of t place) seg)) [
      | inl p ↦ absurd (ground (arith, find_from-missing t seg segs place p))
      | inr (j, p) ↦
          find_from-found t' seg segs place j (find_child-step place seg j v h x p)
          ∙ find_from-Extends segs (some j) i v
              (find_child-All (λ k. k < length t.nodes) t (children_of t place) seg j (v place h) p)
              x (sym (find_from-found t seg segs place j p) ∙ e)
    ]
