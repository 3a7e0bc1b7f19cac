-- ===== src/TopicTree/Insert.antt =====
-- Inserting a topic, and finding it again.
use mqtt_viewer.Base.{
  ℕ, ◌≤◌, ◌<◌, List, [], ◌∷◌, ◌++◌, append-nil, Option, none, some, ◌≡◌, ◌≢◌, refl, sym, ap, ◌∙◌,
  ◌⊎◌, inl, inr, arith, length, Bytes, str_eq_iff, All-append, take_all,
}
use native.Mathlib.Decide.{ℕ_discrete}
use mqtt_viewer.TopicTree.{
  TopicTree, node_at, children_of, node_new, find_child, add_child, insert_from,
}
use mqtt_viewer.TopicTree.Extends.{InTree, AllIn, IsValid, Extends}
use mqtt_viewer.TopicTree.Grow.{Grown}

-- A place is the given one, or another one.
place-cases : (q place : Option ℕ) → (q ≡ place) ⊎ (q ≢ place)
place-cases none none = inl refl
place-cases none (some p) = inr (λ e. absurd (ground arith))
place-cases (some i) none = inr (λ e. absurd (ground arith))
place-cases (some i) (some p) = elim (ℕ_discrete i p) [
  | yes e ↦ inl (ap some e)
  | no ne ↦ inr (λ e. ne (ground arith))
]

AllIn-grown :
    (t t' : TopicTree) (is : List ℕ) → length t.nodes ≤ length t'.nodes → AllIn t is → AllIn t' is
AllIn-grown t t' [] h a = tt
AllIn-grown t t' (i ∷ is) h a = (omega (arith, a.0, h), AllIn-grown t t' is h a.1)

module _ {t t' : TopicTree} {seg : Bytes} {place : Option ℕ} (v : IsValid t) (h : InTree t place)
    (g : Grown t seg place t') where
  le : length t.nodes ≤ length t'.nodes
  le = omega (arith, g.size)

  pub Grown-Extends : Extends t t'
  Grown-Extends = record {
    grown = le;
    same = g.segs;
    kept = λ q k. elim (place-cases q place) [
      | inl e ↦ (length t.nodes ∷ [], rw e g.here)
      | inr ne ↦ ([], g.other q k ne ∙ sym (append-nil (children_of t q)))
    ];
  }

  old_place : (q : Option ℕ) → InTree t q → AllIn t' (children_of t' q)
  old_place q k = elim (place-cases q place) [
    | inl e ↦
        rw (e, g.here)
          (All-append (λ i. i < length t'.nodes) (children_of t place) (length t.nodes ∷ [])
            (AllIn-grown t t' (children_of t place) le (v place h)) (omega (arith, g.size), tt))
    | inr ne ↦ rw (g.other q k ne) (AllIn-grown t t' (children_of t q) le (v q k))
  ]

  pub Grown-IsValid : IsValid t'
  Grown-IsValid none k = old_place none tt
  Grown-IsValid (some i) k = elim (ℕ_discrete i (length t.nodes)) [
    | yes e ↦ rw (e, g.new) tt
    | no ne ↦ old_place (some i) (omega (arith, g.size, k))
  ]

-- A child that is behind those looked at is found where none of them is.
find_child-append :
    (t : TopicTree) (is : List ℕ) (seg : Bytes) (i : ℕ)
    → find_child t is seg ≡ none
    → (node_at t i).segment ≡ seg
    → find_child t (is ++ (i ∷ [])) seg ≡ some i
unfolding find_child
find_child-append t [] seg i h e = ground (arith, (str_eq_iff (node_at t i).segment seg).1)
find_child-append t (j ∷ is) seg i h e = ground (arith, find_child-append t is seg i)

find_child-same :
    (t t' : TopicTree) (is : List ℕ) (seg : Bytes)
    → AllIn t is
    → ((i : ℕ) → i < length t.nodes → (node_at t' i).segment ≡ (node_at t i).segment)
    → find_child t' is seg ≡ find_child t is seg
unfolding find_child
find_child-same t t' [] seg a h = refl
find_child-same t t' (j ∷ is) seg a h = rw (h j a.0, find_child-same t t' is seg a.1 h)

pub find_child-Grown :
    {t t' : TopicTree} {seg : Bytes} {place : Option ℕ}
    → IsValid t
    → InTree t place
    → Grown t seg place t'
    → length seg ≤ 127
    → find_child t (children_of t place) seg ≡ none
    → find_child t' (children_of t' place) seg ≡ some (length t.nodes)
find_child-Grown {t} {t'} {seg} {place} v h g short e =
    ap (λ is. find_child t' is seg) g.here
    ∙ find_child-append t' (children_of t place) seg (length t.nodes)
        (find_child-same t t' (children_of t place) seg (v place h) g.segs ∙ e)
        (g.new_seg ∙ take_all 127 seg short)

-- One round of the loop of `topic_tree_insert`.
module _ (t : TopicTree) (seg : Bytes) (segs : List Bytes) (place : Option ℕ) where
  pub insert_from-found :
      (i : ℕ)
      → find_child t (children_of t place) seg ≡ some i
      → insert_from (seg ∷ segs) place t ≡ insert_from segs (some i) t
  unfolding insert_from
  insert_from-found i e = ground arith

  pub insert_from-full :
      find_child t (children_of t place) seg ≡ none
      → 64 ≤ length (children_of t place)
      → insert_from (seg ∷ segs) place t ≡ (t, none)
  unfolding insert_from
  insert_from-full e h = ground arith

  pub insert_from-new :
      find_child t (children_of t place) seg ≡ none
      → length (children_of t place) < 64
      → insert_from (seg ∷ segs) place t
        ≡ insert_from segs
            (some (length t.nodes))
            (add_child (node_new t seg place) place (length t.nodes))
  unfolding insert_from
  insert_from-new e h = ground arith

pub insert_from-nil : (t : TopicTree) (place : Option ℕ) → insert_from [] place t ≡ (t, place)
unfolding insert_from
insert_from-nil t place = refl
