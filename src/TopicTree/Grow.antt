-- ===== src/TopicTree/Grow.antt =====
-- One new node of the topic tree, and the child slot that points to it.
use mqtt_viewer.Base.{
  ℕ, zero, suc, ◌<◌, true, List, [], ◌∷◌, ◌++◌, Option, none, some, ◌≡◌, ◌≢◌, refl, sym, ap, ◌∙◌,
  arith, length, length-append, length-set, get_or, set, get_or-set_self, get_or-set_ne, ltb, Bytes,
}
use native.Mathlib.Decide.{ℕ_discrete}
use mqtt_viewer.Util.{truncated}
use mqtt_viewer.Ring.{add32}
use mqtt_viewer.TopicTree.{TopicNode, TopicTree, blank, node_at, children_of, node_new, add_child}
use mqtt_viewer.TopicTree.Extends.{InTree}

module _ {A : Type 0} where
  pub get_or-append_left :
      (xs ys : List A) (i : ℕ) (d : A) → i < length xs → get_or (xs ++ ys) i d ≡ get_or xs i d
  get_or-append_left [] ys i d h = absurd (omega arith)
  get_or-append_left (x ∷ xs) ys zero d h = refl
  get_or-append_left (x ∷ xs) ys (suc i) d h = get_or-append_left xs ys i d (omega arith)

  pub get_or-append_here : (xs : List A) (y d : A) → get_or (xs ++ (y ∷ [])) (length xs) d ≡ y
  get_or-append_here [] y d = refl
  get_or-append_here (x ∷ xs) y d = get_or-append_here xs y d

-- What `node_new` and `add_child` do together where there is a free slot.
pub record Grown (t : TopicTree) (seg : Bytes) (place : Option ℕ) (t' : TopicTree) : Type 0 where
  pub size : length t'.nodes ≡ suc (length t.nodes)
  pub here : children_of t' place ≡ children_of t place ++ (length t.nodes ∷ [])
  pub other : (q : Option ℕ) → InTree t q → q ≢ place → children_of t' q ≡ children_of t q
  pub new : children_of t' (some (length t.nodes)) ≡ []
  pub segs : (i : ℕ) → i < length t.nodes → (node_at t' i).segment ≡ (node_at t i).segment
  pub new_seg : (node_at t' (length t.nodes)).segment ≡ truncated 128 seg

abbrev made : Bytes → Option ℕ → TopicNode
made seg place = record blank { segment = truncated 128 seg; parent = place }

pub free_root :
    (t : TopicTree) (seg : Bytes)
    → length t.roots < 64
    → Grown t seg none (add_child (node_new t seg none) none (length t.nodes))
unfolding node_new add_child
free_root t seg h = rw (room) (record {
  size = omega (arith, length-append t.nodes (made seg none ∷ []));
  here = refl;
  other = other;
  new = ap (λ n. n.children) (get_or-append_here t.nodes (made seg none) blank);
  segs = λ i k. ap (λ n. n.segment) (get_or-append_left t.nodes (made seg none ∷ []) i blank k);
  new_seg = ap (λ n. n.segment) (get_or-append_here t.nodes (made seg none) blank);
})
  where
    room : ltb (length t.roots) 64 ≡ true
    room = ground arith

    other :
        (q : Option ℕ)
        → InTree t q
        → q ≢ none
        → children_of
            (record t {
              nodes = t.nodes ++ (made seg none ∷ []);
              roots = t.roots ++ (length t.nodes ∷ []);
              total_count = add32 t.total_count 1;
            })
            q
          ≡ children_of t q
    other none k ne = absurd (ne refl)
    other (some i) k ne =
        ap (λ n. n.children) (get_or-append_left t.nodes (made seg none ∷ []) i blank k)

module _ (t : TopicTree) (seg : Bytes) (p : ℕ) (h : p < length t.nodes) where
  abbrev longer : List TopicNode
  longer = t.nodes ++ (made seg (some p) ∷ [])

  abbrev at_p : TopicNode
  at_p = get_or longer p blank

  abbrev linked : TopicNode
  linked = record at_p { children = at_p.children ++ (length t.nodes ∷ []) }

  at_p-old : at_p ≡ node_at t p
  at_p-old = get_or-append_left t.nodes (made seg (some p) ∷ []) p blank h

  p-longer : p < length longer
  p-longer = omega (arith, length-append t.nodes (made seg (some p) ∷ []), h)

  at_self : get_or (set longer p linked) p blank ≡ linked
  at_self = get_or-set_self longer p linked blank p-longer

  at_other :
      (i : ℕ) → i < length t.nodes → i ≢ p → get_or (set longer p linked) i blank ≡ node_at t i
  at_other i k ne =
      get_or-set_ne longer linked blank (λ e. ne (sym e))
      ∙ get_or-append_left t.nodes (made seg (some p) ∷ []) i blank k

  at_new : get_or (set longer p linked) (length t.nodes) blank ≡ made seg (some p)
  at_new =
      get_or-set_ne longer linked blank (omega arith)
      ∙ get_or-append_here t.nodes (made seg (some p)) blank

  segs_same :
      (i : ℕ)
      → i < length t.nodes
      → (get_or (set longer p linked) i blank).segment ≡ (node_at t i).segment
  segs_same i k = elim (ℕ_discrete i p) [
    | yes e ↦ rw e (ap (λ n. n.segment) at_self ∙ ap (λ n. n.segment) at_p-old)
    | no ne ↦ ap (λ n. n.segment) (at_other i k ne)
  ]

  pub free_child :
      length (node_at t p).children < 64
      → Grown t seg (some p) (add_child (node_new t seg (some p)) (some p) (length t.nodes))
  unfolding node_new add_child
  free_child few = rw (room) (record {
    size =
        omega (arith, length-append t.nodes (made seg (some p) ∷ []), length-set longer p linked);
    here = ap (λ n. n.children) at_self ∙ ap (λ n. n.children ++ (length t.nodes ∷ [])) at_p-old;
    other = other;
    new = ap (λ n. n.children) at_new;
    segs = segs_same;
    new_seg = ap (λ n. n.segment) at_new;
  })
    where
      room : ltb (length at_p.children) 64 ≡ true
      room = ground (arith, at_p-old)

      other :
          (q : Option ℕ)
          → InTree t q
          → q ≢ some p
          → children_of
              (record t { nodes = set longer p linked; total_count = add32 t.total_count 1 })
              q
            ≡ children_of t q
      other none k ne = refl
      other (some i) k ne = ap (λ n. n.children) (at_other i k (λ e. ne (ap some e)))

-- The same below any place with a free slot.
pub free_slot :
    (t : TopicTree) (seg : Bytes) (place : Option ℕ)
    → InTree t place
    → length (children_of t place) < 64
    → Grown t seg place (add_child (node_new t seg place) place (length t.nodes))
free_slot t seg none h few = free_root t seg few
free_slot t seg (some p) h few = free_child t seg p h few
