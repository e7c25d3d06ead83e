-- ===== src/Balance/Ranked.antt =====
-- `Rebalance`, `Register` and `MostLoaded` of pkg/storage/lru/balancer.go on a list of shards.
use mathlib.Core.List.Perm
use mathlib.Core.List.{Perm, map-append}
use mathlib.Core.Path.{subst, ap₂}
use advinced_cache.Prelude.{
  ℕ, zero, suc, ◌≡◌, refl, ap, sym, ◌∙◌, Option, none, some, List, [], ◌∷◌, ◌++◌, arith, get_elem?,
  map, Option-cases, inl, inr,
}
use advinced_cache.Ring.{assign, new_element, push_back}
use advinced_cache.Ring.Links.{
  All, Avoids, IsRing, All-snoc, fresh-Avoids, assign_self, assign_other,
}
use advinced_cache.Ring.Laws.{next_at-IsRing, push_back-IsRing}
use advinced_cache.Ring.Sort.{Order, desc}
use advinced_cache.Ring.Sort.Lists.{sort_list}
use advinced_cache.Ring.Sort.Ordered.{
  IsHead, IsOrdered, All-sort_list, sort_list-perm, sort_list-IsOrdered,
}
use advinced_cache.Ring.Sort.Closing.{sort_list-IsRing, value-sort}
use advinced_cache.Balance.{Balance, node_at, node_weight, register, rebalance, most_loaded}

abbrev IsNode : Balance → ℕ → Type 0
IsNode b el = b.mem_list.value el ≡ some (node_at b el)

-- The list holds the shards `ids`, front to back.
pub record IsBalance (b : Balance) (ids : List ℕ) : Type 0 where
  pub elements : List ℕ
  pub ring : IsRing b.mem_list elements
  pub nodes : All (IsNode b) elements
  pub shards : map (node_at b) elements ≡ ids

module _ (weight : ℕ → ℕ) (f : ℕ → ℕ) (ord : Order) where
  IsHead-map :
      (x : ℕ) (xs : List ℕ)
      → IsHead (λ e. weight (f e)) ord x xs
      → IsHead weight ord (f x) (map f xs)
  IsHead-map x [] h = tt
  IsHead-map x (y ∷ ys) h = (h.0, IsHead-map x ys h.1)

  map-IsOrdered :
      (xs : List ℕ) → IsOrdered (λ e. weight (f e)) ord xs → IsOrdered weight ord (map f xs)
  map-IsOrdered [] h = tt
  map-IsOrdered (x ∷ xs) h = (IsHead-map x xs h.0, map-IsOrdered xs h.1)

get_elem?-map :
    {A B : Type 0} (f : A → B) (xs : List A) (i : ℕ)
    → get_elem? (map f xs) i ≡ elim (get_elem? xs i) [ none ↦ none | some x ↦ some (f x) ]
get_elem?-map f [] i = refl
get_elem?-map f (x ∷ xs) zero = refl
get_elem?-map f (x ∷ xs) (suc i) = get_elem?-map f xs i

All-get_elem? : (P : ℕ → Type 0) (xs : List ℕ) (i x : ℕ) → All P xs → get_elem? xs i ≡ some x → P x
All-get_elem? P [] i x h e = absurd (ground arith)
All-get_elem? P (y ∷ xs) zero x h e = subst P (ground arith) h.0
All-get_elem? P (y ∷ xs) (suc i) x h e = All-get_elem? P xs i x h.1 e

-- `MostLoaded` of an offset is the shard at that place of the list, and none past its end.
pub most_loaded-IsBalance :
    (b : Balance) (ids : List ℕ) (offset : ℕ)
    → IsBalance b ids
    → most_loaded offset b ≡ get_elem? ids offset
unfolding most_loaded
most_loaded-IsBalance b ids offset h =
    let there = next_at-IsRing b.mem_list h.elements offset h.ring in
    let listed =
      ap (λ l. get_elem? l offset) (sym h.shards) ∙ get_elem?-map (node_at b) h.elements offset in
    elim (Option-cases (get_elem? h.elements offset)) [
      | inl e ↦ rw (there, listed, e, most_loaded) refl
      | inr (el, e) ↦
          rw (there, listed, e, most_loaded)
            (All-get_elem? (IsNode b) h.elements offset el h.nodes e)
    ]

-- An element that is not new keeps its shard.
abbrev shard_of_value : Option ℕ → ℕ
shard_of_value v = elim v [ none ↦ 0 | some i ↦ i ]

nodes_kept :
    (value : ℕ → Option ℕ) (e : ℕ) (v : Option ℕ) (xs : List ℕ)
    → Avoids e xs
    → All (λ x. value x ≡ some (shard_of_value (value x))) xs
    → All (λ x. assign e v value x ≡ some (shard_of_value (assign e v value x))) xs
      × (map (λ x. shard_of_value (assign e v value x)) xs ≡ map (λ x. shard_of_value (value x)) xs)
nodes_kept value e v [] out h = (tt, refl)
nodes_kept value e v (x ∷ xs) out h =
    let same = assign_other e x v value out.0 in
    let rest = nodes_kept value e v xs out.1 h.1 in
    (
      (subst (λ w. w ≡ some (shard_of_value w)) (sym same) h.0, rest.0),
      ap₂ (◌∷◌) (ap shard_of_value same) rest.1,
    )

-- `Register` puts the shard behind the others.
pub register-IsBalance :
    (b : Balance) (ids : List ℕ) (i : ℕ)
    → IsBalance b ids
    → IsBalance (register i b) (ids ++ i ∷ [])
unfolding register push_back new_element
register-IsBalance b ids i h =
    let l = b.mem_list in
    let kept =
      nodes_kept l.value l.fresh (some i) h.elements (fresh-Avoids l.fresh h.elements h.ring.given)
        h.nodes in
    let new = assign_self l.fresh (some i) l.value in
    record {
      elements = h.elements ++ l.fresh ∷ [];
      ring = (push_back-IsRing i l h.elements h.ring).0;
      nodes =
          All-snoc (IsNode (register i b)) h.elements l.fresh kept.0
            (new ∙ ap some (sym (ap shard_of_value new)));
      shards =
          map-append (node_at (register i b)) h.elements (l.fresh ∷ [])
          ∙ ap₂ (◌++◌) (kept.1 ∙ h.shards) (ap (λ j. j ∷ []) (ap shard_of_value new));
    }

-- `Rebalance` keeps every registered shard, each once, and orders them by weight, the heaviest first.
pub rebalance-IsBalance :
    (weights : ℕ → ℕ) (b : Balance) (ids : List ℕ)
    → IsBalance b ids
    → (ids' : List ℕ) × IsBalance (rebalance weights b) ids'
      × Perm ids' ids
      × IsOrdered weights desc ids'
unfolding rebalance
rebalance-IsBalance weights b ids h =
    let l = b.mem_list in
    let weight = node_weight weights b in
    let els = sort_list weight desc l.len h.elements in
    let values = value-sort weight desc l in
    let counted = h.ring.counted in
    let ordered = sort_list-IsOrdered weight desc l.len h.elements (omega arith) in
    let same = Perm.map (node_at b) (sort_list-perm weight desc l.len h.elements) in
    (
      map (node_at b) els,
      record {
        elements = els;
        ring = sort_list-IsRing weight desc l h.elements h.ring;
        nodes =
            subst (λ v. All (λ x. v x ≡ some (shard_of_value (v x))) els) (sym values)
              (All-sort_list weight desc (IsNode b) l.len h.elements h.nodes);
        shards = ap (λ v. map (λ x. shard_of_value (v x)) els) values;
      },
      subst (Perm (map (node_at b) els)) h.shards same,
      map-IsOrdered weights (node_at b) desc els ordered,
    )
