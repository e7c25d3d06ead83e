-- ===== src/Ring/Sort/Sorts.antt =====
-- `mergeSortByWeight` of pkg/list/doubly_linked.go on a chain that ends in nil.
use mathlib.Core.Path.{subst}
use advinced_cache.Prelude.{
  ℕ, zero, suc, ◌+◌, ◌≤◌, ◌≡◌, ◌≢◌, refl, sym, ◌∙◌, true, false, Option, none, some, List, [], ◌∷◌,
  length, arith, Bool-cases, inl, inr,
}
use advinced_cache.Ring.Links.{Avoids, Apart, All-map}
use advinced_cache.Ring.Sort.{
  Order, precedes, Chains, merge_behind, merge_by_weight, split_half, merge_sort,
}
use advinced_cache.Ring.Sort.Lists.{
  cut_half, Disjoint, Disjoint-sym, merge_lists, sort_list, All-merge_lists, merge_lists_first,
  merge_lists_second, cut_half-more, cut_half-first,
}
use advinced_cache.Ring.Sort.Ordered.{
  halves_short, All-halves, Apart-halves, All-sort_list, Disjoint-sort_list, Apart-sort_list,
  length-sort_list,
}
use advinced_cache.Ring.Sort.Splits.{Chain, Chain-agree, split_half-Chain, split_half-frame}
use advinced_cache.Ring.Sort.Merges.{merge_behind-Follows}

-- The result is the chain of `ys`, and outside `xs` the links are the old ones.
abbrev pub Leaves : List ℕ → List ℕ → Chains → Chains × Option ℕ → Type 0
Leaves ys xs c r = Chain r.0.next r.1 ys × ((e : ℕ) → Avoids e xs → r.0.next e ≡ c.next e)

-- A chain beside changed links.
Chain-beside :
    (ys xs : List ℕ) (c c' : Chains) (p : Option ℕ)
    → Disjoint ys xs
    → ((e : ℕ) → Avoids e xs → c'.next e ≡ c.next e)
    → Chain c.next p ys
    → Chain c'.next p ys
Chain-beside ys xs c c' p d same h =
    Chain-agree c.next c'.next p ys
      (All-map (λ e. Avoids e xs) (λ e. c'.next e ≡ c.next e) ys same d) h

module _ (weight : ℕ → ℕ) (ord : Order) where
  head_first :
      (n x y : ℕ) (c : Chains)
      → precedes ord (weight x) (weight y) ≡ true
      → merge_by_weight weight ord n (some x) (some y) c
        ≡ (merge_behind weight ord n x (c.next x) (some y) c, some x)
  unfolding merge_by_weight
  head_first n x y c e = rw (e, merge_by_weight) refl

  head_second :
      (n x y : ℕ) (c : Chains)
      → precedes ord (weight x) (weight y) ≡ false
      → merge_by_weight weight ord n (some x) (some y) c
        ≡ (merge_behind weight ord n y (some x) (c.next y) c, some y)
  unfolding merge_by_weight
  head_second n x y c e = rw (e, merge_by_weight) refl

  merge_by_weight-Leaves :
      (n : ℕ) (a b : Option ℕ) (c : Chains) (xs ys : List ℕ)
      → Chain c.next a xs
      → Chain c.next b ys
      → Apart xs
      → Apart ys
      → Disjoint xs ys
      → 1 ≤ length xs
      → 1 ≤ length ys
      → length xs + length ys ≤ suc n
      → let merged = merge_lists weight ord xs ys in
        Leaves merged merged c (merge_by_weight weight ord n a b c)
  merge_by_weight-Leaves n a b c [] ys ha hb ax ay d px py small = absurd (omega arith)
  merge_by_weight-Leaves n a b c (x ∷ xs) [] ha hb ax ay d px py small = absurd (omega arith)
  merge_by_weight-Leaves n a b c (x ∷ xs) (y ∷ ys) ha hb ax ay d px py small =
      let merged = merge_lists weight ord (x ∷ xs) (y ∷ ys) in
      let e = Disjoint-sym (x ∷ xs) (y ∷ ys) d in
      subst (λ p. Leaves merged merged c (merge_by_weight weight ord n p b c)) (sym ha.0)
        (subst (λ p. Leaves merged merged c (merge_by_weight weight ord n (some x) p c)) (sym hb.0)
          (elim (Bool-cases (precedes ord (weight x) (weight y))) [
            | inl p ↦
                let more = merge_lists weight ord xs (y ∷ ys) in
                let done =
                  merge_behind-Follows weight ord n x (c.next x) (some y) c xs (y ∷ ys) ha.1
                    (refl, hb.1) ax (d.0, ay) d.1 (omega arith) (omega arith) in
                subst (λ l. Leaves l l c (merge_by_weight weight ord n (some x) (some y) c))
                  (sym (merge_lists_first weight ord x y xs ys p))
                  (subst (λ r. Leaves (x ∷ more) (x ∷ more) c r) (sym (head_first n x y c p))
                    ((refl, done.0), done.1))
            | inr p ↦
                let more = merge_lists weight ord (x ∷ xs) ys in
                let done =
                  merge_behind-Follows weight ord n y (some x) (c.next y) c (x ∷ xs) ys (refl, ha.1)
                    hb.1 (e.0, ax) ay (Disjoint-sym ys (x ∷ xs) e.1) (omega arith) (omega arith) in
                subst (λ l. Leaves l l c (merge_by_weight weight ord n (some x) (some y) c))
                  (sym (merge_lists_second weight ord x y xs ys p))
                  (subst (λ r. Leaves (y ∷ more) (y ∷ more) c r) (sym (head_second n x y c p))
                    ((refl, done.0), done.1))
          ]))

  one_left :
      (n x : ℕ) (c : Chains)
      → c.next x ≡ none
      → merge_sort weight ord (suc n) (some x) c ≡ (c, some x)
  unfolding merge_sort
  one_left n x c e = rw (e, merge_sort) refl

  -- The two halves sorted one after the other and merged.
  abbrev both_halves : ℕ → Chains × Option ℕ → ℕ → Chains × Option ℕ
  both_halves n s x =
      let l = merge_sort weight ord n s.1 s.0 in
      let r = merge_sort weight ord n (some x) l.0 in merge_by_weight weight ord n l.1 r.1 r.0

  more_left :
      (n x y : ℕ) (c : Chains)
      → c.next x ≡ some y
      → merge_sort weight ord (suc n) (some x) c ≡ both_halves n (split_half (suc n) x c) x
  unfolding merge_sort
  more_left n x y c e = rw (e, merge_sort) refl

  abbrev Sorts : ℕ → Type 0
  Sorts n =
      (p : Option ℕ) (c : Chains) (xs : List ℕ)
      → Chain c.next p xs
      → Apart xs
      → length xs ≤ n
      → Leaves (sort_list weight ord n xs) xs c (merge_sort weight ord n p c)

  both_halves-Leaves :
      (n x : ℕ) (s : Chains × Option ℕ) (first second : List ℕ)
      → Sorts n
      → Chain s.0.next (some x) first
      → Chain s.0.next s.1 second
      → Apart first
      → Apart second
      → Disjoint first second
      → 1 ≤ length first
      → 1 ≤ length second
      → length first ≤ n
      → length second ≤ n
      → length first + length second ≤ suc n
      → let merged =
          merge_lists weight ord (sort_list weight ord n second) (sort_list weight ord n first) in
        Chain (both_halves n s x).0.next (both_halves n s x).1 merged
        × ((e : ℕ) → Avoids e first → Avoids e second → (both_halves n s x).0.next e ≡ s.0.next e)
  both_halves-Leaves n x s first second sorts hf hs af az d pf ps lf ls small =
      let l = merge_sort weight ord n s.1 s.0 in
      let r = merge_sort weight ord n (some x) l.0 in
      let ys = sort_list weight ord n second in
      let zs = sort_list weight ord n first in
      let on_left = sorts s.1 s.0 second hs az ls in
      let on_right =
        sorts (some x) l.0 first (Chain-beside first second s.0 l.0 (some x) d on_left.1 hf) af
          lf in
      let out = Disjoint-sym first second d in
      let still =
        Chain-beside ys first l.0 r.0 l.1
          (All-sort_list weight ord (λ e. Avoids e first) n second out) on_right.1 on_left.0 in
      let length_ys = length-sort_list weight ord n second in
      let length_zs = length-sort_list weight ord n first in
      let done =
        merge_by_weight-Leaves n l.1 r.1 r.0 ys zs still on_right.0
          (Apart-sort_list weight ord n second az) (Apart-sort_list weight ord n first af)
          (Disjoint-sort_list weight ord n second first out) (omega arith) (omega arith)
          (omega arith) in
      (
        done.0,
        λ e beside_first beside_second.
            done.1 e (
              All-merge_lists weight ord (λ z. e ≢ z) ys zs
                (All-sort_list weight ord (λ z. e ≢ z) n second beside_second)
                (All-sort_list weight ord (λ z. e ≢ z) n first beside_first))
            ∙ on_right.1 e beside_first
            ∙ on_left.1 e beside_second,
      )

  pub merge_sort-Leaves : (n : ℕ) → Sorts n
  unfolding merge_sort sort_list
  merge_sort-Leaves zero p c [] h out small = (h, λ e away. refl)
  merge_sort-Leaves zero p c (x ∷ xs) h out small = absurd (omega arith)
  merge_sort-Leaves (suc n) p c [] h out small =
      subst (λ q. Leaves [] [] c (merge_sort weight ord (suc n) q c)) (sym h) (refl, λ e away. refl)
  merge_sort-Leaves (suc n) p c (x ∷ []) h out small =
      subst (λ q. Leaves (x ∷ []) (x ∷ []) c (merge_sort weight ord (suc n) q c)) (sym h.0)
        (subst (λ r. Leaves (x ∷ []) (x ∷ []) c r) (sym (one_left n x c h.1))
          ((refl, h.1), λ e away. refl))
  merge_sort-Leaves (suc n) p c (x ∷ y ∷ xs) h out small =
      let s = split_half (suc n) x c in
      let halves = cut_half x (y ∷ xs) (y ∷ xs) in
      let short = halves_short n x y xs small in
      let apart = Apart-halves x (y ∷ xs) (y ∷ xs) out in
      let chains = split_half-Chain c n x (y ∷ xs) (refl, h.1) out (omega arith) in
      let done =
        both_halves-Leaves n x s halves.0 halves.1 (merge_sort-Leaves n) chains.0 chains.1 apart.0
          apart.1 apart.2 (cut_half-first x (y ∷ xs) (y ∷ xs))
          (cut_half-more x y xs (y ∷ xs) (omega arith)) short.0 short.1 short.2 in
      subst
        (λ q.
          Leaves (sort_list weight ord (suc n) (x ∷ y ∷ xs)) (x ∷ y ∷ xs) c
            (merge_sort weight ord (suc n) q c))
        (sym h.0)
        (subst (λ r. Leaves (sort_list weight ord (suc n) (x ∷ y ∷ xs)) (x ∷ y ∷ xs) c r)
          (sym (more_left n x y c h.1.0))
          (
            done.0,
            λ e away.
                let parts = All-halves (λ z. e ≢ z) x (y ∷ xs) (y ∷ xs) away in
                done.1 e parts.0 parts.1
                ∙ split_half-frame c n x e (y ∷ xs) (refl, h.1) out (omega arith) away,
          ))
