-- ===== src/Ring/Sort/Merges.antt =====
-- `mergeByWeight` and `mergeSortByWeight` of pkg/list/doubly_linked.go on chains that end in nil.
use mathlib.Core.Path.{subst}
use advinced_cache.Prelude.{
  ℕ, zero, suc, ◌+◌, ◌≤◌, ◌≡◌, ◌≢◌, refl, sym, ◌∙◌, true, false, Option, none, some, List, [], ◌∷◌,
  length, arith, Bool-cases, inl, inr,
}
use advinced_cache.Ring.{assign}
use advinced_cache.Ring.Links.{Avoids, Apart, assign_self, assign_other}
use advinced_cache.Ring.Sort.{Order, precedes, Chains, join, append_rest, merge_behind}
use advinced_cache.Ring.Sort.Lists.{
  Disjoint, Disjoint-sym, merge_lists, All-merge_lists, Apart-merge_lists, merge_lists_first,
  merge_lists_second,
}
use advinced_cache.Ring.Sort.Splits.{Chain, Chain-assign}

next-join : (t x : ℕ) (c : Chains) → (join t x c).next ≡ assign t (some x) c.next
unfolding join
next-join t x c = refl

-- From `t` the links run through `xs`, and elsewhere they are the old ones.
abbrev pub Follows : ℕ → List ℕ → Chains → Chains → Type 0
Follows t xs c c' =
    Chain c'.next (c'.next t) xs × ((e : ℕ) → Avoids e (t ∷ xs) → c'.next e ≡ c.next e)

join-Follows :
    (t x : ℕ) (xs : List ℕ) (c c' : Chains)
    → Apart (t ∷ x ∷ xs)
    → Follows x xs (join t x c) c'
    → Follows t (x ∷ xs) c c'
unfolding join
join-Follows t x xs c c' out h = (
  (h.1 t out.0 ∙ assign_self t (some x) c.next, h.0),
  λ e away. h.1 e away.1 ∙ assign_other t e (some x) c.next (λ q. away.0 (sym q)),
)

rest_none : (n t : ℕ) (c : Chains) → append_rest n t none c ≡ c
unfolding append_rest
rest_none zero t c = refl
rest_none (suc n) t c = refl

rest_some :
    (n t x : ℕ) (c : Chains)
    → append_rest (suc n) t (some x) c ≡ append_rest n x ((join t x c).next x) (join t x c)
unfolding append_rest
rest_some n t x c = refl

next_kept : (t x : ℕ) (c : Chains) → t ≢ x → (join t x c).next x ≡ c.next x
unfolding join
next_kept t x c h = assign_other t x (some x) c.next h

joined-Chain :
    (t x : ℕ) (c : Chains) (xs : List ℕ) (p : Option ℕ)
    → Avoids t xs
    → Chain c.next p xs
    → Chain (join t x c).next p xs
unfolding join
joined-Chain t x c xs p out h = Chain-assign c.next t (some x) p xs out h

rest-Follows :
    (n t x : ℕ) (c : Chains) (xs : List ℕ)
    → Chain c.next (c.next x) xs
    → Apart (t ∷ x ∷ xs)
    → Follows x xs (join t x c) (append_rest n x ((join t x c).next x) (join t x c))
    → Follows t (x ∷ xs) c (append_rest (suc n) t (some x) c)
rest-Follows n t x c xs h out done =
    subst (λ c'. Follows t (x ∷ xs) c c') (sym (rest_some n t x c))
      (join-Follows t x xs c (append_rest n x ((join t x c).next x) (join t x c)) out done)

-- What follows `t` already is relinked as it is.
linked-Follows :
    (n t : ℕ) (c : Chains) (xs : List ℕ)
    → Chain c.next (c.next t) xs
    → Apart (t ∷ xs)
    → length xs ≤ n
    → Follows t xs c (append_rest n t (c.next t) c)
linked-Follows n t c [] h out small =
    subst (λ p. Follows t [] c (append_rest n t p c)) (sym h)
      (subst (λ c'. Follows t [] c c') (sym (rest_none n t c)) (h, λ e away. refl))
linked-Follows zero t c (x ∷ xs) h out small = absurd (omega arith)
linked-Follows (suc n) t c (x ∷ xs) h out small =
    subst (λ p. Follows t (x ∷ xs) c (append_rest (suc n) t p c)) (sym h.0)
      (rest-Follows n t x c xs h.1 out (
        linked-Follows n x (join t x c) xs
          (subst (λ p. Chain (join t x c).next p xs) (sym (next_kept t x c out.0.0))
            (joined-Chain t x c xs (c.next x) out.0.1 h.1))
          out.1 (omega arith)))

append_rest-Follows :
    (n t x : ℕ) (c : Chains) (xs : List ℕ)
    → Chain c.next (some x) (x ∷ xs)
    → Apart (t ∷ x ∷ xs)
    → length xs ≤ n
    → Follows t (x ∷ xs) c (append_rest (suc n) t (some x) c)
append_rest-Follows n t x c xs h out small = rest-Follows n t x c xs h.1 out (
    linked-Follows n x (join t x c) xs
      (subst (λ p. Chain (join t x c).next p xs) (sym (next_kept t x c out.0.0))
        (joined-Chain t x c xs (c.next x) out.0.1 h.1))
      out.1 small)

module _ (weight : ℕ → ℕ) (ord : Order) where
  merge_first :
      (n t x y : ℕ) (c : Chains)
      → precedes ord (weight x) (weight y) ≡ true
      → merge_behind weight ord (suc n) t (some x) (some y) c
        ≡ merge_behind weight ord n x (c.next x) (some y) (join t x c)
  unfolding merge_behind
  merge_first n t x y c e = rw (e, merge_behind) refl

  merge_second :
      (n t x y : ℕ) (c : Chains)
      → precedes ord (weight x) (weight y) ≡ false
      → merge_behind weight ord (suc n) t (some x) (some y) c
        ≡ merge_behind weight ord n y (some x) (c.next y) (join t y c)
  unfolding merge_behind
  merge_second n t x y c e = rw (e, merge_behind) refl

  left_over :
      (n t y : ℕ) (c : Chains)
      → merge_behind weight ord (suc n) t none (some y) c ≡ append_rest (suc n) t (some y) c
  unfolding merge_behind
  left_over n t y c = refl

  right_over :
      (n t x : ℕ) (c : Chains)
      → merge_behind weight ord (suc n) t (some x) none c ≡ append_rest (suc n) t (some x) c
  unfolding merge_behind
  right_over n t x c = refl

  pub merge_behind-Follows :
      (n t : ℕ) (a b : Option ℕ) (c : Chains) (xs ys : List ℕ)
      → Chain c.next a xs
      → Chain c.next b ys
      → Apart (t ∷ xs)
      → Apart (t ∷ ys)
      → Disjoint xs ys
      → 1 ≤ length xs + length ys
      → length xs + length ys ≤ n
      → Follows t (merge_lists weight ord xs ys) c (merge_behind weight ord n t a b c)
  unfolding merge_lists
  merge_behind-Follows n t a b c [] [] ha hb ax ay d some_left small = absurd (omega arith)
  merge_behind-Follows zero t a b c (x ∷ xs) ys ha hb ax ay d some_left small = absurd (omega arith)
  merge_behind-Follows zero t a b c [] (y ∷ ys) ha hb ax ay d some_left small = absurd (omega arith)
  merge_behind-Follows (suc n) t a b c [] (y ∷ ys) ha hb ax ay d some_left small =
      subst (λ p. Follows t (y ∷ ys) c (merge_behind weight ord (suc n) t p b c)) (sym ha)
        (subst (λ p. Follows t (y ∷ ys) c (merge_behind weight ord (suc n) t none p c)) (sym hb.0)
          (subst (λ c'. Follows t (y ∷ ys) c c') (sym (left_over n t y c))
            (append_rest-Follows n t y c ys (refl, hb.1) ay (omega arith))))
  merge_behind-Follows (suc n) t a b c (x ∷ xs) [] ha hb ax ay d some_left small =
      subst (λ p. Follows t (x ∷ xs) c (merge_behind weight ord (suc n) t p b c)) (sym ha.0)
        (subst (λ p. Follows t (x ∷ xs) c (merge_behind weight ord (suc n) t (some x) p c)) (sym hb)
          (subst (λ c'. Follows t (x ∷ xs) c c') (sym (right_over n t x c))
            (append_rest-Follows n t x c xs (refl, ha.1) ax (omega arith))))
  merge_behind-Follows (suc n) t a b c (x ∷ xs) (y ∷ ys) ha hb ax ay d some_left small =
      let e = Disjoint-sym (x ∷ xs) (y ∷ ys) d in
      let merged = merge_lists weight ord (x ∷ xs) (y ∷ ys) in
      let result = λ (p q : Option ℕ). merge_behind weight ord (suc n) t p q c in
      subst (λ p. Follows t merged c (result p b)) (sym ha.0)
        (subst (λ q. Follows t merged c (result (some x) q)) (sym hb.0)
          (elim (Bool-cases (precedes ord (weight x) (weight y))) [
            | inl p ↦
                let more = merge_lists weight ord xs (y ∷ ys) in
                subst (λ l. Follows t l c (result (some x) (some y)))
                  (sym (merge_lists_first weight ord x y xs ys p))
                  (subst (λ c'. Follows t (x ∷ more) c c') (sym (merge_first n t x y c p))
                    (join-Follows t x more c
                      (merge_behind weight ord n x (c.next x) (some y) (join t x c))
                      (
                        (ax.0.0, All-merge_lists weight ord (λ z. t ≢ z) xs (y ∷ ys) ax.0.1 ay.0),
                        (
                          All-merge_lists weight ord (λ z. x ≢ z) xs (y ∷ ys) ax.1.0 d.0,
                          Apart-merge_lists weight ord xs (y ∷ ys) ax.1.1 ay.1 d.1,
                        ),
                      )
                      (merge_behind-Follows n x (c.next x) (some y) (join t x c) xs (y ∷ ys)
                        (joined-Chain t x c xs (c.next x) ax.0.1 ha.1)
                        (joined-Chain t x c (y ∷ ys) (some y) ay.0 (refl, hb.1)) ax.1 (d.0, ay.1)
                        d.1 (omega arith) (omega arith))))
            | inr p ↦
                let more = merge_lists weight ord (x ∷ xs) ys in
                subst (λ l. Follows t l c (result (some x) (some y)))
                  (sym (merge_lists_second weight ord x y xs ys p))
                  (subst (λ c'. Follows t (y ∷ more) c c') (sym (merge_second n t x y c p))
                    (join-Follows t y more c
                      (merge_behind weight ord n y (some x) (c.next y) (join t y c))
                      (
                        (ay.0.0, All-merge_lists weight ord (λ z. t ≢ z) (x ∷ xs) ys ax.0 ay.0.1),
                        (
                          All-merge_lists weight ord (λ z. y ≢ z) (x ∷ xs) ys e.0 ay.1.0,
                          Apart-merge_lists weight ord (x ∷ xs) ys ax.1 ay.1.1
                              (Disjoint-sym ys (x ∷ xs) e.1),
                        ),
                      )
                      (merge_behind-Follows n y (some x) (c.next y) (join t y c) (x ∷ xs) ys
                        (joined-Chain t y c (x ∷ xs) (some x) ax.0 (refl, ha.1))
                        (joined-Chain t y c ys (c.next y) ay.0.1 hb.1) (e.0, ax.1) ay.1
                        (Disjoint-sym ys (x ∷ xs) e.1) (omega arith) (omega arith))))
          ]))
