-- ===== src/Ring/Sort/Closing.antt =====
-- `Sort` of pkg/list/doubly_linked.go as a whole: the ring opened, sorted and closed.
use mathlib.Core.List.{Perm}
use mathlib.Core.Path.{subst}
use advinced_cache.Prelude.{
  ℕ, zero, suc, ◌≤◌, ◌<◌, ◌≡◌, ◌≢◌, refl, ap, sym, ◌∙◌, true, false, Option, none, some, List, [],
  ◌∷◌, length, ltb, arith, Bool-cases, inl, inr,
}
use advinced_cache.Ring.{Ring, assign}
use advinced_cache.Ring.Links.{Avoids, Apart, Seg, IsRing, assign_self, assign_other, prev_inside}
use advinced_cache.Ring.Sort.{
  Order, Chains, set_next, set_prev, opened, address, merge_sort, close, sort,
}
use advinced_cache.Ring.Sort.Lists.{sort_list}
use advinced_cache.Ring.Sort.Ordered.{
  IsOrdered, sort_list-IsOrdered, sort_list-perm, All-sort_list, Apart-sort_list, length-sort_list,
}
use advinced_cache.Ring.Sort.Splits.{Chain, Chain-assign}
use advinced_cache.Ring.Sort.Sorts.{merge_sort-Leaves}

-- The chain from `a` is a segment up to the root, and other links are the old ones.
abbrev Closes : ℕ → List ℕ → Chains → Chains → Type 0
Closes a xs c c' =
    Seg (λ e. address (c'.next e)) (λ e. address (c'.prev e)) a xs 0
    × ((e : ℕ) → Avoids e (a ∷ xs) → c'.next e ≡ c.next e)
    × ((e : ℕ) → Avoids e xs → e ≢ 0 → c'.prev e ≡ c.prev e)

close_end :
    (n a : ℕ) (c : Chains)
    → c.next a ≡ none
    → close n a c ≡ set_prev 0 (some a) (set_next a (some 0) c)
unfolding close
close_end zero a c e = refl
close_end (suc n) a c e = rw (e, close) refl

close_on :
    (n a x : ℕ) (c : Chains)
    → c.next a ≡ some x
    → close (suc n) a c ≡ close n x (set_prev x (some a) c)
unfolding close
close_on n a x c e = rw (e, close) refl

close-Closes :
    (n a : ℕ) (c : Chains) (xs : List ℕ)
    → Chain c.next (c.next a) xs
    → Apart (a ∷ xs)
    → Avoids 0 xs
    → length xs ≤ n
    → Closes a xs c (close n a c)
close-Closes n a c [] h out inner small =
    subst (λ c'. Closes a [] c c') (sym (close_end n a c h))
      (
        (ap address (assign_self a (some 0) c.next), ap address (assign_self 0 (some a) c.prev)),
        λ e away. assign_other a e (some 0) c.next (λ q. away.0 (sym q)),
        λ e away other. assign_other 0 e (some a) c.prev (λ q. other (sym q)),
      )
close-Closes zero a c (x ∷ xs) h out inner small = absurd (omega arith)
close-Closes (suc n) a c (x ∷ xs) h out inner small =
    let c1 = set_prev x (some a) c in
    let done = close-Closes n x c1 xs h.1 out.1 inner.1 (omega arith) in
    subst (λ c'. Closes a (x ∷ xs) c c') (sym (close_on n a x c h.0))
      (
        (
          ap address (done.1 a out.0 ∙ h.0),
          ap address (done.2 x out.1.0 (λ q. inner.0 (sym q)) ∙ assign_self x (some a) c.prev),
          done.0,
        ),
        λ e away. done.1 e away.1,
        λ e away other.
            done.2 e away.1 other ∙ assign_other x e (some a) c.prev (λ q. away.0 (sym q)),
      )

-- `Sort` from the sorted chain on.
abbrev closed : ℕ → Chains × Option ℕ → Chains
closed n r = close n (address r.1) (set_prev (address r.1) (some 0) (set_next 0 r.1 r.0))

closed-Seg :
    (n : ℕ) (c : Chains) (p : Option ℕ) (ys : List ℕ)
    → Chain c.next p ys
    → Apart ys
    → Avoids 0 ys
    → 1 ≤ length ys
    → length ys ≤ n
    → let c' = closed n (c, p) in Seg (λ e. address (c'.next e)) (λ e. address (c'.prev e)) 0 ys 0
closed-Seg n c p [] h out inner some_left small = absurd (omega arith)
closed-Seg n c p (y ∷ ys) h out inner some_left small =
    subst
      (λ q.
        let c' = closed n (c, q) in
        Seg (λ e. address (c'.next e)) (λ e. address (c'.prev e)) 0 (y ∷ ys) 0)
      (sym h.0)
      (let c1 = set_prev y (some 0) (set_next 0 (some y) c) in
        let done =
          close-Closes n y c1 ys
            (subst (λ q. Chain c1.next q ys) (sym (assign_other 0 y (some y) c.next inner.0))
              (Chain-assign c.next 0 (some y) (c.next y) ys inner.1 h.1))
            out inner.1 (omega arith) in
        (
          ap address (done.1 0 inner ∙ assign_self 0 (some y) c.next),
          ap address (done.2 y out.0 (λ q. inner.0 (sym q)) ∙ assign_self y (some 0) c.prev),
          done.0,
        ))

-- Cut before the end, a segment is a chain.
Seg-Chain :
    (next prev : ℕ → ℕ) (a z : ℕ) (xs : List ℕ)
    → Seg next prev a xs z
    → Apart (a ∷ xs)
    → let cut = assign (prev z) none (λ e. some (next e)) in Chain cut (cut a) xs
Seg-Chain next prev a z [] s out =
    subst (λ p. assign p none (λ e. some (next e)) a ≡ none) (sym s.1)
      (assign_self a none (λ e. some (next e)))
Seg-Chain next prev a z (x ∷ xs) s out =
    let before = prev_inside next prev x z a xs s.2 out.0 in
    (
      assign_other (prev z) a none (λ e. some (next e)) (λ q. before (sym q)) ∙ ap some s.0,
      Seg-Chain next prev x z xs s.2 out.1,
    )

short_sorted :
    (weight : ℕ → ℕ) (ord : Order) (n : ℕ) (xs : List ℕ)
    → length xs < 2
    → sort_list weight ord n xs ≡ xs
unfolding sort_list
short_sorted weight ord zero xs h = refl
short_sorted weight ord (suc n) [] h = refl
short_sorted weight ord (suc n) (x ∷ []) h = refl
short_sorted weight ord (suc n) (x ∷ y ∷ xs) h = absurd (omega arith)

module _ {V : Type 0} (weight : ℕ → ℕ) (ord : Order) where
  -- The opened ring.
  abbrev cut_open : Ring V → Chains
  cut_open l = set_prev (l.next 0) none (set_next (l.prev 0) none (opened l))

  abbrev relinked : Ring V → Ring V
  relinked l =
      let c = closed l.len (merge_sort weight ord l.len (some (l.next 0)) (cut_open l)) in
      record l { next = λ a. address (c.next a); prev = λ a. address (c.prev a) }

  sort_short : (l : Ring V) → ltb l.len 2 ≡ true → sort weight ord l ≡ l
  unfolding sort
  sort_short l e = rw (e, sort) refl

  sort_long : (l : Ring V) → ltb l.len 2 ≡ false → sort weight ord l ≡ relinked l
  unfolding sort
  sort_long l e = rw (e, sort) refl

  relinked-IsRing :
      (l : Ring V) (xs : List ℕ)
      → 1 ≤ length xs
      → IsRing l xs
      → IsRing (relinked l) (sort_list weight ord l.len xs)
  relinked-IsRing l [] some_left h = absurd (omega arith)
  relinked-IsRing l (x ∷ xs) some_left h =
      let n = l.len in
      let ys = sort_list weight ord n (x ∷ xs) in
      let counted = h.counted in
      let start = Seg-Chain l.next l.prev x 0 xs h.links.2 h.apart in
      let sorted =
        merge_sort-Leaves weight ord n (some (l.next 0)) (cut_open l) (x ∷ xs)
          (ap some h.links.0, start) h.apart (omega arith) in
      let r = merge_sort weight ord n (some (l.next 0)) (cut_open l) in
      let same = length-sort_list weight ord n (x ∷ xs) in
      record {
        links =
            closed-Seg n r.0 r.1 ys sorted.0 (Apart-sort_list weight ord n (x ∷ xs) h.apart)
              (All-sort_list weight ord (λ e. 0 ≢ e) n (x ∷ xs) h.inner) (omega arith)
              (omega arith);
        apart = Apart-sort_list weight ord n (x ∷ xs) h.apart;
        inner = All-sort_list weight ord (λ e. 0 ≢ e) n (x ∷ xs) h.inner;
        given = All-sort_list weight ord (λ e. e < l.fresh) n (x ∷ xs) h.given;
        mine = All-sort_list weight ord (λ e. l.owned e ≡ true) n (x ∷ xs) h.mine;
        positive = h.positive;
        counted = counted ∙ sym same;
      }

  pub sort_list-IsRing :
      (l : Ring V) (xs : List ℕ)
      → IsRing l xs
      → IsRing (sort weight ord l) (sort_list weight ord l.len xs)
  sort_list-IsRing l xs h =
      let n = l.len in
      let counted = h.counted in
      elim (Bool-cases (ltb n 2)) [
        | inl e ↦
            let short : length xs < 2 = ground arith in
            subst (λ l'. IsRing l' (sort_list weight ord n xs)) (sym (sort_short l e))
              (subst (λ ys. IsRing l ys) (sym (short_sorted weight ord n xs short)) h)
        | inr e ↦
            subst (λ l'. IsRing l' (sort_list weight ord n xs)) (sym (sort_long l e))
              (relinked-IsRing l xs (ground arith) h)
      ]

  -- Sorting a well-formed list leaves a well-formed list of the same elements, each once, whose
  -- weights stand in the order asked for.
  pub sort-IsRing :
      (l : Ring V) (xs : List ℕ)
      → IsRing l xs
      → (ys : List ℕ) × IsRing (sort weight ord l) ys × Perm ys xs × IsOrdered weight ord ys
  sort-IsRing l xs h =
      let counted = h.counted in
      (
        sort_list weight ord l.len xs,
        sort_list-IsRing l xs h,
        sort_list-perm weight ord l.len xs,
        sort_list-IsOrdered weight ord l.len xs (omega arith),
      )

  pub value-sort : (l : Ring V) → (sort weight ord l).value ≡ l.value
  value-sort l = elim (Bool-cases (ltb l.len 2)) [
    | inl e ↦ ap (λ l'. l'.value) (sort_short l e)
    | inr e ↦ ap (λ l'. l'.value) (sort_long l e)
  ]
