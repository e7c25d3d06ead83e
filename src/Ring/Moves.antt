-- ===== src/Ring/Moves.antt =====
-- `Remove` and `MoveToFront` of pkg/list/doubly_linked.go on the sequence of elements.
use mathlib.Core.Path.{subst}
use advinced_cache.Prelude.{
  ℕ, ◌+◌, ◌-◌, ◌<◌, ◌≡◌, ◌≢◌, refl, sym, Bool, true, false, List, [], ◌∷◌, ◌++◌, length,
  length-append, ltb, ◌==◌, if◌then◌else◌, arith, Bool-cases, inl, inr,
}
use advinced_cache.Ring.{Ring, assign, insert_after, detach, remove, move_to_front}
use advinced_cache.Ring.Links.{Seg, IsRing, All-mid, Apart-mid, Seg-split}
use advinced_cache.Ring.Ends.{Seg-detach}
use advinced_cache.Ring.Laws.{Seg-insert}

length_mid : (ys zs : List ℕ) (e : ℕ) → length (ys ++ e ∷ zs) ≡ length (ys ++ zs) + 1
length_mid ys zs e = let a = length-append ys (e ∷ zs) in let b = length-append ys zs in omega arith

same_value : {A : Type 0} (c : Bool) (x : A) → (if c then x else x) ≡ x
same_value true x = refl
same_value false x = refl

module _ {V : Type 0} where
  detach_next :
      (l : Ring V) (ys zs : List ℕ) (e : ℕ)
      → IsRing l (ys ++ e ∷ zs)
      → Seg (detach e l).next (detach e l).prev 0 (ys ++ zs) 0
  unfolding detach
  detach_next l ys zs e h =
      let parts = Seg-split l.next l.prev 0 e 0 ys zs h.links in
      let inner = All-mid (λ x. 0 ≢ x) ys zs e h.inner in
      let next1 = assign (l.prev e) (l.next e) l.next in
      subst (λ n. Seg next1 (assign n (l.prev e) l.prev) 0 (ys ++ zs) 0)
        (sym (same_value (e == l.prev e) (l.next e)))
        (Seg-detach l.next l.prev 0 e (l.prev e) (l.next e) ys zs refl refl parts.0 parts.1 inner.1
          (inner.1, (Apart-mid ys zs e h.apart).1))

  remove_owned :
      (e : ℕ) (l : Ring V)
      → l.owned e ≡ true
      → remove e l ≡ (let d = detach e l in record d { len = d.len - 1 })
  unfolding remove detach
  remove_owned e l o = rw o refl

  -- On a list that is linked as a sequence of its elements, `Remove` takes one of them out and leaves
  -- the others in their order.
  pub remove-IsRing :
      (l : Ring V) (ys zs : List ℕ) (e : ℕ)
      → IsRing l (ys ++ e ∷ zs)
      → IsRing (remove e l) (ys ++ zs)
  unfolding detach
  remove-IsRing l ys zs e h =
      subst (λ r. IsRing r (ys ++ zs))
        (sym (remove_owned e l (All-mid (λ x. l.owned x ≡ true) ys zs e h.mine).0))
        (record {
          links = detach_next l ys zs e h;
          apart = (Apart-mid ys zs e h.apart).1;
          inner = (All-mid (λ x. 0 ≢ x) ys zs e h.inner).1;
          given = (All-mid (λ x. x < l.fresh) ys zs e h.given).1;
          mine = (All-mid (λ x. l.owned x ≡ true) ys zs e h.mine).1;
          positive = h.positive;
          counted = let c = h.counted in let m = length_mid ys zs e in omega arith;
        })

  moved :
      (e : ℕ) (l : Ring V)
      → l.owned e ≡ true
      → ltb l.len 2 ≡ false
      → move_to_front e l ≡ insert_after e 0 (detach e l)
  unfolding move_to_front
  moved e l o two = rw (o, two) refl

  unmoved : (e : ℕ) (l : Ring V) → l.owned e ≡ true → ltb l.len 2 ≡ true → move_to_front e l ≡ l
  unfolding move_to_front
  unmoved e l o few = rw (o, few) refl

  reinserted :
      (l : Ring V) (ys zs : List ℕ) (e : ℕ)
      → IsRing l (ys ++ e ∷ zs)
      → IsRing (insert_after e 0 (detach e l)) (e ∷ ys ++ zs)
  unfolding insert_after detach
  reinserted l ys zs e h =
      let inner = All-mid (λ x. 0 ≢ x) ys zs e h.inner in
      let apart = Apart-mid ys zs e h.apart in
      let d = detach e l in
      record {
        links =
            Seg-insert d.next d.prev e (ys ++ zs) (detach_next l ys zs e h) inner.1 apart.1
              (λ q. inner.0 (sym q)) apart.0;
        apart = apart;
        inner = inner;
        given = All-mid (λ x. x < l.fresh) ys zs e h.given;
        mine = All-mid (λ x. l.owned x ≡ true) ys zs e h.mine;
        positive = h.positive;
        counted = let c = h.counted in let m = length_mid ys zs e in omega arith;
      }

  single_first :
      (l : Ring V) (ys zs : List ℕ) (e : ℕ)
      → IsRing l (ys ++ e ∷ zs)
      → ltb l.len 2 ≡ true
      → IsRing l (e ∷ ys ++ zs)
  single_first l [] zs e h few = h
  single_first l (y ∷ ys) zs e h few =
      let c = h.counted in let m = length_mid ys zs e in let no : ⊥ = ground arith in elim no [ ]

  -- On a list that is linked as a sequence of its elements, `MoveToFront` takes one of them to the
  -- front and leaves the others in their order, also where the list has that element only.
  pub move_to_front-IsRing :
      (l : Ring V) (ys zs : List ℕ) (e : ℕ)
      → IsRing l (ys ++ e ∷ zs)
      → IsRing (move_to_front e l) (e ∷ ys ++ zs)
  move_to_front-IsRing l ys zs e h =
      let o = (All-mid (λ x. l.owned x ≡ true) ys zs e h.mine).0 in
      elim (Bool-cases (ltb l.len 2)) [
        | inl few ↦
            subst (λ r. IsRing r (e ∷ ys ++ zs)) (sym (unmoved e l o few))
              (single_first l ys zs e h few)
        | inr two ↦
            subst (λ r. IsRing r (e ∷ ys ++ zs)) (sym (moved e l o two)) (reinserted l ys zs e h)
      ]
