-- ===== src/Ring/Laws.antt =====
-- `PushFront`, `PushBack` and `Next` of pkg/list/doubly_linked.go on the sequence of elements.
use mathlib.Core.Path.{subst}
use advinced_cache.Prelude.{
  ℕ, zero, suc, ◌+◌, ◌≤◌, ◌<◌, ◌≡◌, ◌≢◌, refl, ap, sym, Bool, true, none, some, List, [], ◌∷◌, ◌++◌,
  length, length-append, get_elem?, leb, arith, Bool-cases, inl, inr,
}
use advinced_cache.Ring.{
  Ring, assign, new_element, insert_after, push_front, push_back, walk, next_at,
}
use advinced_cache.Ring.Links.{
  All, Avoids, Apart, Seg, IsRing, All-map, All-snoc, Apart-snoc, fresh-Avoids, assign_self,
  assign_other,
}
use advinced_cache.Ring.Ends.{Seg-front, Seg-back}

inner_owned :
    (f : ℕ → Bool) (e : ℕ) (xs : List ℕ)
    → All (λ x. f x ≡ true) xs
    → All (λ x. assign e true f x ≡ true) xs
inner_owned f e xs h =
    All-map (λ x. f x ≡ true) (λ x. assign e true f x ≡ true) xs (λ x q. ground arith) h

given_later : (n : ℕ) (xs : List ℕ) → All (λ x. x < n) xs → All (λ x. x < n + 1) xs
given_later n xs h = All-map (λ x. x < n) (λ x. x < n + 1) xs (λ x q. omega arith) h

pub Seg-insert :
    (next prev : ℕ → ℕ) (e : ℕ) (xs : List ℕ)
    → Seg next prev 0 xs 0
    → Avoids 0 xs
    → Apart xs
    → e ≢ 0
    → Avoids e xs
    → Seg
        (assign 0 e (assign e (next 0) next))
        (assign (assign e (next 0) next 0) e (assign e 0 prev))
        0
        (e ∷ xs)
        0
Seg-insert next prev e xs s inner apart e0 out =
    subst
      (λ m. Seg (assign 0 e (assign e (next 0) next)) (assign m e (assign e 0 prev)) 0 (e ∷ xs) 0)
      (sym (assign_other e 0 (next 0) next e0))
      (Seg-front next prev e (next 0) xs refl s inner apart e0 out)

get_elem?-past : (xs : List ℕ) (i : ℕ) → length xs ≤ i → get_elem? xs i ≡ none
get_elem?-past [] i h = refl
get_elem?-past (x ∷ xs) zero h = ground arith
get_elem?-past (x ∷ xs) (suc i) h = get_elem?-past xs i (omega arith)

module _ {V : Type 0} where
  -- On a list that is linked as a sequence of its elements, `PushFront` puts a new element with the
  -- value before them.
  pub push_front-IsRing :
      (v : V) (l : Ring V) (xs : List ℕ)
      → IsRing l xs
      → let (l', e) = push_front v l in IsRing l' (e ∷ xs) × (l'.value e ≡ some v)
  unfolding push_front new_element insert_after
  push_front-IsRing v l xs h =
      let e0 : l.fresh ≢ 0 = let p = h.positive in omega arith in
      let out = fresh-Avoids l.fresh xs h.given in
      (
        record {
          links = Seg-insert l.next l.prev l.fresh xs h.links h.inner h.apart e0 out;
          apart = (out, h.apart);
          inner = ((λ q. e0 (sym q)), h.inner);
          given = (omega arith, given_later l.fresh xs h.given);
          mine = (assign_self l.fresh true l.owned, inner_owned l.owned l.fresh xs h.mine);
          positive = omega arith;
          counted = let c = h.counted in omega arith;
        },
        assign_self l.fresh (some v) l.value,
      )

  -- On a list that is linked as a sequence of its elements, `PushBack` puts a new element with the
  -- value behind them.
  pub push_back-IsRing :
      (v : V) (l : Ring V) (xs : List ℕ)
      → IsRing l xs
      → let (l', e) = push_back v l in IsRing l' (xs ++ e ∷ []) × (l'.value e ≡ some v)
  unfolding push_back new_element
  push_back-IsRing v l xs h =
      let e0 : l.fresh ≢ 0 = let p = h.positive in omega arith in
      let out = fresh-Avoids l.fresh xs h.given in
      (
        record {
          links =
              Seg-back l.next l.prev 0 l.fresh (l.prev 0) xs refl h.links h.inner (h.inner, h.apart)
                e0 (e0, out);
          apart = Apart-snoc xs l.fresh h.apart out;
          inner = All-snoc (λ x. 0 ≢ x) xs l.fresh h.inner (λ q. e0 (sym q));
          given =
              All-snoc (λ x. x < l.fresh + 1) xs l.fresh (given_later l.fresh xs h.given)
                (omega arith);
          mine =
              All-snoc (λ x. assign l.fresh true l.owned x ≡ true) xs l.fresh
                (inner_owned l.owned l.fresh xs h.mine) (assign_self l.fresh true l.owned);
          positive = omega arith;
          counted = let c = h.counted in let a = length-append xs (l.fresh ∷ []) in omega arith;
        },
        assign_self l.fresh (some v) l.value,
      )

  walk-Seg :
      (l : Ring V) (xs : List ℕ) (a i : ℕ)
      → Seg l.next l.prev a xs 0
      → i < length xs
      → some (walk i (l.next a) l) ≡ get_elem? xs i
  unfolding walk
  walk-Seg l [] a i s lt = ground arith
  walk-Seg l (x ∷ xs) a zero s lt = ap some s.0
  walk-Seg l (x ∷ xs) a (suc i) s lt = rw (s.0) (walk-Seg l xs x i s.2 (omega arith))

  -- On a list that is linked as a sequence of its elements, `Next` finds the element at a position of
  -- the sequence, and none past its end.
  pub next_at-IsRing :
      (l : Ring V) (xs : List ℕ) (i : ℕ) → IsRing l xs → next_at i l ≡ get_elem? xs i
  unfolding next_at
  next_at-IsRing l xs i h = elim (Bool-cases (leb l.len i)) [
    | inl past ↦
        let c = h.counted in
        let far : length xs ≤ i = ground arith in rw past (sym (get_elem?-past xs i far))
    | inr inside ↦
        let c = h.counted in
        let near : i < length xs = ground arith in rw inside (walk-Seg l xs 0 i h.links near)
  ]
