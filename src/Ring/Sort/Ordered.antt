-- ===== src/Ring/Sort/Ordered.antt =====
-- The result of the merge sort of pkg/list/doubly_linked.go, as a sequence.
use mathlib.Core.List.Perm
use mathlib.Core.List.{Perm, perm_append_comm}
use mathlib.Core.Path.{subst⁻¹}
use advinced_cache.Prelude.{
  ℕ, zero, suc, ◌+◌, ◌≤◌, ◌≡◌, ◌≢◌, refl, ap, true, false, List, [], ◌∷◌, length, length-append,
  arith, Bool-cases, inl, inr,
}
use advinced_cache.Prelude.Word.{le_i64}
use advinced_cache.Ring.Links.{All, Avoids, Apart, All-map, All-parts}
use advinced_cache.Ring.Sort.{Order, desc, asc, precedes}
use advinced_cache.Ring.Sort.Lists.{
  cut_half, append-cut_half, cut_half-more, cut_half-first, Disjoint, Apart-parts, Disjoint-sym,
  merge_lists, sort_list, All-merge_lists, Apart-merge_lists, length-merge_lists, merge_lists-perm,
  merge_lists_first, merge_lists_second,
}

-- The weights stand in the order asked for.
abbrev pub InOrder : Order → ℕ → ℕ → Type 0
InOrder asc a b = le_i64 a b ≡ true
InOrder desc a b = le_i64 b a ≡ true

precedes-InOrder : (ord : Order) (a b : ℕ) → precedes ord a b ≡ true → InOrder ord a b
unfolding precedes
precedes-InOrder asc a b h = h
precedes-InOrder desc a b h = ground arith

not_precedes-InOrder : (ord : Order) (a b : ℕ) → precedes ord a b ≡ false → InOrder ord b a
unfolding precedes
not_precedes-InOrder asc a b h = ground arith
not_precedes-InOrder desc a b h = ground arith

InOrder-trans : (ord : Order) (a b c : ℕ) → InOrder ord a b → InOrder ord b c → InOrder ord a c
InOrder-trans asc a b c h g = ground arith
InOrder-trans desc a b c h g = ground arith

pub halves_short :
    (n x y : ℕ) (xs : List ℕ)
    → length (x ∷ y ∷ xs) ≤ suc n
    → let halves = cut_half x (y ∷ xs) (y ∷ xs) in
      (length halves.0 ≤ n) × (length halves.1 ≤ n) × (length halves.0 + length halves.1 ≤ suc n)
halves_short n x y xs h =
    let halves = cut_half x (y ∷ xs) (y ∷ xs) in
    let a = length-append halves.0 halves.1 in
    let b = ap length (append-cut_half x (y ∷ xs) (y ∷ xs)) in
    let c = cut_half-first x (y ∷ xs) (y ∷ xs) in
    let d = cut_half-more x y xs (y ∷ xs) (omega arith) in (omega arith, omega arith, omega arith)

pub All-halves :
    (P : ℕ → Type 0) (x : ℕ) (ys r : List ℕ)
    → All P (x ∷ ys)
    → All P (cut_half x ys r).0 × All P (cut_half x ys r).1
All-halves P x ys r h =
    All-parts P (cut_half x ys r).0 (cut_half x ys r).1 (subst⁻¹ (All P) (append-cut_half x ys r) h)

pub Apart-halves :
    (x : ℕ) (ys r : List ℕ)
    → Apart (x ∷ ys)
    → let halves = cut_half x ys r in Apart halves.0 × Apart halves.1 × Disjoint halves.0 halves.1
Apart-halves x ys r h =
    Apart-parts (cut_half x ys r).0 (cut_half x ys r).1 (subst⁻¹ Apart (append-cut_half x ys r) h)

module _ (weight : ℕ → ℕ) (ord : Order) where
  abbrev pub IsHead : ℕ → List ℕ → Type 0
  IsHead x xs = All (λ y. InOrder ord (weight x) (weight y)) xs

  abbrev pub IsOrdered : List ℕ → Type 0
  IsOrdered [] = Unit
  IsOrdered (x ∷ xs) = IsHead x xs × IsOrdered xs

  IsHead-of_tail :
      (x y : ℕ) (ys : List ℕ) → InOrder ord (weight x) (weight y) → IsHead y ys → IsHead x (y ∷ ys)
  IsHead-of_tail x y ys h t = (
    h,
    All-map (λ z. InOrder ord (weight y) (weight z)) (λ z. InOrder ord (weight x) (weight z)) ys
        (λ z g. InOrder-trans ord (weight x) (weight y) (weight z) h g) t,
  )

  merge_lists-IsOrdered :
      (xs ys : List ℕ) → IsOrdered xs → IsOrdered ys → IsOrdered (merge_lists weight ord xs ys)
  unfolding merge_lists
  merge_lists-IsOrdered [] ys hx hy = hy
  merge_lists-IsOrdered (x ∷ xs) [] hx hy = hx
  merge_lists-IsOrdered (x ∷ xs) (y ∷ ys) hx hy =
      elim (Bool-cases (precedes ord (weight x) (weight y))) [
        | inl e ↦
            let h = precedes-InOrder ord (weight x) (weight y) e in
            rw (merge_lists_first weight ord x y xs ys e) (
              All-merge_lists weight ord (λ z. InOrder ord (weight x) (weight z)) xs (y ∷ ys) hx.0
                  (IsHead-of_tail x y ys h hy.0),
              merge_lists-IsOrdered xs (y ∷ ys) hx.1 hy,
            )
        | inr e ↦
            let h = not_precedes-InOrder ord (weight x) (weight y) e in
            rw (merge_lists_second weight ord x y xs ys e) (
              All-merge_lists weight ord (λ z. InOrder ord (weight y) (weight z)) (x ∷ xs) ys
                  (IsHead-of_tail y x xs h hx.0) hy.0,
              merge_lists-IsOrdered (x ∷ xs) ys hx hy.1,
            )
      ]

  pub sort_list-IsOrdered :
      (n : ℕ) (xs : List ℕ) → length xs ≤ n → IsOrdered (sort_list weight ord n xs)
  unfolding sort_list
  sort_list-IsOrdered zero [] h = tt
  sort_list-IsOrdered zero (x ∷ xs) h = absurd (omega arith)
  sort_list-IsOrdered (suc n) [] h = tt
  sort_list-IsOrdered (suc n) (x ∷ []) h = (tt, tt)
  sort_list-IsOrdered (suc n) (x ∷ y ∷ xs) h =
      let halves = cut_half x (y ∷ xs) (y ∷ xs) in
      let b = halves_short n x y xs h in
      merge_lists-IsOrdered (sort_list weight ord n halves.1) (sort_list weight ord n halves.0)
        (sort_list-IsOrdered n halves.1 b.1) (sort_list-IsOrdered n halves.0 b.0)

  pub All-sort_list :
      (P : ℕ → Type 0) (n : ℕ) (xs : List ℕ) → All P xs → All P (sort_list weight ord n xs)
  unfolding sort_list
  All-sort_list P zero xs h = h
  All-sort_list P (suc n) [] h = h
  All-sort_list P (suc n) (x ∷ []) h = h
  All-sort_list P (suc n) (x ∷ y ∷ xs) h =
      let halves = cut_half x (y ∷ xs) (y ∷ xs) in
      let parts = All-halves P x (y ∷ xs) (y ∷ xs) h in
      All-merge_lists weight ord P (sort_list weight ord n halves.1)
        (sort_list weight ord n halves.0) (All-sort_list P n halves.1 parts.1)
        (All-sort_list P n halves.0 parts.0)

  pub Disjoint-sort_list :
      (n : ℕ) (xs ys : List ℕ)
      → Disjoint xs ys
      → Disjoint (sort_list weight ord n xs) (sort_list weight ord n ys)
  Disjoint-sort_list n xs ys d =
      All-sort_list (λ x. Avoids x (sort_list weight ord n ys)) n xs
        (All-map (λ x. Avoids x ys) (λ x. Avoids x (sort_list weight ord n ys)) xs
          (λ x h. All-sort_list (λ y. x ≢ y) n ys h) d)

  pub Apart-sort_list : (n : ℕ) (xs : List ℕ) → Apart xs → Apart (sort_list weight ord n xs)
  unfolding sort_list
  Apart-sort_list zero xs h = h
  Apart-sort_list (suc n) [] h = h
  Apart-sort_list (suc n) (x ∷ []) h = h
  Apart-sort_list (suc n) (x ∷ y ∷ xs) h =
      let halves = cut_half x (y ∷ xs) (y ∷ xs) in
      let parts = Apart-halves x (y ∷ xs) (y ∷ xs) h in
      Apart-merge_lists weight ord (sort_list weight ord n halves.1)
        (sort_list weight ord n halves.0) (Apart-sort_list n halves.1 parts.1)
        (Apart-sort_list n halves.0 parts.0)
        (Disjoint-sort_list n halves.1 halves.0 (Disjoint-sym halves.0 halves.1 parts.2))

  pub sort_list-perm : (n : ℕ) (xs : List ℕ) → Perm (sort_list weight ord n xs) xs
  unfolding sort_list
  sort_list-perm zero xs = Perm.rfl
  sort_list-perm (suc n) [] = Perm.rfl
  sort_list-perm (suc n) (x ∷ []) = Perm.rfl
  sort_list-perm (suc n) (x ∷ y ∷ xs) =
      let halves = cut_half x (y ∷ xs) (y ∷ xs) in
      let both = Perm.append (sort_list-perm n halves.0) (sort_list-perm n halves.1) in
      Perm.trans
        (merge_lists-perm weight ord (sort_list weight ord n halves.1)
          (sort_list weight ord n halves.0))
        (Perm.trans
          (perm_append_comm (sort_list weight ord n halves.1) (sort_list weight ord n halves.0))
          (rw (append-cut_half x (y ∷ xs) (y ∷ xs)) at both))

  pub length-sort_list : (n : ℕ) (xs : List ℕ) → length (sort_list weight ord n xs) ≡ length xs
  unfolding sort_list
  length-sort_list zero xs = refl
  length-sort_list (suc n) [] = refl
  length-sort_list (suc n) (x ∷ []) = refl
  length-sort_list (suc n) (x ∷ y ∷ xs) =
      let halves = cut_half x (y ∷ xs) (y ∷ xs) in
      let a =
        length-merge_lists weight ord (sort_list weight ord n halves.1)
          (sort_list weight ord n halves.0) in
      let b = length-append halves.0 halves.1 in
      let d = ap length (append-cut_half x (y ∷ xs) (y ∷ xs)) in
      omega (arith, length-sort_list n halves.1, length-sort_list n halves.0)
