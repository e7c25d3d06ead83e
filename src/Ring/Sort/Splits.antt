-- ===== src/Ring/Sort/Splits.antt =====
-- `splitHalf` of pkg/list/doubly_linked.go on chains that end in nil.
use mathlib.Core.Path.{subst}
use advinced_cache.Prelude.{
  ℕ, zero, suc, ◌≤◌, ◌≡◌, ◌≢◌, refl, ap, sym, ◌∙◌, Option, none, some, List, [], ◌∷◌, length, arith,
  Option-cases, inl, inr,
}
use advinced_cache.Ring.{assign}
use advinced_cache.Ring.Links.{All, Avoids, Apart, All-map, assign_self, assign_other}
use advinced_cache.Ring.Sort.{Chains, two_on, find_half, split_half}
use advinced_cache.Ring.Sort.Lists.{cut_half}

-- From the pointer `p` the links run through `xs` to nil.
abbrev pub Chain : (ℕ → Option ℕ) → Option ℕ → List ℕ → Type 0
Chain next p [] = p ≡ none
Chain next p (x ∷ xs) = (p ≡ some x) × Chain next (next x) xs

-- Links that agree on the elements.
pub Chain-agree :
    (next next' : ℕ → Option ℕ) (p : Option ℕ) (xs : List ℕ)
    → All (λ e. next' e ≡ next e) xs
    → Chain next p xs
    → Chain next' p xs
Chain-agree next next' p [] same h = h
Chain-agree next next' p (x ∷ xs) same h = (
  h.0,
  Chain-agree next next' (next' x) xs same.1 (subst (λ q. Chain next q xs) (sym same.0) h.1),
)

pub assign_agrees :
    (p : ℕ) (v : Option ℕ) (next : ℕ → Option ℕ) (xs : List ℕ)
    → Avoids p xs
    → All (λ e. assign p v next e ≡ next e) xs
assign_agrees p v next xs h =
    All-map (λ x. p ≢ x) (λ e. assign p v next e ≡ next e) xs (λ x q. assign_other p x v next q) h

pub Chain-assign :
    (next : ℕ → Option ℕ) (e : ℕ) (v p : Option ℕ) (xs : List ℕ)
    → Avoids e xs
    → Chain next p xs
    → Chain (assign e v next) p xs
Chain-assign next e v p xs out h =
    Chain-agree next (assign e v next) p xs (assign_agrees e v next xs out) h

module _ (c : Chains) where
  two_on-Chain :
      (f a b : ℕ) (r : List ℕ) → Chain c.next (c.next f) (a ∷ b ∷ r) → two_on c f ≡ some b
  unfolding two_on
  two_on-Chain f a b r h = rw (h.0, two_on) h.1.0

  two_on-short : (f : ℕ) → c.next f ≡ none → two_on c f ≡ none
  unfolding two_on
  two_on-short f h = rw (h, two_on) refl

  two_on-one : (f a : ℕ) → c.next f ≡ some a → c.next a ≡ none → two_on c f ≡ none
  unfolding two_on
  two_on-one f a h g = rw (h, two_on) g

  find_half-stop : (n s f : ℕ) → two_on c f ≡ none → find_half (suc n) c s f ≡ s
  unfolding find_half
  find_half-stop n s f h = rw (h, find_half) refl

  find_half-move :
      (n s f y b : ℕ)
      → two_on c f ≡ some b
      → c.next s ≡ some y
      → find_half (suc n) c s f ≡ find_half n c y b
  unfolding find_half
  find_half-move n s f y b h g = rw (h, g, find_half) refl

  -- Cutting behind the element `p` leaves the two parts.
  abbrev Cuts : ℕ → ℕ → List ℕ → List ℕ × List ℕ → Type 0
  Cuts p s ys halves =
      Chain (assign p none c.next) (some s) halves.0
      × Chain (assign p none c.next) (c.next p) halves.1
      × ((b : ℕ) → Avoids b (s ∷ ys) → b ≢ p)

  Cuts-here :
      (s : ℕ) (ys : List ℕ) → Chain c.next (c.next s) ys → Avoids s ys → Cuts s s ys (s ∷ [], ys)
  Cuts-here s ys h out = (
    (refl, assign_self s none c.next),
    Chain-assign c.next s none (c.next s) ys out h,
    λ b a. a.0,
  )

  Cuts-later :
      (p s y : ℕ) (ys : List ℕ) (halves : List ℕ × List ℕ)
      → c.next s ≡ some y
      → Avoids s (y ∷ ys)
      → Cuts p y ys halves
      → Cuts p s (y ∷ ys) (s ∷ halves.0, halves.1)
  Cuts-later p s y ys halves h out cut =
      let other : assign p none c.next s ≡ some y =
        assign_other p s none c.next (λ q. cut.2 s out (sym q)) ∙ h in
      (
        (refl, subst (λ q. Chain (assign p none c.next) q halves.0) (sym other) cut.0),
        cut.1,
        λ b a. cut.2 b a.1,
      )

  stops_here :
      (n s f : ℕ) (ys : List ℕ)
      → two_on c f ≡ none
      → Chain c.next (c.next s) ys
      → Avoids s ys
      → Cuts (find_half (suc n) c s f) s ys (s ∷ [], ys)
  stops_here n s f ys e h out =
      subst (λ p. Cuts p s ys (s ∷ [], ys)) (sym (find_half-stop n s f e)) (Cuts-here s ys h out)

  find_half-Cuts :
      (n s f : ℕ) (ys r : List ℕ)
      → Chain c.next (c.next s) ys
      → Chain c.next (c.next f) r
      → Apart (s ∷ ys)
      → length r ≤ length ys
      → length r ≤ n
      → Cuts (find_half (suc n) c s f) s ys (cut_half s ys r)
  unfolding cut_half
  find_half-Cuts n s f [] [] hs hf out le small = stops_here n s f [] (two_on-short f hf) hs out.0
  find_half-Cuts n s f (y ∷ ys) [] hs hf out le small =
      stops_here n s f (y ∷ ys) (two_on-short f hf) hs out.0
  find_half-Cuts n s f [] (a ∷ []) hs hf out le small =
      stops_here n s f [] (two_on-one f a hf.0 hf.1) hs out.0
  find_half-Cuts n s f (y ∷ ys) (a ∷ []) hs hf out le small =
      stops_here n s f (y ∷ ys) (two_on-one f a hf.0 hf.1) hs out.0
  find_half-Cuts n s f [] (a ∷ b ∷ r) hs hf out le small = absurd (omega arith)
  find_half-Cuts zero s f (y ∷ ys) (a ∷ b ∷ r) hs hf out le small = absurd (omega arith)
  find_half-Cuts (suc n) s f (y ∷ ys) (a ∷ b ∷ r) hs hf out le small =
      subst (λ p. Cuts p s (y ∷ ys) (cut_half s (y ∷ ys) (a ∷ b ∷ r)))
        (sym (find_half-move (suc n) s f y b (two_on-Chain f a b r hf) hs.0))
        (Cuts-later (find_half (suc n) c y b) s y ys (cut_half y ys r) hs.0 out.0
          (find_half-Cuts n y b ys r hs.1 hf.1.1 out.1 (omega arith) (omega arith)))

  -- Splitting a chain leaves two that end in nil.
  next-split_half : (n x : ℕ) → (split_half n x c).0.next ≡ assign (find_half n c x x) none c.next
  unfolding split_half
  next-split_half n x = elim (Option-cases (c.next (find_half n c x x))) [
    | inl e ↦ rw (e, split_half) refl
    | inr (k, e) ↦ rw (e, split_half) refl
  ]

  mid-split_half : (n x : ℕ) → (split_half n x c).1 ≡ c.next (find_half n c x x)
  unfolding split_half
  mid-split_half n x = refl

  pub split_half-Chain :
      (n x : ℕ) (ys : List ℕ)
      → Chain c.next (some x) (x ∷ ys)
      → Apart (x ∷ ys)
      → length ys ≤ n
      → let (c', mid) = split_half (suc n) x c in
        let halves = cut_half x ys ys in
        Chain c'.next (some x) halves.0 × Chain c'.next mid halves.1
  split_half-Chain n x ys h out small =
      let cut = find_half-Cuts n x x ys ys h.1 h.1 out (omega arith) small in
      let p = find_half (suc n) c x x in
      (
        subst (λ f. Chain f (some x) (cut_half x ys ys).0) (sym (next-split_half (suc n) x)) cut.0,
        subst (λ f. Chain f (split_half (suc n) x c).1 (cut_half x ys ys).1)
            (sym (next-split_half (suc n) x))
            (subst (λ m. Chain (assign p none c.next) m (cut_half x ys ys).1)
              (sym (mid-split_half (suc n) x)) cut.1),
      )

  -- Elements outside keep their links.
  pub split_half-frame :
      (n x e : ℕ) (ys : List ℕ)
      → Chain c.next (some x) (x ∷ ys)
      → Apart (x ∷ ys)
      → length ys ≤ n
      → Avoids e (x ∷ ys)
      → (split_half (suc n) x c).0.next e ≡ c.next e
  split_half-frame n x e ys h out small away =
      let cut = find_half-Cuts n x x ys ys h.1 h.1 out (omega arith) small in
      ap (λ f. f e) (next-split_half (suc n) x)
      ∙ assign_other (find_half (suc n) c x x) e none c.next (λ q. cut.2 e away (sym q))
