-- ===== src/Ring/Links.antt =====
-- The elements of a list of pkg/list/doubly_linked.go, front to back, and how the links run.
use advinced_cache.Prelude.{
  ℕ, ◌<◌, ◌≡◌, ◌≢◌, refl, sym, ◌∙◌, true, false, List, [], ◌∷◌, ◌++◌, length, ◌==◌, ==_refl, arith,
}
use advinced_cache.Ring.{Ring, assign}

abbrev pub All : (ℕ → Type 0) → List ℕ → Type 0
All P [] = Unit
All P (x ∷ xs) = P x × All P xs

-- Every element of the list is another one than `a`.
abbrev pub Avoids : ℕ → List ℕ → Type 0
Avoids a xs = All (λ x. a ≢ x) xs

abbrev pub Apart : List ℕ → Type 0
Apart [] = Unit
Apart (x ∷ xs) = Avoids x xs × Apart xs

-- The links run from `a` through `xs` to `z` in both directions.
abbrev pub Seg : (ℕ → ℕ) → (ℕ → ℕ) → ℕ → List ℕ → ℕ → Type 0
Seg next prev a [] z = (next a ≡ z) × (prev z ≡ a)
Seg next prev a (x ∷ xs) z = (next a ≡ x) × (prev x ≡ a) × Seg next prev x xs z

-- The list is `xs`, front to back.
pub record IsRing {V : Type 0} (l : Ring V) (xs : List ℕ) : Type 0 where
  pub links : Seg l.next l.prev 0 xs 0
  pub apart : Apart xs
  pub inner : Avoids 0 xs
  pub given : All (λ x. x < l.fresh) xs
  pub mine : All (λ x. l.owned x ≡ true) xs
  pub positive : 0 < l.fresh
  pub counted : l.len ≡ length xs

pub All-map : (P Q : ℕ → Type 0) (xs : List ℕ) → ((x : ℕ) → P x → Q x) → All P xs → All Q xs
All-map P Q [] f h = tt
All-map P Q (x ∷ xs) f h = (f x h.0, All-map P Q xs f h.1)

pub All-mid :
    (P : ℕ → Type 0) (ys zs : List ℕ) (e : ℕ) → All P (ys ++ e ∷ zs) → P e × All P (ys ++ zs)
All-mid P [] zs e h = h
All-mid P (y ∷ ys) zs e h = ((All-mid P ys zs e h.1).0, (h.0, (All-mid P ys zs e h.1).1))

pub All-parts : (P : ℕ → Type 0) (ys zs : List ℕ) → All P (ys ++ zs) → All P ys × All P zs
All-parts P [] zs h = (tt, h)
All-parts P (y ∷ ys) zs h = ((h.0, (All-parts P ys zs h.1).0), (All-parts P ys zs h.1).1)

pub All-snoc : (P : ℕ → Type 0) (xs : List ℕ) (e : ℕ) → All P xs → P e → All P (xs ++ e ∷ [])
All-snoc P [] e h p = (p, tt)
All-snoc P (x ∷ xs) e h p = (h.0, All-snoc P xs e h.1 p)

pub Apart-mid :
    (ys zs : List ℕ) (e : ℕ) → Apart (ys ++ e ∷ zs) → Avoids e (ys ++ zs) × Apart (ys ++ zs)
Apart-mid [] zs e h = h
Apart-mid (y ∷ ys) zs e h =
    let mid = All-mid (λ x. y ≢ x) ys zs e h.0 in
    let ih = Apart-mid ys zs e h.1 in ((λ q. mid.0 (sym q), ih.0), (mid.1, ih.1))

pub Apart-snoc : (xs : List ℕ) (e : ℕ) → Apart xs → Avoids e xs → Apart (xs ++ e ∷ [])
Apart-snoc [] e h v = (tt, tt)
Apart-snoc (x ∷ xs) e h v =
    (All-snoc (λ y. x ≢ y) xs e h.0 (λ q. v.0 (sym q)), Apart-snoc xs e h.1 v.1)

pub fresh-Avoids : (n : ℕ) (xs : List ℕ) → All (λ x. x < n) xs → Avoids n xs
fresh-Avoids n xs h = All-map (λ x. x < n) (λ x. n ≢ x) xs (λ x lt. omega arith) h

pub assign_self : {A : Type 0} (p : ℕ) (v : A) (f : ℕ → A) → assign p v f p ≡ v
assign_self p v f = rw (==_refl p) refl

pub assign_other : {A : Type 0} (p a : ℕ) (v : A) (f : ℕ → A) → p ≢ a → assign p v f a ≡ f a
assign_other p a v f ne = let e : (a == p) ≡ false = ground arith in rw e refl

pub Seg-next :
    (next prev : ℕ → ℕ) (p v a z : ℕ) (xs : List ℕ)
    → Avoids p (a ∷ xs)
    → Seg next prev a xs z
    → Seg (assign p v next) prev a xs z
Seg-next next prev p v a z [] h s = (assign_other p a v next h.0 ∙ s.0, s.1)
Seg-next next prev p v a z (x ∷ xs) h s =
    (assign_other p a v next h.0 ∙ s.0, s.1, Seg-next next prev p v x z xs h.1 s.2)

pub Seg-prev :
    (next prev : ℕ → ℕ) (p v a z : ℕ) (xs : List ℕ)
    → Avoids p xs
    → p ≢ z
    → Seg next prev a xs z
    → Seg next (assign p v prev) a xs z
Seg-prev next prev p v a z [] h q s = (s.0, assign_other p z v prev q ∙ s.1)
Seg-prev next prev p v a z (x ∷ xs) h q s =
    (s.0, assign_other p x v prev h.0 ∙ s.1, Seg-prev next prev p v x z xs h.1 q s.2)

pub Seg-split :
    (next prev : ℕ → ℕ) (a e z : ℕ) (ys zs : List ℕ)
    → Seg next prev a (ys ++ e ∷ zs) z
    → Seg next prev a ys e × Seg next prev e zs z
Seg-split next prev a e z [] zs s = ((s.0, s.1), s.2)
Seg-split next prev a e z (y ∷ ys) zs s =
    let ih = Seg-split next prev y e z ys zs s.2 in ((s.0, s.1, ih.0), ih.1)

-- The element before the end of a segment is one of its own.
pub prev_inside :
    (next prev : ℕ → ℕ) (a z b : ℕ) (xs : List ℕ)
    → Seg next prev a xs z
    → Avoids b (a ∷ xs)
    → b ≢ prev z
prev_inside next prev a z b [] s h = λ q. h.0 (q ∙ s.1)
prev_inside next prev a z b (x ∷ xs) s h = prev_inside next prev x z b xs s.2 h.1

-- The element after the start of a segment is one of its own or the end.
pub next_inside :
    (next prev : ℕ → ℕ) (a z b : ℕ) (xs : List ℕ)
    → Seg next prev a xs z
    → Avoids b xs
    → b ≢ z
    → b ≢ next a
next_inside next prev a z b [] s h n = λ q. n (q ∙ s.0)
next_inside next prev a z b (x ∷ xs) s h n = λ q. h.0 (q ∙ s.0)
