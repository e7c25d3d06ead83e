-- ===== src/Ring/Ends.antt =====
-- The pointer operations of pkg/list/doubly_linked.go on the links alone.
use mathlib.Core.Path.{subst}
use advinced_cache.Prelude.{ℕ, ◌≡◌, ◌≢◌, sym, ◌∙◌, List, [], ◌∷◌, ◌++◌}
use advinced_cache.Ring.{assign}
use advinced_cache.Ring.Links.{
  Avoids, Apart, Seg, assign_self, assign_other, Seg-next, Seg-prev, prev_inside, next_inside,
  All-parts,
}

-- The four assignments of `PushFront`, where `n` is the first element so far.
pub Seg-front :
    (next prev : ℕ → ℕ) (e n : ℕ) (xs : List ℕ)
    → n ≡ next 0
    → Seg next prev 0 xs 0
    → Avoids 0 xs
    → Apart xs
    → e ≢ 0
    → Avoids e xs
    → Seg (assign 0 e (assign e n next)) (assign n e (assign e 0 prev)) 0 (e ∷ xs) 0
Seg-front next prev e n [] h s inner apart e0 out =
    let z : 0 ≢ e = λ q. e0 (sym q) in
    rw (h ∙ s.0) (
      assign_self 0 e (assign e 0 next),
      assign_other 0 e e (assign e 0 prev) z ∙ assign_self e 0 prev,
      (
        assign_other 0 e e (assign e 0 next) z ∙ assign_self e 0 next,
        assign_self 0 e (assign e 0 prev),
      ),
    )
Seg-front next prev e n (x ∷ xs) h s inner apart e0 out =
    let z : 0 ≢ e = λ q. e0 (sym q) in
    let q : n ≡ x = h ∙ s.0 in
    (
      assign_self 0 e (assign e n next),
      rw q (assign_other x e e (assign e 0 prev) (λ r. out.0 (sym r)) ∙ assign_self e 0 prev),
      (
        assign_other 0 e e (assign e n next) z ∙ assign_self e n next ∙ q,
        rw q (assign_self x e (assign e 0 prev)),
        Seg-next (assign e n next) (assign n e (assign e 0 prev)) 0 e x 0 xs inner (
            Seg-prev (assign e n next) (assign e 0 prev) n e x 0 xs
              (subst (λ k. Avoids k xs) (sym q) apart.0) (λ r. inner.0 (sym r ∙ q))
              (Seg-next next (assign e 0 prev) e n x 0 xs out
                (Seg-prev next prev e 0 x 0 xs out.1 e0 s.2))),
      ),
    )

-- The four assignments of `PushBack`, where `l` is the last element so far, on the part of the list
-- from `a` on.
pub Seg-back :
    (next prev : ℕ → ℕ) (a e l : ℕ) (xs : List ℕ)
    → l ≡ prev 0
    → Seg next prev a xs 0
    → Avoids 0 xs
    → Apart (a ∷ xs)
    → e ≢ 0
    → Avoids e (a ∷ xs)
    → Seg (assign l e (assign e 0 next)) (assign 0 e (assign e l prev)) a (xs ++ e ∷ []) 0
Seg-back next prev a e l [] h s inner apart e0 out =
    let z : 0 ≢ e = λ q. e0 (sym q) in
    rw (h ∙ s.1) (
      assign_self a e (assign e 0 next),
      assign_other 0 e e (assign e a prev) z ∙ assign_self e a prev,
      (
        assign_other a e e (assign e 0 next) (λ q. out.0 (sym q)) ∙ assign_self e 0 next,
        assign_self 0 e (assign e a prev),
      ),
    )
Seg-back next prev a e l (x ∷ xs) h s inner apart e0 out = (
  assign_other l a e (assign e 0 next) (λ q. prev_inside next prev x 0 a xs s.2 apart.0 (sym q ∙ h))
      ∙ assign_other e a 0 next out.0
      ∙ s.0,
  assign_other 0 x e (assign e l prev) inner.0 ∙ assign_other e x l prev out.1.0 ∙ s.1,
  Seg-back next prev x e l xs h s.2 inner.1 apart.1 e0 out.1,
)

-- The two assignments of `Remove`, between a part from `a` to `e` and one from `e` to the root.
pub Seg-detach :
    (next prev : ℕ → ℕ) (a e p n : ℕ) (ys zs : List ℕ)
    → p ≡ prev e
    → n ≡ next e
    → Seg next prev a ys e
    → Seg next prev e zs 0
    → Avoids 0 (ys ++ zs)
    → Apart (a ∷ ys ++ zs)
    → Seg (assign p n next) (assign n p prev) a (ys ++ zs) 0
Seg-detach next prev a e p n [] [] hp hn s t inner apart =
    rw (hp ∙ s.1, hn ∙ t.0) (assign_self a 0 next, assign_self 0 a prev)
Seg-detach next prev a e p n [] (z ∷ zs) hp hn s t inner apart =
    let k : p ≡ a = hp ∙ s.1 in
    let q : n ≡ z = hn ∙ t.0 in
    (
      rw (k, q) (assign_self a z next),
      rw (k, q) (assign_self z a prev),
      Seg-next next (assign n p prev) p n z 0 zs (subst (λ x. Avoids x (z ∷ zs)) (sym k) apart.0) (
          Seg-prev next prev n p z 0 zs (subst (λ x. Avoids x zs) (sym q) apart.1.0)
            (λ r. inner.0 (sym r ∙ q)) t.2),
    )
Seg-detach next prev a e p n (y ∷ ys) zs hp hn s t inner apart =
    let before = (All-parts (λ x. a ≢ x) (y ∷ ys) zs apart.0).0 in
    let after = (All-parts (λ x. y ≢ x) ys zs apart.1.0).1 in
    (
      assign_other p a n next (λ q. prev_inside next prev y e a ys s.2 before (sym q ∙ hp)) ∙ s.0,
      assign_other n y p prev
            (λ q. next_inside next prev e 0 y zs t after (λ r. inner.0 (sym r)) (sym q ∙ hn))
          ∙ s.1,
      Seg-detach next prev y e p n ys zs hp hn s.2 t inner.1 apart.1,
    )
