-- ===== src/KeyValue/Order.antt =====
-- `less` of pkg/sort/key_value.go as an order of byte strings.
use advinced_cache.Prelude.{
  ◌≡◌, refl, Bool, true, false, [], ◌∷◌, arith, length, ltb, if◌then◌else◌,
}
use advinced_cache.KeyValue.{Bytes, less_loop, less}

-- The lexicographic order, by recursion on both strings.
unfoldable pub lex : Bytes → Bytes → Bool
lex [] [] = false
lex [] (y ∷ b) = true
lex (x ∷ a) [] = false
lex (x ∷ a) (y ∷ b) =
    let rest = lex a b in if ltb x y then true else if ltb y x then false else rest

less_loop-lex :
    (a b : Bytes)
    → less_loop
        (if ltb (length b) (length a) then length b else length a)
        a
        b
        (ltb (length a) (length b))
      ≡ lex a b
unfolding less_loop lex
less_loop-lex [] [] = refl
less_loop-lex [] (y ∷ b) = ground arith
less_loop-lex (x ∷ a) [] = ground arith
less_loop-lex (x ∷ a) (y ∷ b) = ground (arith, less_loop-lex a b)

-- The loop with its early returns decides the lexicographic order.
pub less-lex : (a b : Bytes) → less a b ≡ lex a b
unfolding less
less-lex a b = less_loop-lex a b

pub lex_irrefl : (a : Bytes) → lex a a ≡ false
unfolding lex
lex_irrefl [] = refl
lex_irrefl (x ∷ a) = ground (arith, lex_irrefl a)

pub lex_trans : (a b c : Bytes) → lex a b ≡ true → lex b c ≡ true → lex a c ≡ true
unfolding lex
lex_trans [] (y ∷ b) (z ∷ c) p q = refl
lex_trans (x ∷ a) (y ∷ b) (z ∷ c) p q = ground (arith, lex_trans a b c)
lex_trans [] [] c p q = q
lex_trans a (y ∷ b) [] p q = ground arith
lex_trans (x ∷ a) [] c p q = ground arith

pub lex_tri : (a b : Bytes) → lex a b ≡ false → lex b a ≡ false → a ≡ b
unfolding lex
lex_tri [] [] p q = refl
lex_tri [] (y ∷ b) p q = ground arith
lex_tri (x ∷ a) [] p q = ground arith
lex_tri (x ∷ a) (y ∷ b) p q = ground (arith, lex_tri a b)
