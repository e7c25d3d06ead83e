-- ===== src/Query/Panic.antt =====
-- Which query strings make `parseFilterAndSortQuery` of pkg/model/entry.go panic.
use advinced_cache.Prelude.{
  ℕ, ◌+◌, ◌-◌, ◌≤◌, ◌<◌, ◌≡◌, ◌⊎◌, inl, inr, refl, Bool, true, false, not, List, [], ◌∷◌, ◌++◌,
  arith, length, take, drop, ◌==◌, Bool-cases, if◌then◌else◌, ◌&&◌,
}
use advinced_cache.Prelude.Outcome.{Outcome, ok, panic, ◌>>=◌}
use advinced_cache.KeyValue.{Bytes, Pair}
use advinced_cache.Query.{State, initial, trim_left, cut, flush, step, scan, parse_query}

-- A `=` in front, and behind it a byte other than `&`.
unfoldable pub starts_badly : Bytes → Bool
starts_badly (x ∷ y ∷ b) = (x == b'=') && not (y == b'&')
starts_badly _ = false

-- The indices in a state from which no slice expression fails.
record IsSafe (idx : ℕ) (s : State) : Type 0 where
  found : s.k_found ≡ true
  start : s.k_idx ≤ idx
  order : (s.v_found ≡ false) ⊎ (s.k_idx < s.v_idx) × (s.v_idx ≤ idx)

-- What `cut` and `step` come to where no slice expression fails.
pair_of : Bytes → State → ℕ → Pair
pair_of b s end =
    if s.v_found
    then record {
      key = take (s.v_idx - 1 - s.k_idx) (drop s.k_idx b);
      value = take (end - s.v_idx) (drop s.v_idx b);
    }
    else record { key = take (end - s.k_idx) (drop s.k_idx b); value = [] }

state_after : ℕ → ℕ → State → State
state_after idx bt s =
    if bt == b'&'
    then record { k_idx = idx + 1; v_idx = 0; k_found = true; v_found = false }
    else if (bt == b'=') && not s.v_found
    then record s { v_idx = idx + 1; v_found = true }
    else s

pairs_after : Bytes → ℕ → ℕ → State → List Pair → List Pair
pairs_after b idx bt s out = if bt == b'&' then out ++ pair_of b s idx ∷ [] else out

cut-pair_of :
    (b : Bytes) (s : State) (end : ℕ)
    → IsSafe end s
    → end ≤ length b
    → cut b s end ≡ ok (pair_of b s end)
unfolding cut pair_of
cut-pair_of b s end safe h = ground arith

step-ok :
    (b : Bytes) (idx bt : ℕ) (s : State) (out : List Pair)
    → IsSafe idx s
    → idx ≤ length b
    → step b idx bt s out ≡ ok (state_after idx bt s, pairs_after b idx bt s out)
unfolding step state_after pairs_after
step-ok b idx bt s out safe h = ground (arith, cut-pair_of b s idx safe h)

state_after-IsSafe :
    (idx bt : ℕ) (s : State) → IsSafe idx s → IsSafe (idx + 1) (state_after idx bt s)
unfolding state_after
state_after-IsSafe idx bt s safe = ground arith

scan-ok :
    (b : Bytes) (idx : ℕ) (rest : Bytes) (s : State) (out : List Pair)
    → IsSafe idx s
    → idx + length rest ≡ length b
    → (s' : State) × (out' : List Pair) × (scan b idx rest s out ≡ ok (s', out'))
      × IsSafe (length b) s'
unfolding scan
scan-ok b idx [] s out safe e = let e' : length b ≡ idx = omega arith in (s, out, refl, rw e' safe)
scan-ok b idx (bt ∷ rest) s out safe e = rw (step-ok b idx bt s out safe (omega arith)) (
    scan-ok b (idx + 1) rest (state_after idx bt s) (pairs_after b idx bt s out)
      (state_after-IsSafe idx bt s safe) (omega arith))

-- With the value's start at 1 and the key's start at 1 every slice of the key fails.
abbrev broken : State
broken = record { k_idx = 1; v_idx = 1; k_found = true; v_found = true }

cut-broken : (b : Bytes) (end : ℕ) → cut b broken end ≡ panic
unfolding cut
cut-broken b end = ground arith

step-broken :
    (b : Bytes) (idx bt : ℕ) (out : List Pair)
    → step b idx bt broken out ≡ (if bt == b'&' then panic else ok (broken, out))
unfolding step
step-broken b idx bt out = ground (arith, cut-broken b idx)

scan-broken :
    (b : Bytes) (idx : ℕ) (rest : Bytes) (out : List Pair)
    → (scan b idx rest broken out ≡ panic) ⊎ (scan b idx rest broken out ≡ ok (broken, out))
unfolding scan
scan-broken b idx [] out = inr refl
scan-broken b idx (bt ∷ rest) out = elim (Bool-cases (bt == b'&')) [
  | inl e ↦ inl (rw (step-broken b idx bt out, e))
  | inr e ↦ rw (step-broken b idx bt out, e) (scan-broken b (idx + 1) rest out)
]

abbrev finish : Bytes → Outcome (List Pair)
finish b = do (s, out) ← scan b 0 b initial []; flush b s (length b) out

finish_from :
    (b : Bytes) (idx : ℕ) (rest : Bytes) (s : State) (out : List Pair)
    → IsSafe idx s
    → idx + length rest ≡ length b
    → (out' : List Pair) × ((do (s', o) ← scan b idx rest s out; flush b s' (length b) o) ≡ ok out')
finish_from b idx rest s out safe e =
    let (s', o, scanned, safe') = scan-ok b idx rest s out safe e in
    (
      o ++ pair_of b s' (length b) ∷ [],
      rw (scanned, safe'.found, cut-pair_of b s' (length b) safe' (omega arith)),
    )

first_state : ℕ → State
first_state x =
    if x == b'&'
    then record { k_idx = 1; v_idx = 0; k_found = true; v_found = false }
    else record { k_idx = 0; v_idx = 0; k_found = true; v_found = false }

first_step :
    (b : Bytes) (x : ℕ) → (x == b'=') ≡ false → step b 0 x initial [] ≡ ok (first_state x, [])
unfolding step first_state
first_step b x h = ground arith

first_state-IsSafe : (x : ℕ) → IsSafe 1 (first_state x)
unfolding first_state
first_state-IsSafe x = ground arith

finish_plain :
    (x : ℕ) (b : Bytes) → (x == b'=') ≡ false → (out : List Pair) × (finish (x ∷ b) ≡ ok out)
unfolding scan
finish_plain x b h =
    rw (first_step (x ∷ b) x h)
      (finish_from (x ∷ b) 1 b (first_state x) [] (first_state-IsSafe x) (omega arith))

finish_bare : (x : ℕ) → (x == b'=') ≡ true → finish (x ∷ []) ≡ ok []
unfolding scan step
finish_bare x h = ground arith

second : State
second = record { k_idx = 2; v_idx = 0; k_found = true; v_found = false }

second-IsSafe : IsSafe 2 second
unfolding second
second-IsSafe = record { found = refl; start = omega arith; order = inl refl }

-- After a `=` in front the value has a start and the key has none.
abbrev after_equals : State
after_equals = record { k_idx = 0; v_idx = 1; k_found = false; v_found = true }

step_equals :
    (b : Bytes) (x : ℕ) → (x == b'=') ≡ true → step b 0 x initial [] ≡ ok (after_equals, [])
unfolding step
step_equals b x h = ground arith

step-after_equals :
    (b : Bytes) (y : ℕ)
    → step b 1 y after_equals [] ≡ (if y == b'&' then ok (second, []) else ok (broken, []))
unfolding step second
step-after_equals b y = ground arith

finish_empty :
    (x y : ℕ) (b : Bytes)
    → (x == b'=') ≡ true
    → (y == b'&') ≡ true
    → (out : List Pair) × (finish (x ∷ y ∷ b) ≡ ok out)
unfolding scan
finish_empty x y b hx hy = rw (step_equals (x ∷ y ∷ b) x hx) (
    rw (step-after_equals (x ∷ y ∷ b) y, hy)
      (finish_from (x ∷ y ∷ b) 2 b second [] second-IsSafe (omega arith)))

finish_bad :
    (x y : ℕ) (b : Bytes) → (x == b'=') ≡ true → (y == b'&') ≡ false → finish (x ∷ y ∷ b) ≡ panic
unfolding scan
finish_bad x y b hx hy = rw (step_equals (x ∷ y ∷ b) x hx) (
    rw (step-after_equals (x ∷ y ∷ b) y, hy)
      (elim (scan-broken (x ∷ y ∷ b) 2 b []) [ inl e ↦ rw e | inr e ↦ rw e ]))

Verdict : Bytes → Type 0
Verdict b =
    (starts_badly b ≡ true) × (finish b ≡ panic)
    ⊎ (starts_badly b ≡ false) × ((out : List Pair) × (finish b ≡ ok out))

finish-Verdict : (b : Bytes) → Verdict b
unfolding Verdict starts_badly
finish-Verdict [] = inr (refl, ([], unfold scan in refl))
finish-Verdict (x ∷ []) = elim (Bool-cases (x == b'=')) [
  | inl hx ↦ inr (refl, ([], finish_bare x hx))
  | inr hx ↦ inr (refl, finish_plain x [] hx)
]
finish-Verdict (x ∷ y ∷ b) = elim (Bool-cases (x == b'=')) [
  | inl hx ↦ elim (Bool-cases (y == b'&')) [
    | inl hy ↦ inr (rw (hx, hy), finish_empty x y b hx hy)
    | inr hy ↦ inl (rw (hx, hy), finish_bad x y b hx hy)
  ]
  | inr hx ↦ inr (rw hx, finish_plain x (y ∷ b) hx)
]

-- The parser panics exactly on a query string that, without its leading question marks, begins
-- with `=` and a byte other than `&`; on any other one it returns pairs.
pub parse_query_panics :
    (query : Bytes)
    → (starts_badly (trim_left query) ≡ true) × (parse_query query ≡ panic)
      ⊎ (starts_badly (trim_left query) ≡ false)
        × ((out : List Pair) × (parse_query query ≡ ok out))
unfolding parse_query Verdict
parse_query_panics query = finish-Verdict (trim_left query)
