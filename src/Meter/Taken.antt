-- ===== src/Meter/Taken.antt =====
-- How the metrics writer of internal/cache/api/cache.go takes a counter: it loads the value and then
-- stores 0, two atomic steps between which requests go on counting.
use mathlib.Core.Path.{subst, subst⁻¹}
use advinced_cache.Prelude.{ℕ, ◌≡◌, refl, Option, none, some, arith}
use advinced_cache.Prelude.Word.{add64}

-- The counter, the value loaded and not yet stored over, and the sum of the values taken.
pub record Counter : Type 0 where
  pub live : ℕ
  pub loaded : Option ℕ
  pub reported : ℕ

abbrev pub new_counter : Counter
new_counter = record { live = 0; loaded = none; reported = 0 }

-- `total.Add(1)`.
unfoldable pub count_request : Counter → Counter
count_request c = record c { live = add64 c.live 1 }

-- `totalNumLoc := total.Load()`.
unfoldable pub load_counter : Counter → Counter
load_counter c = record c { loaded = some c.live; reported = add64 c.reported c.live }

-- `total.Store(0)`.
unfoldable pub store_counter : Counter → Counter
store_counter c = record c { live = 0; loaded = none }

-- The steps of the handlers and of the writer, with the requests served in all and those that were
-- counted between a load and its store.
pub data Counted : Counter → ℕ → ℕ → Type 0 where
  start : Counted new_counter 0 0
  served :
      {c : Counter} {n lost : ℕ}
      → Counted c n lost
      → c.loaded ≡ none
      → Counted (count_request c) (add64 n 1) lost
  overlapped :
      {c : Counter} {n lost k : ℕ}
      → Counted c n lost
      → c.loaded ≡ some k
      → Counted (count_request c) (add64 n 1) (add64 lost 1)
  loading :
      {c : Counter} {n lost : ℕ}
      → Counted c n lost
      → c.loaded ≡ none
      → Counted (load_counter c) n lost
  storing :
      {c : Counter} {n lost k : ℕ}
      → Counted c n lost
      → c.loaded ≡ some k
      → Counted (store_counter c) n lost

-- Between two takes nothing is missing but what was lost; inside one, the live value was reported.
abbrev AccountedAt : Option ℕ → ℕ → ℕ → ℕ → ℕ → Type 0
AccountedAt none reported live n lost = n ≡ add64 (add64 reported live) lost
AccountedAt (some k) reported live n lost = n ≡ add64 reported lost

Counted-AccountedAt :
    {c : Counter} {n lost : ℕ} → Counted c n lost → AccountedAt c.loaded c.reported c.live n lost
unfolding count_request load_counter store_counter
Counted-AccountedAt start = refl
Counted-AccountedAt (served {c} {n} {lost} h e) =
    let now = subst (λ o. AccountedAt o c.reported c.live n lost) e (Counted-AccountedAt h) in
    subst⁻¹ (λ o. AccountedAt o c.reported (add64 c.live 1) (add64 n 1) lost) e (omega arith)
Counted-AccountedAt (overlapped {c} {n} {lost} h e) =
    let now = subst (λ o. AccountedAt o c.reported c.live n lost) e (Counted-AccountedAt h) in
    subst⁻¹ (λ o. AccountedAt o c.reported (add64 c.live 1) (add64 n 1) (add64 lost 1)) e
      (omega arith)
Counted-AccountedAt (loading {c} {n} {lost} h e) =
    subst (λ o. AccountedAt o c.reported c.live n lost) e (Counted-AccountedAt h)
Counted-AccountedAt (storing {c} {n} {lost} h e) =
    let now = subst (λ o. AccountedAt o c.reported c.live n lost) e (Counted-AccountedAt h) in
    omega arith

-- However requests, loads and stores follow one another: where no take is under way, the requests
-- served are those reported, those still in the counter, and those that were counted between a load
-- and its store, which are never reported; all counts are modulo 2 ^ 64.
pub Counted-lost :
    (c : Counter) (n lost : ℕ)
    → Counted c n lost
    → c.loaded ≡ none
    → n ≡ add64 (add64 c.reported c.live) lost
Counted-lost c n lost h e =
    subst (λ o. AccountedAt o c.reported c.live n lost) e (Counted-AccountedAt h)
