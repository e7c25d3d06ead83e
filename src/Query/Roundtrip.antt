-- ===== src/Query/Roundtrip.antt =====
-- What `parseFilterAndSortQuery` of pkg/model/entry.go reads from a well-formed query string.
use advinced_cache.Prelude.{
  ℕ, ◌+◌, ◌-◌, ◌<◌, ◌≡◌, refl, true, false, List, [], ◌∷◌, ◌++◌, arith, length, take, drop, ◌==◌,
  ap, ◌∙◌, append_assoc, append-nil, length-append, take-append, drop-append,
}
use advinced_cache.Prelude.Outcome.{Outcome, ok, ◌>>=◌}
use advinced_cache.KeyValue.{Bytes, Pair}
use advinced_cache.Query.{State, initial, slice, trim_left, cut, flush, step, scan, parse_query}

-- No byte of the list is `c`.
abbrev Lacks : ℕ → Bytes → Type 0
Lacks c [] = Unit
Lacks c (x ∷ b) = ((x == c) ≡ false) × Lacks c b

-- A name that a query string can carry as it is: not empty, no `=` and no `&`.
pub record IsParam (p : Pair) : Type 0 where
  pub named : 0 < length p.key
  pub key_equals : Lacks b'=' p.key
  pub key_and : Lacks b'&' p.key
  pub value_and : Lacks b'&' p.value

abbrev pub AreParams : List Pair → Type 0
AreParams [] = Unit
AreParams (p ∷ ps) = IsParam p × AreParams ps

abbrev pub print_param : Pair → Bytes
print_param p = p.key ++ b'=' ∷ p.value

-- The parameters, joined by `&`.
unfoldable pub print_query : Pair → List Pair → Bytes
print_query p [] = print_param p
print_query p (q ∷ ps) = print_param p ++ b'&' ∷ print_query q ps

-- Where the name at `k_idx` is read, and where the value behind it is.
abbrev in_key : ℕ → State
in_key k = record { k_idx = k; v_idx = 0; k_found = true; v_found = false }

abbrev in_value : ℕ → ℕ → State
in_value k v = record { k_idx = k; v_idx = v; k_found = true; v_found = true }

step_key :
    (b : Bytes) (idx bt k : ℕ) (out : List Pair)
    → (bt == b'&') ≡ false
    → (bt == b'=') ≡ false
    → step b idx bt (in_key k) out ≡ ok (in_key k, out)
unfolding step
step_key b idx bt k out h e = ground arith

step_value :
    (b : Bytes) (idx bt k v : ℕ) (out : List Pair)
    → (bt == b'&') ≡ false
    → step b idx bt (in_value k v) out ≡ ok (in_value k v, out)
unfolding step
step_value b idx bt k v out h = ground arith

scan_key :
    (b : Bytes) (idx k end : ℕ) (run rest : Bytes) (out : List Pair)
    → Lacks b'&' run
    → Lacks b'=' run
    → idx + length run ≡ end
    → scan b idx (run ++ rest) (in_key k) out ≡ scan b end rest (in_key k) out
unfolding scan
scan_key b idx k end [] rest out h e q = let q' : idx ≡ end = omega arith in rw q'
scan_key b idx k end (x ∷ run) rest out h e q =
    rw (step_key b idx x k out h.0 e.0)
      (scan_key b (idx + 1) k end run rest out h.1 e.1 (omega arith))

scan_value :
    (b : Bytes) (idx k v end : ℕ) (run rest : Bytes) (out : List Pair)
    → Lacks b'&' run
    → idx + length run ≡ end
    → scan b idx (run ++ rest) (in_value k v) out ≡ scan b end rest (in_value k v) out
unfolding scan
scan_value b idx k v end [] rest out h q = let q' : idx ≡ end = omega arith in rw q'
scan_value b idx k v end (x ∷ run) rest out h q =
    rw (step_value b idx x k v out h.0)
      (scan_value b (idx + 1) k v end run rest out h.1 (omega arith))

slice-ok :
    (b pre mid post : Bytes) (lo hi : ℕ)
    → b ≡ pre ++ (mid ++ post)
    → lo ≡ length pre
    → hi ≡ lo + length mid
    → slice b lo hi ≡ ok mid
slice-ok b pre mid post lo hi e l h =
    let n : length b ≡ length pre + (length mid + length post) =
      rw e (omega (arith, length-append pre (mid ++ post), length-append mid post)) in
    let d : drop lo b ≡ mid ++ post = rw (e, l) (drop-append pre (mid ++ post)) in
    let t : take (hi - lo) (mid ++ post) ≡ mid =
      (let w : hi - lo ≡ length mid = omega arith in rw w (take-append mid post)) in
    ground (arith, d, t)

module _ (b pre post : Bytes) (p : Pair) (v end : ℕ)
    (whole : b ≡ pre ++ (p.key ++ b'=' ∷ (p.value ++ post)))
    (at_value : v ≡ length pre + length p.key + 1) (at_end : end ≡ v + length p.value) where
  cut-ok : cut b (in_value (length pre) v) end ≡ ok p
  unfolding cut
  cut-ok =
      let k =
        slice-ok b pre p.key (b'=' ∷ (p.value ++ post)) (length pre) (v - 1) whole refl
          (omega arith) in
      let w : b ≡ (pre ++ (p.key ++ b'=' ∷ [])) ++ (p.value ++ post) = whole ∙ simp append_assoc in
      let u =
        slice-ok b (pre ++ (p.key ++ b'=' ∷ [])) p.value post v end w
          (omega (arith, length-append pre (p.key ++ b'=' ∷ []), length-append p.key (b'=' ∷ [])))
          at_end in
      rw (k, u)

-- What the loop and the code behind it make of the rest of the string.
abbrev finish_from : Bytes → ℕ → Bytes → State → List Pair → Outcome (List Pair)
finish_from b idx rest s out = do (s', out') ← scan b idx rest s out; flush b s' (length b) out'

step_equals :
    (b : Bytes) (idx k : ℕ) (out : List Pair)
    → step b idx b'=' (in_key k) out ≡ ok (in_value k (idx + 1), out)
unfolding step
step_equals b idx k out = refl

step_and :
    (b : Bytes) (idx k v : ℕ) (out : List Pair) (p : Pair)
    → cut b (in_value k v) idx ≡ ok p
    → step b idx b'&' (in_value k v) out ≡ ok (in_key (idx + 1), out ++ p ∷ [])
unfolding step
step_and b idx k v out p h = rw h

-- Up to the end of the value.
finish_param :
    (b pre post : Bytes) (p : Pair) (out : List Pair) (end : ℕ)
    → IsParam p
    → end ≡ length pre + length p.key + 1 + length p.value
    → finish_from b (length pre) (p.key ++ b'=' ∷ (p.value ++ post)) (in_key (length pre)) out
      ≡ finish_from b end post (in_value (length pre) (length pre + length p.key + 1)) out
finish_param b pre post p out end h e =
    let n = length pre in
    let m = length pre + length p.key in
    let first = scan_key b n n m p.key (b'=' ∷ (p.value ++ post)) out h.key_and h.key_equals refl in
    let last = scan_value b (m + 1) n (m + 1) end p.value post out h.value_and (omega arith) in
    rw first (unfold scan in rw (step_equals b m n out) (rw last))

print_param-append :
    (p : Pair) (post : Bytes) → print_param p ++ post ≡ p.key ++ b'=' ∷ (p.value ++ post)
print_param-append p post = append_assoc p.key (b'=' ∷ p.value) post

length-print :
    (b pre post : Bytes) (p : Pair)
    → b ≡ pre ++ (p.key ++ b'=' ∷ (p.value ++ post))
    → length b ≡ length pre + length p.key + 1 + length p.value + length post
length-print b pre post p e = rw e (
    omega (
      arith,
      length-append pre (p.key ++ b'=' ∷ (p.value ++ post)),
      length-append p.key (b'=' ∷ (p.value ++ post)),
      length-append p.value post,
    ))

-- The last parameter.
finish_last :
    (b pre : Bytes) (p : Pair) (out : List Pair)
    → IsParam p
    → b ≡ pre ++ (p.key ++ b'=' ∷ (p.value ++ []))
    → finish_from b (length pre) (p.key ++ b'=' ∷ (p.value ++ [])) (in_key (length pre)) out
      ≡ ok (out ++ p ∷ [])
finish_last b pre p out h e =
    let len = length-print b pre [] p e in
    finish_param b pre [] p out (length b) h (omega arith)
    ∙ unfold scan in
      rw (cut-ok b pre [] p (length pre + length p.key + 1) (length b) e refl (omega arith))

-- A parameter and the `&` behind it.
finish_next :
    (b pre rest : Bytes) (p : Pair) (out : List Pair) (end : ℕ)
    → IsParam p
    → b ≡ pre ++ (p.key ++ b'=' ∷ (p.value ++ b'&' ∷ rest))
    → end ≡ length pre + length p.key + 1 + length p.value
    → finish_from b
        (length pre)
        (p.key ++ b'=' ∷ (p.value ++ b'&' ∷ rest))
        (in_key (length pre))
        out
      ≡ finish_from b (end + 1) rest (in_key (end + 1)) (out ++ p ∷ [])
finish_next b pre rest p out end h e at =
    let n = length pre in
    let v = length pre + length p.key + 1 in
    let c = cut-ok b pre (b'&' ∷ rest) p v end e refl at in
    finish_param b pre (b'&' ∷ rest) p out end h at ∙ unfold scan in rw (step_and b end n v out p c)

finish_query :
    (b pre : Bytes) (p : Pair) (ps out : List Pair)
    → IsParam p
    → AreParams ps
    → b ≡ pre ++ print_query p ps
    → finish_from b (length pre) (print_query p ps) (in_key (length pre)) out ≡ ok (out ++ p ∷ ps)
unfolding print_query
finish_query b pre p [] out h hs e =
    let w : print_param p ≡ p.key ++ b'=' ∷ (p.value ++ []) = rw append-nil in
    rw w (finish_last b pre p out h (rw w at e))
finish_query b pre p (q ∷ ps) out h hs e =
    let rest = print_query q ps in
    let w = print_param-append p (b'&' ∷ rest) in
    let pre' = pre ++ (p.key ++ b'=' ∷ (p.value ++ b'&' ∷ [])) in
    let end = length pre + length p.key + 1 + length p.value in
    let len : end + 1 ≡ length pre' = omega (
      arith,
      length-append pre (p.key ++ b'=' ∷ (p.value ++ b'&' ∷ [])),
      length-append p.key (b'=' ∷ (p.value ++ b'&' ∷ [])),
      length-append p.value (b'&' ∷ []),
    ) in
    rw w (
      finish_next b pre rest p out end h (rw w at e) refl
      ∙ (rw len
          (finish_query b pre' q ps (out ++ p ∷ []) hs.0 hs.1 (rw w at e ∙ simp append_assoc)))
      ∙ ap ok (append_assoc out (p ∷ []) (q ∷ ps)))

step_start :
    (b : Bytes) (x : ℕ)
    → (x == b'&') ≡ false
    → (x == b'=') ≡ false
    → step b 0 x initial [] ≡ ok (in_key 0, [])
unfolding step
step_start b x h e = ground arith

finish_start :
    (b key rest : Bytes)
    → 0 < length key
    → Lacks b'&' key
    → Lacks b'=' key
    → finish_from b 0 (key ++ rest) initial [] ≡ finish_from b 0 (key ++ rest) (in_key 0) []
unfolding scan
finish_start b [] rest n h e = absurd (omega arith)
finish_start b (x ∷ key) rest n h e = rw (step_start b x h.0 e.0) (rw (step_key b 0 x 0 [] h.0 e.0))

trim_left_none :
    (key rest : Bytes)
    → 0 < length key
    → Lacks b'?' (take 1 key)
    → trim_left (key ++ rest) ≡ key ++ rest
unfolding trim_left
trim_left_none [] rest n h = absurd (omega arith)
trim_left_none (x ∷ key) rest n h = rw h.0

-- Every print of a query begins with its first name.
print_query-append :
    (p : Pair) (ps : List Pair) → (rest : Bytes) × (print_query p ps ≡ p.key ++ rest)
unfolding print_query
print_query-append p [] = (b'=' ∷ p.value, refl)
print_query-append p (q ∷ ps) =
    (b'=' ∷ p.value ++ b'&' ∷ print_query q ps, append_assoc p.key (b'=' ∷ p.value) _)

-- Parameters with names, whose names hold no `=` and no `&` and whose values hold no `&`, are read
-- back from their query string in their order, if the first name does not begin with `?`.
pub parse_query-print_query :
    (p : Pair) (ps : List Pair)
    → IsParam p
    → AreParams ps
    → Lacks b'?' (take 1 p.key)
    → parse_query (print_query p ps) ≡ ok (p ∷ ps)
unfolding parse_query
parse_query-print_query p ps h hs begins =
    let (rest, e) = print_query-append p ps in
    let b = print_query p ps in
    let trimmed : trim_left b ≡ b = rw e (trim_left_none p.key rest h.named begins) in
    let started : finish_from b 0 b initial [] ≡ finish_from b 0 b (in_key 0) [] =
      rw e (finish_start (p.key ++ rest) p.key rest h.named h.key_and h.key_equals) in
    rw trimmed (started ∙ finish_query b [] p ps [] h hs refl)
