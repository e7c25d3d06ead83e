-- ===== src/Dump/Fuel.antt =====
-- How many rounds the loading loop of pkg/storage/dumper.go takes.
use advinced_cache.Prelude.{
  ℕ, zero, suc, ◌+◌, ◌≤◌, ◌<◌, ◌≡◌, refl, Bool, true, false, not, ◌&&◌, some, [], ◌∷◌, length, take,
  drop, leb, ◌==◌, if◌then◌else◌, arith, Bool-cases, inl, inr,
}
use advinced_cache.Prelude.Outcome.{Outcome, ok, err, panic}
use advinced_cache.KeyValue.{Bytes}
use advinced_cache.Config.{Rules}
use advinced_cache.Entry.{Entry, Revalidator}
use advinced_cache.Entry.Dumped.{entry_from_bytes}
use advinced_cache.Dump.{
  crc32, Meta, eof, broken, meta, read_meta, Loaded, failed, LoadStep, stop, next, crashed, store,
  load_record, load_step, load_loop, load_file,
}

-- What is left after a step.
abbrev pub Leaves : {S : Type 0} → ℕ → LoadStep S → Type 0
Leaves n (stop acc) = Unit
Leaves n (next acc rest) = length rest ≤ n
Leaves n crashed = Unit

abbrev pub MetaLeaves : ℕ → Meta → Type 0
MetaLeaves n eof = Unit
MetaLeaves n broken = Unit
MetaLeaves n (meta sz crc rest) = length rest < n

read_meta-MetaLeaves : (bytes : Bytes) → MetaLeaves (length bytes) (read_meta bytes)
unfolding read_meta
read_meta-MetaLeaves [] = tt
read_meta-MetaLeaves (a ∷ []) = tt
read_meta-MetaLeaves (a ∷ b ∷ []) = tt
read_meta-MetaLeaves (a ∷ b ∷ c ∷ []) = tt
read_meta-MetaLeaves (a ∷ b ∷ c ∷ d ∷ []) = tt
read_meta-MetaLeaves (a ∷ b ∷ c ∷ d ∷ e ∷ []) = tt
read_meta-MetaLeaves (a ∷ b ∷ c ∷ d ∷ e ∷ f ∷ []) = tt
read_meta-MetaLeaves (a ∷ b ∷ c ∷ d ∷ e ∷ f ∷ g ∷ []) = tt
read_meta-MetaLeaves (a ∷ b ∷ c ∷ d ∷ e ∷ f ∷ g ∷ h ∷ rest) = omega arith

length-drop_le : (n : ℕ) (b : Bytes) → length (drop n b) ≤ length b
length-drop_le zero b = omega arith
length-drop_le (suc n) [] = omega arith
length-drop_le (suc n) (x ∷ b) = let h = length-drop_le n b in omega arith

module _ {S : Type 0} (set : Entry → S → S) (done : ℕ → Bool) (crc_control : Bool) (rules : Rules)
    (maker : Revalidator) (now : ℕ) where
  store-Leaves :
      (e : Entry) (rest : Bytes) (acc : Loaded S)
      → Leaves (length rest) (store set done crc_control rules maker now e rest acc)
  unfolding store
  store-Leaves e rest acc = elim (Bool-cases (done (acc.success + 1))) [
    | inl d ↦ rw (d, store) tt
    | inr d ↦ rw (d, store) (omega arith)
  ]

  decoded-Leaves :
      (o : Outcome Entry) (rest : Bytes) (acc : Loaded S)
      → Leaves (length rest) (elim o [
        | ok e ↦ store set done crc_control rules maker now e rest acc
        | err _ ↦ next (failed acc) rest
        | panic ↦ crashed
      ])
  decoded-Leaves (ok e) rest acc = store-Leaves e rest acc
  decoded-Leaves (err x) rest acc = omega arith
  decoded-Leaves panic rest acc = tt

  load_record-Leaves :
      (crc : ℕ) (buf rest : Bytes) (acc : Loaded S)
      → Leaves (length rest) (load_record set done crc_control rules maker now crc buf rest acc)
  unfolding load_record
  load_record-Leaves crc buf rest acc = elim (Bool-cases (crc_control && not (crc32 buf == crc))) [
    | inl bad ↦ rw (bad, load_record) (omega arith)
    | inr good ↦
        rw (good, load_record) (decoded-Leaves (entry_from_bytes rules maker now buf) rest acc)
  ]

  -- A step that goes on leaves less than it found.
  abbrev pub Shortens : ℕ → LoadStep S → Type 0
  Shortens n (stop acc) = Unit
  Shortens n (next acc rest) = length rest < n
  Shortens n crashed = Unit

  Leaves-less : (k n : ℕ) (x : LoadStep S) → Leaves k x → k < n → Shortens n x
  Leaves-less k n (stop acc) h lt = tt
  Leaves-less k n (next acc rest) h lt = omega arith
  Leaves-less k n crashed h lt = tt

  record_or_stop :
      (b : Bool) (n : ℕ) (x y : LoadStep S)
      → Shortens n x
      → Shortens n y
      → Shortens n (if b then x else y)
  record_or_stop true n x y u v = u
  record_or_stop false n x y u v = v

  meta-Shortens :
      (n : ℕ) (m : Meta) (acc : Loaded S)
      → MetaLeaves n m
      → Shortens n (elim m [
        | eof ↦ stop acc
        | broken ↦ stop (failed acc)
        | meta sz crc rest ↦
            if leb sz (length rest)
            then load_record set done crc_control rules maker now crc
                (take sz rest)
                (drop sz rest)
                acc
            else stop (failed acc)
      ])
  meta-Shortens n eof acc h = tt
  meta-Shortens n broken acc h = tt
  meta-Shortens n (meta sz crc rest) acc h =
      record_or_stop (leb sz (length rest)) n _ (stop (failed acc))
        (Leaves-less (length (drop sz rest)) n
          (load_record set done crc_control rules maker now crc (take sz rest) (drop sz rest) acc)
          (load_record-Leaves crc (take sz rest) (drop sz rest) acc)
          (let d = length-drop_le sz rest in omega arith))
        tt

  load_step-Shortens :
      (bytes : Bytes) (acc : Loaded S)
      → Shortens (length bytes) (load_step set done crc_control rules maker now bytes acc)
  unfolding load_step
  load_step-Shortens bytes acc =
      meta-Shortens (length bytes) (read_meta bytes) acc (read_meta-MetaLeaves bytes)

  -- A result that both amounts of fuel come to.
  Ends : ℕ → ℕ → Bytes → Loaded S → Type 0
  Ends n m bytes acc =
      (o : Outcome (Loaded S)) × (load_loop set done crc_control rules maker now n bytes acc
        ≡ some o)
      × (load_loop set done crc_control rules maker now m bytes acc ≡ some o)

  step-Ends :
      (n m k : ℕ) (x : LoadStep S)
      → Shortens k x
      → ((rest : Bytes) (acc : Loaded S) → length rest < k → Ends n m rest acc)
      → (o : Outcome (Loaded S)) × ((elim x [
        | stop acc ↦ some (ok acc)
        | next acc rest ↦ load_loop set done crc_control rules maker now n rest acc
        | crashed ↦ some panic
      ])
          ≡ some o)
        × ((elim x [
          | stop acc ↦ some (ok acc)
          | next acc rest ↦ load_loop set done crc_control rules maker now m rest acc
          | crashed ↦ some panic
        ])
            ≡ some o)
  unfolding Ends
  step-Ends n m k (stop acc) h ends = (ok acc, refl, refl)
  step-Ends n m k (next acc rest) h ends = ends rest acc h
  step-Ends n m k crashed h ends = (panic, refl, refl)

  loop-Ends :
      (n m : ℕ) (bytes : Bytes) (acc : Loaded S)
      → length bytes < n
      → length bytes < m
      → Ends n m bytes acc
  unfolding load_loop Ends
  loop-Ends zero m bytes acc hn hm = absurd (omega arith)
  loop-Ends (suc n) zero bytes acc hn hm = absurd (omega arith)
  loop-Ends (suc n) (suc m) bytes acc hn hm =
      step-Ends n m (length bytes) (load_step set done crc_control rules maker now bytes acc)
        (load_step-Shortens bytes acc)
        (λ rest acc lt. loop-Ends n m rest acc (omega arith) (omega arith))

  -- The loading loop ends on every file, well-formed or not: within as many rounds as the file has
  -- bytes and one more it stops or panics, and more fuel than that comes to the same result. Here a
  -- loop that has spent its fuel has no result.
  pub load_loop-load_file :
      (n : ℕ) (bytes : Bytes) (acc : Loaded S)
      → length bytes < n
      → (o : Outcome (Loaded S)) × (load_file set done crc_control rules maker now bytes acc
          ≡ some o)
        × (load_loop set done crc_control rules maker now n bytes acc ≡ some o)
  unfolding load_file Ends
  load_loop-load_file n bytes acc h = loop-Ends (suc (length bytes)) n bytes acc (omega arith) h
