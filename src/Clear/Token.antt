-- ===== src/Clear/Token.antt =====
-- The life of the clear token of internal/cache/api/clear.go.
use advinced_cache.Prelude.{
  ℕ, ◌+◌, ◌/◌, ◌<◌, ◌≡◌, refl, ap, true, false, ◌&&◌, Option, some, [], ◌∷◌, ltb, bytes_eq,
  bytes_eq_refl, arith, Bool-cases, inl, inr,
}
use advinced_cache.KeyValue.{Bytes}
use advinced_cache.Clear.{
  is_empty, ClearController, token_response, forbidden, storage_cleared, hex_encode, token_ttl,
  is_live, hand_out, redeem, handle_clear,
}

module _ {S : Type 0} (clear : S → S) where
  with_token :
      (now a : ℕ) (xs : Bytes) (r : Option Bytes) (c : ClearController) (db : S)
      → handle_clear clear now (a ∷ xs) r c db ≡ redeem clear now (a ∷ xs) c db
  unfolding handle_clear is_empty
  with_token now a xs r c db = refl

  without_token :
      (now : ℕ) (r : Option Bytes) (c : ClearController) (db : S)
      → handle_clear clear now [] r c db ≡ hand_out clear now r c db
  unfolding handle_clear is_empty
  without_token now r c db = refl

  controller-redeem :
      (now : ℕ) (raw : Bytes) (c : ClearController) (db : S)
      → (redeem clear now raw c db).0 ≡ record { token = []; expires = 0 }
  unfolding redeem
  controller-redeem now raw c db = elim (Bool-cases (bytes_eq raw c.token && ltb now c.expires)) [
    | inl e ↦ rw e refl
    | inr e ↦ rw e refl
  ]

  redeem_spent :
      (now b : ℕ) (ys : Bytes) (c : ClearController) (db : S)
      → c.token ≡ []
      → redeem clear now (b ∷ ys) c db ≡ (record { token = []; expires = 0 }, db, forbidden)
  unfolding redeem bytes_eq
  redeem_spent now b ys c db e = rw e refl

  redeem_live :
      (now : ℕ) (raw : Bytes) (e : ℕ) (db : S)
      → now < e
      → redeem clear now raw (record { token = raw; expires = e }) db
        ≡ (record { token = []; expires = 0 }, clear db, storage_cleared)
  unfolding redeem
  redeem_live now raw e db h =
      let early : ltb now e ≡ true = ground arith in rw (bytes_eq_refl raw, early) refl

  hand_out_new :
      (now : ℕ) (bs : Bytes) (c : ClearController) (db : S)
      → is_live c now ≡ false
      → hand_out clear now (some bs) c db ≡ (
        record { token = hex_encode bs; expires = now + token_ttl },
        db,
        token_response (hex_encode bs) ((now + token_ttl) / 1_000_000),
      )
  unfolding hand_out
  hand_out_new now bs c db dead = rw dead refl

  -- Presenting any token, right or wrong, uses up the one that was handed out: a second token
  -- presented right after it, at whatever time, is refused and leaves the storage alone.
  pub handle_clear_once :
      (now later a b : ℕ) (xs ys : Bytes) (r r' : Option Bytes) (c : ClearController) (db : S)
      → let (c', db', reply) = handle_clear clear now (a ∷ xs) r c db in
        handle_clear clear later (b ∷ ys) r' c' db'
        ≡ (record { token = []; expires = 0 }, db', forbidden)
  handle_clear_once now later a b xs ys r r' c db =
      rw
        (
          with_token now a xs r c db,
          with_token later b ys r' (redeem clear now (a ∷ xs) c db).0
              (redeem clear now (a ∷ xs) c db).1,
        )
        (redeem_spent later b ys (redeem clear now (a ∷ xs) c db).0
          (redeem clear now (a ∷ xs) c db).1
          (ap (λ k. k.token) (controller-redeem now (a ∷ xs) c db)))

  -- A token that a request without one was answered with clears the storage when it is presented
  -- before its time is over, at a controller that had no live token and whose random source gave at
  -- least one byte.
  pub handle_clear_redeems :
      (now later b : ℕ) (bs : Bytes) (r : Option Bytes) (c : ClearController) (db : S)
      → is_live c now ≡ false
      → later < now + token_ttl
      → let (c', db', reply) = handle_clear clear now [] (some (b ∷ bs)) c db in
        handle_clear clear later (hex_encode (b ∷ bs)) r c' db'
        ≡ (record { token = []; expires = 0 }, clear db, storage_cleared)
  unfolding hex_encode
  handle_clear_redeems now later b bs r c db dead soon =
      rw
        (
          without_token now (some (b ∷ bs)) c db,
          hand_out_new now (b ∷ bs) c db dead,
          with_token later _ _ r (record { token = hex_encode (b ∷ bs); expires = now + token_ttl })
              db,
        )
        (redeem_live later (hex_encode (b ∷ bs)) (now + token_ttl) db soon)
