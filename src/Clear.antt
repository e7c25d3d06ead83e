-- ===== src/Clear.antt =====
-- internal/cache/api/clear.go and on_off.go: the clear endpoint with its one-time token, and the
-- switch. Times are Unix nanoseconds and the zero `time.Time` is 0; `clear` is `Storage.Clear`, and
-- `random` what `crypto/rand` yields, `none` for its error.
pub mod Token
use advinced_cache.Prelude.{
  ℕ, zero, suc, ◌+◌, ◌*◌, ◌/◌, ◌%◌, ◌<◌, ◌≡◌, Bool, true, false, not, ◌&&◌, Option, none, some,
  List, [], ◌∷◌, ltb, bytes_eq, if◌then◌else◌,
}
use advinced_cache.KeyValue.{Bytes}

-- `s == ""`.
unfoldable pub is_empty : Bytes → Bool
is_empty [] = true
is_empty (_ ∷ _) = false

pub record ClearController : Type 0 where
  pub token : Bytes
  pub expires : ℕ

abbrev pub new_clear_controller : ClearController
new_clear_controller = record { token = []; expires = 0 }

-- The status and the JSON body of the answers.
pub data ClearReply : Type 0 where
  token_response : Bytes → ℕ → ClearReply
  internal_error : ClearReply
  forbidden : ClearReply
  storage_cleared : ClearReply

-- `hex.EncodeToString`.
hex_digit : ℕ → ℕ
hex_digit n = if ltb n 10 then 48 + n else 87 + n

unfoldable pub hex_encode : Bytes → Bytes
unfolding hex_digit
hex_encode [] = []
hex_encode (b ∷ bs) = hex_digit (b / 16) ∷ hex_digit (b % 16) ∷ hex_encode bs

-- `5 * time.Minute`.
abbrev pub token_ttl : ℕ
token_ttl = 300_000_000_000

-- `now.Before(c.expires)` with a token that is there.
unfoldable pub is_live : ClearController → ℕ → Bool
is_live c now = not (is_empty c.token) && ltb now c.expires

module _ {S : Type 0} (clear : S → S) where
  -- The request without a token.
  unfoldable pub hand_out :
      ℕ → Option Bytes → ClearController → S → ClearController × S × ClearReply
  unfolding hex_encode
  hand_out now random c db =
      if is_live c now
      then (c, db, token_response c.token (c.expires / 1_000_000))
      else elim random [
        | none ↦ (c, db, internal_error)
        | some b ↦
            let tok = hex_encode b in
            let exp = now + token_ttl in
            (record c { token = tok; expires = exp }, db, token_response tok (exp / 1_000_000))
      ]

  -- The request with the token `raw`.
  unfoldable pub redeem : ℕ → Bytes → ClearController → S → ClearController × S × ClearReply
  redeem now raw c db =
      let valid = bytes_eq raw c.token && ltb now c.expires in
      let c = record c { token = []; expires = 0 } in
      if not valid then (c, db, forbidden) else (c, clear db, storage_cleared)

  unfoldable pub handle_clear :
      ℕ → Bytes → Option Bytes → ClearController → S → ClearController × S × ClearReply
  handle_clear now raw random c db =
      if is_empty raw then hand_out now random c db else redeem now raw c db

-- `On` and `Off`: the switch and the answer.
pub record OnOffStatus : Type 0 where
  pub enabled : Bool
  pub message : Bytes

abbrev pub on : Bool → Bool × OnOffStatus
on _ = (
  true,
  record {
    enabled = true;
    message = 99 ∷ 97 ∷ 99 ∷ 104 ∷ 101 ∷ 32 ∷ 101 ∷ 110 ∷ 97 ∷ 98 ∷ 108 ∷ 101 ∷ 100 ∷ [];
  },
)

abbrev pub off : Bool → Bool × OnOffStatus
off _ = (
  false,
  record {
    enabled = false;
    message = 99 ∷ 97 ∷ 99 ∷ 104 ∷ 101 ∷ 32 ∷ 100 ∷ 105 ∷ 115 ∷ 97 ∷ 98 ∷ 108 ∷ 101 ∷ 100 ∷ [];
  },
)
