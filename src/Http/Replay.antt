-- ===== src/Http/Replay.antt =====
-- `send` of backend/server.ts with the records of backend/network-idempotency.ts: a request that is sent
-- again under its key is answered from the record. The handler, and the hash of the body, are
-- parameters; requests under one key run one after the other.
use restaurant_pos.Base.{ℕ, Bool, true, false, not, ◌&&◌, Option, none, some, ◌==◌, if◌then◌else◌}
use restaurant_pos.Base.Text.{Text, trim, same_text, is_blank_text}
use restaurant_pos.Base.Result.{Result, ok, err, key_reused}
use restaurant_pos.Settings.Types.{Dict}
use restaurant_pos.Settings.Normalize.{lookup, assign}

-- The methods that are never replayed, and any other by its upper-case text
pub data Method : Type 0 where
  get_method head_method options_method : Method
  method : Text → Method

-- What `idempotencyFingerprint` keeps of a request
pub record Fingerprint : Type 0 where
  pub user : Option ℕ
  pub method : Method
  pub path : Text
  pub body_hash : ℕ

pub record Request : Type 0 where
  pub key : Text
  pub fingerprint : Fingerprint

pub record Response (Body : Type 0) : Type 0 where
  pub status : ℕ
  pub body : Body
  pub replayed : Bool

-- `IdempotencyRecord`
pub record ReplayRecord (Body : Type 0) : Type 0 where
  pub fingerprint : Fingerprint
  pub status : ℕ
  pub body : Body

abbrev pub same_method : Method → Method → Bool
same_method get_method get_method = true
same_method head_method head_method = true
same_method options_method options_method = true
same_method (method s) (method t) = same_text s t
same_method _ _ = false

abbrev pub same_user : Option ℕ → Option ℕ → Bool
same_user none none = true
same_user (some a) (some b) = a == b
same_user _ _ = false

unfoldable pub idempotency_matches : Fingerprint → Fingerprint → Bool
idempotency_matches f g =
    same_user f.user g.user
    && (same_method f.method g.method && (same_text f.path g.path && f.body_hash == g.body_hash))

abbrev pub writes : Method → Bool
writes get_method = false
writes head_method = false
writes options_method = false
writes (method t) = true

unfoldable pub can_replay : Request → Bool
unfolding trim
can_replay r = not (is_blank_text (trim r.key)) && writes r.fingerprint.method

module _ {Body World : Type 0} (handler : Request → World → Result Body × World) (status : ℕ) where
  -- The response with the records and the world afterwards; a handler that throws leaves no record.
  unfoldable pub send :
      Request
      → Dict (ReplayRecord Body)
      → World
      → Result (Response Body) × Dict (ReplayRecord Body) × World
  unfolding can_replay idempotency_matches lookup assign trim
  send r records w =
      let key = trim r.key in
      let (result, after) = handler r w in
      let existing = if can_replay r then lookup records key else none in
      elim existing [
        | some x ↦
            if idempotency_matches x.fingerprint r.fingerprint
            then (ok (record { status = x.status; body = x.body; replayed = true }), records, w)
            else (err key_reused, records, w)
        | none ↦ elim result [
          | err e ↦ (err e, records, after)
          | ok body ↦ (
            ok (record { status = status; body = body; replayed = false }),
            (if can_replay r
                then assign records key
                    (record { fingerprint = r.fingerprint; status = status; body = body })
                else records),
            after,
          )
        ]
      ]
