-- ===== src/Http/Once.antt =====
-- A request that is sent twice under its key is carried out once.
use restaurant_pos.Base.{
  ℕ, ◌≡◌, refl, ◌∙◌, ap, inl, inr, true, Option, none, some, arith, Bool-cases, if◌then◌else◌,
  eq_refl,
}
use restaurant_pos.Base.Text.{trim, same_text_refl}
use restaurant_pos.Base.Result.{Result, Result-cases, ok, err, key_reused}
use restaurant_pos.Settings.Types.{Dict}
use restaurant_pos.Settings.Normalize.{lookup}
use restaurant_pos.Settings.Dicts.{lookup-assign_self}
use restaurant_pos.Http.Replay.{
  Method, get_method, head_method, options_method, method, Fingerprint, Request, Response,
  ReplayRecord, idempotency_matches, can_replay, send, same_user, same_method,
}

same_user_refl : (u : Option ℕ) → same_user u u ≡ true
same_user_refl none = refl
same_user_refl (some a) = eq_refl a

same_method_refl : (m : Method) → same_method m m ≡ true
same_method_refl get_method = refl
same_method_refl head_method = refl
same_method_refl options_method = refl
same_method_refl (method t) = same_text_refl t

matches_refl : (f : Fingerprint) → idempotency_matches f f ≡ true
unfolding idempotency_matches
matches_refl f =
    let u = same_user_refl f.user in
    let m = same_method_refl f.method in let p = same_text_refl f.path in ground arith

module _ {Body World : Type 0} (handler : Request → World → Result Body × World) (status : ℕ) where
  -- The record that a request leaves when it is carried out
  send-leaves :
      (r : Request) (records left : Dict (ReplayRecord Body)) (w after : World) (x : Response Body)
      → can_replay r ≡ true
      → lookup records (trim r.key) ≡ none
      → send handler status r records w ≡ (ok x, left, after)
      → lookup left (trim r.key)
        ≡ some (record { fingerprint = r.fingerprint; status = x.status; body = x.body })
  unfolding send
  send-leaves r records left w after x c e h = elim (Result-cases (handler r w).0) [
    | inr (z, f) ↦ ground arith
    | inl (b, f) ↦
        let here =
          lookup-assign_self records (trim r.key)
            (record { fingerprint = r.fingerprint; status = status; body = b }) in
        ground arith
  ]

  -- A write that went through under a new key is not carried out again: the same request under that
  -- key gets the status and the body of the first answer, in whatever state it comes, and a different
  -- request under that key is refused; neither changes anything.
  pub send_once :
      (r q : Request) (records left : Dict (ReplayRecord Body)) (w after later : World)
      (x : Response Body)
      → can_replay r ≡ true
      → lookup records (trim r.key) ≡ none
      → send handler status r records w ≡ (ok x, left, after)
      → q.key ≡ r.key
      → can_replay q ≡ true
      → send handler status q left later ≡ (
        (if idempotency_matches r.fingerprint q.fingerprint
            then ok (record { status = x.status; body = x.body; replayed = true })
            else err key_reused),
        left,
        later,
      )
  unfolding send
  send_once r q records left w after later x c e h k d =
      let stored = send-leaves r records left w after x c e h in
      let there : lookup left (trim q.key)
          ≡ some (record { fingerprint = r.fingerprint; status = x.status; body = x.body }) =
        ap (λ t. lookup left (trim t)) k ∙ stored in
      elim (Bool-cases (idempotency_matches r.fingerprint q.fingerprint)) [
        | inl m ↦ ground arith
        | inr m ↦ ground arith
      ]

  -- The same request again is answered from the record.
  pub send_again :
      (r : Request) (records left : Dict (ReplayRecord Body)) (w after later : World)
      (x : Response Body)
      → can_replay r ≡ true
      → lookup records (trim r.key) ≡ none
      → send handler status r records w ≡ (ok x, left, after)
      → send handler status r left later
        ≡ (ok (record { status = x.status; body = x.body; replayed = true }), left, later)
  send_again r records left w after later x c e h =
      let same = matches_refl r.fingerprint in
      send_once r r records left w after later x c e h refl c ∙ ground arith
