-- ===== src/Sdk/Client/Quiet.antt =====
-- The quiet period after a 429 in packages/sdk-js/src/client.ts.
use flagraft.Prelude.{
  ℕ, ◌+◌, ◌-◌, ◌≤◌, max, Bool, true, Option, none, some, String, ◌==◌, ◌≡◌, ◌∙◌, ap, refl, arith,
  is_some, eqb, trim, Bool-cases, Option-cases, inl, inr, if_both,
}
use flagraft.Client.Answers.{EvaluatedFeature}
use flagraft.Sdk.Cache.{get, get_stale}
use flagraft.Evaluate.Flag.{Dictionary}
use flagraft.Sdk.Transport.{
  clamp, Platform, ClientState, Request, Response, Millis, ahead, behind, Answer, max_backoff_ms,
  backing_off, parse_trimmed, parse_retry_after, start_backoff, is_passed_on, receive, send,
  fetch_single, fetch_all, make_key,
}
use flagraft.Sdk.Client.{settle, fall_back, settle_all, ask_bulk, is_enabled, get_all_features}

module _ {V : Type 0} (p : Platform V) where
  clamp_le : (ms : Millis) → clamp ms ≤ max_backoff_ms
  clamp_le (ahead ms) = ground arith
  clamp_le (behind ms) = omega arith

  parse_trimmed_le : (now : ℕ) (text : String) → parse_trimmed p now text ≤ max_backoff_ms
  unfolding parse_trimmed
  parse_trimmed_le now text =
      if_both (λ ms. ms ≤ max_backoff_ms) (text == "") (omega arith)
        (elim (Option-cases (p.number_ms text)) [
          | inr (ms, h) ↦ rw h (clamp_le ms)
          | inl h ↦ elim (Option-cases (p.date_ms text)) [
            | inr (at_ms, k) ↦ rw (h, k) (clamp_le (ahead (at_ms - now)))
            | inl k ↦ rw (h, k) (omega arith)
          ]
        ])

  parse_retry_after_le :
      (now : ℕ) (header : Option String) → parse_retry_after p now header ≤ max_backoff_ms
  unfolding parse_retry_after
  parse_retry_after_le now none = omega arith
  parse_retry_after_le now (some text) = parse_trimmed_le now (trim text)

  receive_le :
      (now : ℕ) (r : Option Response) (st : ClientState)
      → (receive p now r st).1.rate_limited_until ≤ max st.rate_limited_until (now + max_backoff_ms)
  unfolding receive start_backoff
  receive_le now none st = ground arith
  receive_le now (some r) st =
      if_both
        (λ (x : Answer Response × ClientState).
          x.1.rate_limited_until ≤ max st.rate_limited_until (now + max_backoff_ms))
        (is_passed_on r) (ground arith)
        (if_both
          (λ (x : ClientState).
            x.rate_limited_until ≤ max st.rate_limited_until (now + max_backoff_ms))
          (eqb r.status 429) (ground (arith, parse_retry_after_le now r.retry_after))
          (ground arith))

  module _ (fetch : Request → Option Response) where
    other : Platform V
    other = record p { fetch = fetch }

    send_quiet :
        (asked at_reply : ℕ) (request : Request) (st : ClientState)
        → backing_off asked st ≡ true
        → send other asked at_reply request st ≡ send p asked at_reply request st
    unfolding send
    send_quiet asked at_reply request st h = rw (h, send) refl

    fetch_single_quiet :
        (asked at_reply : ℕ) (flag_key : String) (context : Dictionary V) (st : ClientState)
        → backing_off asked st ≡ true
        → fetch_single other asked at_reply flag_key context st
          ≡ fetch_single p asked at_reply flag_key context st
    unfolding fetch_single send other
    fetch_single_quiet asked at_reply flag_key context st h = rw (h, send) refl

    fetch_all_quiet :
        (asked at_reply : ℕ) (context : Dictionary V) (tag : Option String) (st : ClientState)
        → backing_off asked st ≡ true
        → fetch_all other asked at_reply context tag st ≡ fetch_all p asked at_reply context tag st
    unfolding fetch_all send other
    fetch_all_quiet asked at_reply context tag st h = rw (h, send) refl

    settle_same :
        (now : ℕ) (flag_key : String) (context : Dictionary V) (d : Bool)
        (r : Answer EvaluatedFeature × ClientState)
        → settle other now flag_key context d r ≡ settle p now flag_key context d r
    unfolding settle fall_back make_key other
    settle_same now flag_key context d r = refl

    ask_bulk_quiet :
        (asked at_reply : ℕ) (flag_key : String) (context : Dictionary V) (d : Bool)
        (st : ClientState)
        → backing_off asked st ≡ true
        → ask_bulk other asked at_reply flag_key context d st
          ≡ ask_bulk p asked at_reply flag_key context d st
    unfolding ask_bulk make_key other
    ask_bulk_quiet asked at_reply flag_key context d st h =
        let b = get asked (make_key p "__all__" context) st.bulk_cache in
        let st1 = record st { bulk_cache = b.1 } in
        elim (Option-cases b.0) [
          | inl e ↦
              rw (e, ask_bulk)
                (settle_same at_reply flag_key context d
                    (fetch_single other asked at_reply flag_key context st1)
                  ∙ ap (settle p at_reply flag_key context d)
                      (fetch_single_quiet asked at_reply flag_key context st1 h))
          | inr (x, e) ↦ rw (e, ask_bulk) refl
        ]

    is_enabled_quiet :
        (asked at_reply : ℕ) (flag_key : String) (context : Dictionary V) (d : Bool)
        (st : ClientState)
        → backing_off asked st ≡ true
        → is_enabled other asked at_reply flag_key context d st
          ≡ is_enabled p asked at_reply flag_key context d st
    unfolding is_enabled make_key other
    is_enabled_quiet asked at_reply flag_key context d st h =
        let m = get asked flag_key st.missing_cache in
        let s = get asked (make_key p flag_key context) st.single_cache in
        elim (Bool-cases (is_some m.0)) [
          | inl e ↦ rw (e, is_enabled) refl
          | inr e ↦ elim (Option-cases s.0) [
            | inl k ↦
                rw (e, k, is_enabled)
                  (ask_bulk_quiet asked at_reply flag_key context d
                    (record st { single_cache = s.1; missing_cache = m.1 }) h)
            | inr (x, k) ↦ rw (e, k, is_enabled) refl
          ]
        ]

    get_all_features_quiet :
        (asked at_reply : ℕ) (context : Dictionary V) (st : ClientState)
        → backing_off asked st ≡ true
        → get_all_features other asked at_reply context st
          ≡ get_all_features p asked at_reply context st
    unfolding get_all_features settle_all make_key other
    get_all_features_quiet asked at_reply context st h =
        let b = get asked (make_key p "__all__" context) st.bulk_cache in
        let previous = get_stale asked (make_key p "__all__" context) b.1 in
        elim (Option-cases b.0) [
          | inl e ↦
              rw (e, get_all_features)
                (ap (settle_all p at_reply context previous.0) (
                  fetch_all_quiet asked at_reply context
                    (elim previous.0 [ none ↦ none | some hit ↦ hit.value.etag ])
                    (record st { bulk_cache = previous.1 }) h))
          | inr (x, e) ↦ rw (e, get_all_features) refl
        ]

-- While the client backs off, both calls answer, and leave the state, as they would with any
-- other network: no request goes out.
pub no_request_while_backing_off :
    {V : Type 0} (p : Platform V) (fetch : Request → Option Response) (asked at_reply : ℕ)
    (flag_key : String) (context : Dictionary V) (default_value : Bool) (st : ClientState)
    → backing_off asked st ≡ true
    → (is_enabled (record p { fetch = fetch }) asked at_reply flag_key context default_value st
        ≡ is_enabled p asked at_reply flag_key context default_value st)
      × (get_all_features (record p { fetch = fetch }) asked at_reply context st
          ≡ get_all_features p asked at_reply context st)
unfolding other
no_request_while_backing_off p fetch asked at_reply flag_key context default_value st h = (
  is_enabled_quiet p fetch asked at_reply flag_key context default_value st h,
  get_all_features_quiet p fetch asked at_reply context st h,
)

-- A request moves the end of the quiet period to at most 60 seconds after the response, whatever
-- the Retry-After header says, or leaves it where it was.
pub send-rate_limited_until :
    {V : Type 0} (p : Platform V) (asked at_reply : ℕ) (request : Request) (st : ClientState)
    → (send p asked at_reply request st).1.rate_limited_until
      ≤ max st.rate_limited_until (at_reply + max_backoff_ms)
unfolding send
send-rate_limited_until p asked at_reply request st =
    if_both
      (λ (x : Answer Response × ClientState).
        x.1.rate_limited_until ≤ max st.rate_limited_until (at_reply + max_backoff_ms))
      (backing_off asked st) (ground arith) (receive_le p at_reply (p.fetch request) st)
