-- ===== src/Sdk/Transport.antt =====
-- The state and the transport of `FlagraftClient`, packages/sdk-js/src/client.ts. A call reads the
-- clock when it starts (`asked`) and again when the response has come or failed (`at_reply`). The
-- network is a function from the request to what came back; what `console.warn` prints is left out.
use flagraft.Prelude.{
  ℕ, ◌+◌, ◌-◌, min, Bool, true, false, not, ◌&&◌, ◌||◌, Option, none, some, List, [], ◌∷◌, ◌++◌,
  String, ◌==◌, leb, ltb, eqb, or_else, option_map, trim, text_append, if◌then◌else◌,
}
use flagraft.Client.Answers.{Feature, EvaluatedFeature, find_in_bulk}
use flagraft.Client.State.{sort_entries}
use flagraft.Evaluate.Flag.{Dictionary}
use flagraft.Sdk.Cache.{TtlCache, StaleHit, new_cache, max_cache_entries, set}

abbrev pub missing_ttl_seconds : ℕ
missing_ttl_seconds = 5

abbrev pub default_backoff_ms : ℕ
default_backoff_ms = 5000

abbrev pub max_backoff_ms : ℕ
max_backoff_ms = 60000

pub record BulkEntry : Type 0 where
  pub features : List Feature
  pub etag : Option String

-- `reportStale`: to the callback or, where there is none, to the console.
pub record StaleEvent : Type 0 where
  pub flag_key : Option String
  pub fetched_at : ℕ

pub record ClientState : Type 0 where
  pub single_cache : TtlCache EvaluatedFeature
  pub bulk_cache : TtlCache BulkEntry
  pub missing_cache : TtlCache Bool
  pub rate_limited_until : ℕ
  pub reported : List StaleEvent

-- The constructor's caches, for a `ttl` and a `staleTtl` in whole seconds.
unfoldable pub new_client : ℕ → ℕ → ClientState
unfolding new_cache
new_client ttl stale_ttl = record {
  single_cache = new_cache ttl stale_ttl max_cache_entries;
  bulk_cache = new_cache ttl stale_ttl max_cache_entries;
  missing_cache = new_cache (if eqb ttl 0 then 0 else missing_ttl_seconds) 0 max_cache_entries;
  rate_limited_until = 0;
  reported = [];
}

-- A `FlagraftError` with its three fields, or any other exception: no connection, a timeout, a
-- body that is not JSON.
pub data Thrown : Type 0 where
  flagraft_error : String → ℕ → String → Thrown
  exception : Thrown

pub data Answer (A : Type 0) : Type 0 where
  answered : A → Answer A
  failed : Thrown → Answer A

-- A response; a body that is not JSON is `none`. One that is JSON has the form that the source casts it
-- to, but that the list may be missing from the object: other forms are not modelled.
pub record Response : Type 0 where
  pub status : ℕ
  pub status_text : String
  pub retry_after : Option String
  pub etag : Option String
  pub feature : Option EvaluatedFeature
  pub features : Option (Option (List Feature))
  pub error_message : Option String
  pub error_code : Option String

-- A request: the flag of the single endpoint or none for the list, the context's query, the tag.
pub record Request : Type 0 where
  pub flag_key : Option String
  pub query : String
  pub if_none_match : Option String

-- A finite number or a date of a header in milliseconds, to the future or to the past.
pub data Millis : Type 0 where
  ahead behind : ℕ → Millis

-- What the client calls: `fetch` (none where it throws), `Number(text) * 1000` where it is finite,
-- `Date.parse`, `JSON.stringify` of the sorted context, and the query string of the context.
pub record Platform (V : Type 0) : Type 0 where
  pub fetch : Request → Option Response
  pub number_ms : String → Option Millis
  pub date_ms : String → Option ℕ
  pub stringify : Dictionary V → String
  pub query_string : Dictionary V → String

abbrev pub is_caller_error : ℕ → Bool
is_caller_error status = leb 400 status && ltb status 500 && not (eqb status 429)

abbrev pub is_not_found : Thrown → Bool
is_not_found (flagraft_error message status code) = eqb status 404
is_not_found exception = false

abbrev pub is_thrown_on : Thrown → Bool
is_thrown_on (flagraft_error message status code) = is_caller_error status
is_thrown_on exception = false

abbrev pub clamp : Millis → ℕ
clamp (ahead ms) = min max_backoff_ms ms
clamp (behind ms) = 0

abbrev pub backing_off : ℕ → ClientState → Bool
backing_off now st = ltb now st.rate_limited_until

unfoldable pub report_stale : Option String → ℕ → ClientState → ClientState
report_stale flag_key stored_at st = record st {
  reported = st.reported ++ record { flag_key = flag_key; fetched_at = stored_at } ∷ [];
}

-- What the response's status makes of it: 304 and the 2xx are passed on.
abbrev pub is_passed_on : Response → Bool
is_passed_on r = leb 200 r.status && ltb r.status 300 || eqb r.status 304

-- `throwFromResponse`
abbrev pub error_of : Response → Thrown
error_of r =
    flagraft_error (or_else r.error_message r.status_text) r.status
      (or_else r.error_code "HttpError")

-- `response.json()`, which throws where there is no JSON.
unfoldable pub body_of : {A : Type 0} → (Response → Option A) → Answer Response → Answer A
body_of f (failed e) = failed e
body_of f (answered r) = elim (f r) [ none ↦ failed exception | some a ↦ answered a ]

-- What a 200 or a 304 brings: the features, none where they are those of before, and the tag.
abbrev pub bulk_body : Response → Option (Option (List Feature) × Option String)
bulk_body r =
    if eqb r.status 304
    then some (none, r.etag)
    else option_map (λ features. (some (or_else features []), r.etag)) r.features

-- An empty tag is not sent.
abbrev pub tag_to_send : Option String → Option String
tag_to_send none = none
tag_to_send (some tag) = if tag == "" then none else some tag

abbrev pub mark_missing : ℕ → String → ClientState → ClientState
mark_missing now flag_key st = record st { missing_cache = set now flag_key true st.missing_cache }

-- The flag in a stale bulk response, with the time at which that was stored.
unfoldable pub stale_in_bulk : Option (StaleHit BulkEntry) → String → Option (Bool × ℕ)
unfolding find_in_bulk
stale_in_bulk none flag_key = none
stale_in_bulk (some hit) flag_key =
    option_map (λ enabled. (enabled, hit.stored_at)) (find_in_bulk hit.value.features flag_key)

-- `result.features === null && previous ? … : …`
abbrev pub next_entry :
    Option (StaleHit BulkEntry) → Option (List Feature) × Option String → BulkEntry
next_entry (some previous) (none, etag) = record {
  features = previous.value.features;
  etag = elim etag [ some tag ↦ some tag | none ↦ previous.value.etag ];
}
next_entry none (none, etag) = record { features = []; etag = etag }
next_entry previous (some features, etag) = record { features = features; etag = etag }

module _ {V : Type 0} (p : Platform V) where
  unfoldable pub make_key : String → Dictionary V → String
  unfolding sort_entries
  make_key flag_key context =
      text_append flag_key (text_append ":" (p.stringify (sort_entries context)))

  -- A text that is empty once trimmed counts as no header.
  unfoldable pub parse_trimmed : ℕ → String → ℕ
  parse_trimmed now text = if text == "" then default_backoff_ms else elim (p.number_ms text) [
    | some ms ↦ clamp ms
    | none ↦ elim (p.date_ms text) [
      | some at_ms ↦ clamp (ahead (at_ms - now))
      | none ↦ default_backoff_ms
    ]
  ]

  unfoldable pub parse_retry_after : ℕ → Option String → ℕ
  unfolding parse_trimmed trim
  parse_retry_after now header = elim header [
    | none ↦ default_backoff_ms
    | some text ↦ parse_trimmed now (trim text)
  ]

  -- `startBackoff`
  unfoldable pub start_backoff : ℕ → Option String → ClientState → ClientState
  unfolding parse_retry_after
  start_backoff now retry_after st = record st {
    rate_limited_until = now + parse_retry_after now retry_after;
  }

  unfoldable pub receive : ℕ → Option Response → ClientState → Answer Response × ClientState
  unfolding start_backoff
  receive now none st = (failed exception, st)
  receive now (some r) st = if is_passed_on r then (answered r, st) else (
    failed (error_of r),
    if eqb r.status 429 then start_backoff now r.retry_after st else st,
  )

  unfoldable pub send : ℕ → ℕ → Request → ClientState → Answer Response × ClientState
  unfolding receive
  send asked at_reply request st =
      if backing_off asked st
      then (failed (flagraft_error "Backing off after a rate limit" 429 "TooManyRequests"), st)
      else receive at_reply (p.fetch request) st

  unfoldable pub fetch_single :
      ℕ → ℕ → String → Dictionary V → ClientState → Answer EvaluatedFeature × ClientState
  unfolding send body_of
  fetch_single asked at_reply flag_key context st =
      let r =
        send asked at_reply
          (record {
            flag_key = some flag_key;
            query = p.query_string context;
            if_none_match = none;
          })
          st in
      (body_of (λ (x : Response). x.feature) r.0, r.1)

  unfoldable pub fetch_all :
      ℕ
      → ℕ
      → Dictionary V
      → Option String
      → ClientState
      → Answer (Option (List Feature) × Option String) × ClientState
  unfolding send body_of
  fetch_all asked at_reply context if_none_match st =
      let r =
        send asked at_reply
          (record {
            flag_key = none;
            query = p.query_string context;
            if_none_match = tag_to_send if_none_match;
          })
          st in
      (body_of bulk_body r.0, r.1)
