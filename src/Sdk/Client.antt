-- ===== src/Sdk/Client.antt =====
-- `isEnabled` and `getAllFeatures` of packages/sdk-js/src/client.ts. One call runs to its end before
-- the next: two calls that wait for the network at the same time are not modelled.
pub mod Failures
pub mod Quiet
use flagraft.Prelude.{
  ℕ, ◌+◌, ◌-◌, ◌*◌, min, Bool, true, false, not, ◌&&◌, ◌||◌, Option, none, some, List, [], ◌∷◌,
  ◌++◌, String, ◌==◌, leb, ltb, eqb, is_some, or_else, option_map, find, trim, text_append,
  if◌then◌else◌,
}
use flagraft.Client.Answers.{Feature, EvaluatedFeature, find_in_bulk}
use flagraft.Client.State.{sort_entries}
use flagraft.Evaluate.Flag.{Dictionary}
use flagraft.Sdk.Cache.{TtlCache, StaleHit, new_cache, max_cache_entries, get, get_stale, set}
use flagraft.Sdk.Transport.{
  missing_ttl_seconds, default_backoff_ms, max_backoff_ms, BulkEntry, StaleEvent, ClientState,
  new_client, Thrown, Answer, Response, Request, Millis, Platform, is_caller_error, is_not_found,
  is_thrown_on, clamp, backing_off, report_stale, is_passed_on, error_of, body_of, bulk_body,
  tag_to_send, mark_missing, stale_in_bulk, next_entry, make_key, parse_retry_after, start_backoff,
  receive, send, fetch_single, fetch_all, answered, failed, flagraft_error, exception, ahead,
  behind, parse_trimmed,
}

module _ {V : Type 0} (p : Platform V) where
  -- The catch block of `isEnabled` after the 404: a stale answer, a stale list, the error of a
  -- caller, the default.
  unfoldable pub fall_back :
      ℕ → String → Dictionary V → Bool → Thrown → ClientState → Answer Bool × ClientState
  unfolding get_stale make_key report_stale stale_in_bulk
  fall_back now flag_key context default_value e st =
      let s = get_stale now (make_key p flag_key context) st.single_cache in
      let st1 = record st { single_cache = s.1 } in
      elim s.0 [
        | some stale ↦
            (answered stale.value.enabled, report_stale (some flag_key) stale.stored_at st1)
        | none ↦
            let b = get_stale now (make_key p "__all__" context) st1.bulk_cache in
            let st2 = record st1 { bulk_cache = b.1 } in
            elim (stale_in_bulk b.0 flag_key) [
              | some (enabled, stored_at) ↦
                  (answered enabled, report_stale (some flag_key) stored_at st2)
              | none ↦ (if is_thrown_on e then failed e else answered default_value, st2)
            ]
      ]

  -- The try block of `isEnabled` once the request is answered, and the 404 of its catch block.
  unfoldable pub settle :
      ℕ
      → String
      → Dictionary V
      → Bool
      → Answer EvaluatedFeature × ClientState
      → Answer Bool × ClientState
  unfolding fall_back make_key set
  settle now flag_key context default_value (answered result, st) = (
    answered result.enabled,
    record st { single_cache = set now (make_key p flag_key context) result st.single_cache },
  )
  settle now flag_key context default_value (failed e, st) =
      if is_not_found e
      then (answered default_value, mark_missing now flag_key st)
      else fall_back now flag_key context default_value e st

  -- What `isEnabled` does once the two caches for one flag have no answer.
  unfoldable pub ask_bulk :
      ℕ → ℕ → String → Dictionary V → Bool → ClientState → Answer Bool × ClientState
  unfolding get make_key find_in_bulk settle fetch_single
  ask_bulk asked at_reply flag_key context default_value st =
      let b = get asked (make_key p "__all__" context) st.bulk_cache in
      let st1 = record st { bulk_cache = b.1 } in
      elim b.0 [
        | some bulk ↦ elim (find_in_bulk bulk.features flag_key) [
          | some enabled ↦ (answered enabled, st1)
          | none ↦ (answered default_value, mark_missing asked flag_key st1)
        ]
        | none ↦
            settle at_reply flag_key context default_value
              (fetch_single p asked at_reply flag_key context st1)
      ]

  unfoldable pub is_enabled :
      ℕ → ℕ → String → Dictionary V → Bool → ClientState → Answer Bool × ClientState
  unfolding get make_key ask_bulk
  is_enabled asked at_reply flag_key context default_value st =
      let m = get asked flag_key st.missing_cache in
      let st1 = record st { missing_cache = m.1 } in
      if is_some m.0
      then (answered default_value, st1)
      else let s = get asked (make_key p flag_key context) st1.single_cache in
        let st2 = record st1 { single_cache = s.1 } in
        elim s.0 [
          | some cached ↦ (answered cached.enabled, st2)
          | none ↦ ask_bulk asked at_reply flag_key context default_value st2
        ]

  unfoldable pub settle_all :
      ℕ
      → Dictionary V
      → Option (StaleHit BulkEntry)
      → Answer (Option (List Feature) × Option String) × ClientState
      → Answer (List Feature) × ClientState
  unfolding get_stale set make_key report_stale
  settle_all now context previous (answered result, st) =
      let entry = next_entry previous result in
      (
        answered entry.features,
        record st { bulk_cache = set now (make_key p "__all__" context) entry st.bulk_cache },
      )
  settle_all now context previous (failed e, st) =
      let b = get_stale now (make_key p "__all__" context) st.bulk_cache in
      let st1 = record st { bulk_cache = b.1 } in
      elim b.0 [
        | some stale ↦ (answered stale.value.features, report_stale none stale.stored_at st1)
        | none ↦ (if is_thrown_on e then failed e else answered [], st1)
      ]

  unfoldable pub get_all_features :
      ℕ → ℕ → Dictionary V → ClientState → Answer (List Feature) × ClientState
  unfolding get get_stale make_key settle_all fetch_all
  get_all_features asked at_reply context st =
      let b = get asked (make_key p "__all__" context) st.bulk_cache in
      let st1 = record st { bulk_cache = b.1 } in
      elim b.0 [
        | some cached ↦ (answered cached.features, st1)
        | none ↦
            let previous = get_stale asked (make_key p "__all__" context) st1.bulk_cache in
            let st2 = record st1 { bulk_cache = previous.1 } in
            settle_all at_reply context previous.0 (
              fetch_all p asked at_reply context
                (elim previous.0 [ none ↦ none | some hit ↦ hit.value.etag ]) st2)
      ]
