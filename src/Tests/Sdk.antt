-- ===== src/Tests/Sdk.antt =====
-- The theorems on the JavaScript client at a sample network and cache.
use flagraft.Prelude.{
  ℕ, ◌+◌, ◌-◌, true, ◌&&◌, Option, none, some, [], ◌≡◌, refl, leb, ltb, if◌then◌else◌,
}
use flagraft.Sdk.Cache.{TtlCache, new_cache, get, get_stale, set}
use flagraft.Sdk.Cache.Bounds.{IsBounded, CacheStep, CacheSteps, CacheSteps-IsBounded}
use flagraft.Sdk.Cache.Reads.{get-set}
use flagraft.Sdk.Transport.{Platform, Request, Response, ahead, ClientState, new_client}
use flagraft.Sdk.Client.{is_enabled, get_all_features}
use flagraft.Sdk.Client.Quiet.{no_request_while_backing_off}

abbrev small_cache : TtlCache ℕ
small_cache = new_cache 30 300 2

abbrev three_sets : TtlCache ℕ
three_sets = set 3 "c" 3 (set 2 "b" 2 (set 1 "a" 1 small_cache))

three_calls : CacheSteps small_cache three_sets
three_calls = CacheSteps.call (CacheStep.stored 1 "a" 1) (
    CacheSteps.call (CacheStep.stored 2 "b" 2)
      (CacheSteps.call (CacheStep.stored 3 "c" 3) CacheSteps.stop))

CacheSteps-IsBounded_example : IsBounded three_sets
CacheSteps-IsBounded_example = CacheSteps-IsBounded 30 300 2 three_calls

get-set_example :
    ((get 40000 "a" (set 1000 "a" 7 small_cache)).0
      ≡ (if ltb (40000 - 1000) 30000 then some 7 else none))
    × ((get_stale 40000 "a" (set 1000 "a" 7 small_cache)).0 ≡ (
        if leb 30000 (40000 - 1000) && ltb (40000 - 1000) (30000 + 300000)
        then some (record { value = 7; stored_at = 1000 })
        else none))
unfolding new_cache
get-set_example = get-set 1000 40000 "a" 7 small_cache refl

abbrev limited : Response
limited = record {
  status = 429;
  status_text = "Too Many Requests";
  retry_after = some "3600";
  etag = none;
  feature = none;
  features = none;
  error_message = none;
  error_code = none;
}

abbrev sample_platform : Platform ℕ
sample_platform = record {
  fetch = λ r. some limited;
  number_ms = λ s. some (ahead 3600000);
  date_ms = λ s. none;
  stringify = λ c. "{}";
  query_string = λ c. "";
}

abbrev fresh_client : ClientState
fresh_client = new_client 30 300

abbrev quiet_client : ClientState
quiet_client = record fresh_client { rate_limited_until = 500 }

abbrev offline : Request → Option Response
offline r = none

no_request_while_backing_off_example :
    (is_enabled (record sample_platform { fetch = offline }) 10 20 "checkout" [] true quiet_client
      ≡ is_enabled sample_platform 10 20 "checkout" [] true quiet_client)
    × (get_all_features (record sample_platform { fetch = offline }) 10 20 [] quiet_client
        ≡ get_all_features sample_platform 10 20 [] quiet_client)
no_request_while_backing_off_example =
    no_request_while_backing_off sample_platform offline 10 20 "checkout" [] true quiet_client refl

abbrev list_request : Request
list_request = record { flag_key = none; query = ""; if_none_match = none }
