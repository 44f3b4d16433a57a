-- ===== src/Service/DoService/Examples.antt =====
-- Two fetches, of which the second has no client. The second request of the first is not sent, and its first
-- request is answered when the thread of do_service has ended; one key was cached.
use Prim.Native.String.{String}
use text.Mathlib.Text.{◌==◌}
use graphize.Common.{
  ℕ, zero, suc, ◌≤◌, ◌≡◌, ap, List, [], ◌∷◌, Option, none, some, true, false, arith, length,
  get_elem?, pos, none≢some, some-injective,
}
use graphize.Frame.Cache.{ShmCache, ObjectCache}
use graphize.Service.Fetch.{FetchInfo, CacheDataItem}
use graphize.Service.Reply.{Reply}
use graphize.Service.Callback.{RpcAnswer}
use graphize.Service.DoService.{Event, skipped, ended, Members, Outside}

abbrev shm : ShmCache
shm = record {
  Context = List ℕ;
  init_from_file = λ file. ([], pos 0);
  set_ex = λ s key value ends. (value, pos 0);
  get = λ s key now. (pos 0, s);
}

abbrev cache : ObjectCache shm
cache = record { ctx = []; init_status = pos 0 }

abbrev fetch_of : String → FetchInfo
fetch_of client = record {
  prefix = "p";
  postfix = "";
  compress = "";
  key_gen_func = "gen";
  redis_client_id = client;
  key = "";
  response_func = "parse";
  use_cache = true;
  expire_time = 60;
  keys = (1 ∷ []) ∷ (2 ∷ []) ∷ (3 ∷ []) ∷ [];
  id = [];
}

abbrev fetches : List FetchInfo
fetches = fetch_of "a" ∷ fetch_of "b" ∷ []

abbrev members : Members
members = record { enable_paral_parse = true; enable_multi_get = true; batch_size = 2 }

abbrev texts : Reply
texts = Reply.array (some (7 ∷ 8 ∷ []) ∷ none ∷ [])

abbrev answer_of : ℕ → ℕ → Option RpcAnswer
answer_of j zero = some (record { failed = false; response = some (texts ∷ []) })
answer_of j (suc i) = none

abbrev env : Outside
env = record {
  has_client = λ name. name == "a";
  answer_of = answer_of;
  order = 1 ∷ 0 ∷ [];
  now = 100;
  uncompress = λ text. [];
}

abbrev cached : List CacheDataItem
cached = record { data_map = ((4 ∷ []), (9 ∷ [])) ∷ []; fetch_info_ptr = 0 } ∷ []

abbrev before : List Event
before = ended 0 2 ∷ skipped 1 ∷ []

abbrev after : List Event
after = ended 0 0 ∷ []

keys_of : (j : ℕ) (fetch : FetchInfo) → get_elem? fetches j ≡ some fetch → 3 ≤ length fetch.keys
keys_of zero fetch e = omega (arith, ap (λ f. length f.keys) (some-injective e))
keys_of (suc zero) fetch e = omega (arith, ap (λ f. length f.keys) (some-injective e))
keys_of (suc (suc j)) fetch e = absurd (none≢some e)

-- A request for which the only fetch has no client.
abbrev only_b : List FetchInfo
only_b = fetch_of "b" ∷ []
