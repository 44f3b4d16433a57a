-- ===== src/Service/Fetch/Examples.antt =====
-- A fetch with three keys in two slots, of which the cache has one.
use mathlib.Core.List.{Permᴰ}
use mathlib.Core.List.Permᴰ
use graphize.Common.{
  ℕ, ◌≡◌, refl, List, [], ◌∷◌, none, some, true, same_text, if◌then◌else◌, length,
}
use graphize.Service.Fetch.{FetchInfo, Sources, split_slots, get_from_cache, make_up_fetch_info_vec}
use graphize.Service.Fetch.Groups.{all_keys}
use graphize.Service.Fetch.MakeUp.{all_wanted, make_up_fetch_info_vec-all_wanted}
use graphize.Service.Fetch.OneSlot.{AreKnown, AreInOneSlot, make_up_fetch_info_vec-AreInOneSlot}

-- The slot of a key is its length.
abbrev sources : Sources
sources = record {
  key_func_map =
      λ name. some (λ keys prefix postfix. (1 ∷ []) ∷ (2 ∷ 2 ∷ []) ∷ (3 ∷ []) ∷ (4 ∷ []) ∷ []);
  has_client = λ name. true;
  cached = λ key. if same_text key (3 ∷ []) then some (9 ∷ []) else none;
  slot_of = λ key. length key;
  iterate = λ m. m;
}

abbrev fetches : List FetchInfo
fetches =
    record {
      prefix = "p";
      postfix = "";
      compress = "";
      key_gen_func = "gen";
      redis_client_id = "a";
      key = "";
      response_func = "parse";
      use_cache = true;
      expire_time = 60;
      keys = [];
      id = [];
    }
    ∷ []

shuffles : (m : List (ℕ × List (List ℕ))) → Permᴰ (sources.iterate m) m
shuffles m = Permᴰ.refl m

make_up_fetch_info_vec-all_wanted_example :
    Permᴰ (all_keys (make_up_fetch_info_vec sources fetches []).0) (all_wanted sources fetches)
make_up_fetch_info_vec-all_wanted_example =
    make_up_fetch_info_vec-all_wanted sources fetches [] shuffles

-- The fetch becomes two, one for each slot, and asks for what is not cached.
asked :
    all_keys (make_up_fetch_info_vec sources fetches []).0 ≡ (1 ∷ []) ∷ (4 ∷ []) ∷ (2 ∷ 2 ∷ []) ∷ []
unfolding all_keys make_up_fetch_info_vec split_slots get_from_cache same_text
asked = refl

known : AreKnown sources fetches
unfolding AreKnown
known = ((_, refl, refl), tt)

make_up_fetch_info_vec-AreInOneSlot_example :
    AreInOneSlot sources (make_up_fetch_info_vec sources fetches []).0
make_up_fetch_info_vec-AreInOneSlot_example =
    make_up_fetch_info_vec-AreInOneSlot sources fetches [] shuffles known
