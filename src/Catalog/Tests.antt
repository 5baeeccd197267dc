-- ===== src/Catalog/Tests.antt =====
-- A fleet of two shipped profiles, one of which the operator overrides.
use oumigo.Prelude.{
  ℕ, ◌≡◌, ◌≢◌, refl, String, Bool, true, false, Option, none, some, List, [], ◌∷◌, if◌then◌else◌,
  ◌⊎◌, inl, inr, or_else,
}
use oumigo.Prelude.Dict.{Dict, get}
use oumigo.Catalog.{
  Profile, Block, Legacy, FleetCatalog, CatalogError, load_profiles, from_block, from_config,
  default_profile, context_label, legacy_profile, repo_name,
}
use oumigo.Catalog.Choice.{allowed, from_block_lem}

abbrev profile : String → String → Profile
profile id model = record {
  id = id;
  model = model;
  description = none;
  storage_location = none;
  download_dir = none;
  engine = record {
    max_model_len = none;
    gpu_memory_utilization = 9000;
    dtype = "auto";
    tensor_parallel_size = 1;
    max_concurrent_requests = 1;
    extra_args = [];
  };
  caps = record { max_output_tokens = none; max_audio_seconds = none; max_queue_seconds = none };
  agent = none;
  requires = record { min_vram_gib = none; vllm = none };
  tested = none;
}

abbrev shipped : List (String × Profile)
shipped = ("a@4k", profile "a@4k" "v/a") ∷ ("b@8k", profile "b@8k" "v/b") ∷ []

abbrev dirs : List (List (String × Profile))
dirs = (("b@8k", profile "b@8k" "own/b") ∷ []) ∷ []

abbrev loaded : Dict Profile
loaded = ("a@4k", profile "a@4k" "v/a") ∷ ("b@8k", profile "b@8k" "own/b") ∷ []

load_test : load_profiles shipped dirs true ≡ inr loaded
unfolding load_profiles oumigo.Catalog.load_trees oumigo.Catalog.load_tree
    oumigo.Catalog.load_profile get oumigo.Prelude.Dict.put
load_test = refl

abbrev block : Block
block = record { allow = "b@8k" ∷ []; dirs = dirs; default = some "b@8k" }

abbrev fleet : FleetCatalog
fleet = record { profiles = ("b@8k", profile "b@8k" "own/b") ∷ []; default = some "b@8k" }

block_test : from_block shipped block ≡ inr fleet
unfolding from_block load_profiles oumigo.Catalog.load_trees oumigo.Catalog.load_tree
    oumigo.Catalog.load_profile get oumigo.Prelude.Dict.put oumigo.Catalog.from_available
    oumigo.Catalog.all_known oumigo.Catalog.fleet_catalog oumigo.Catalog.select
block_test = refl

from_block_lem_example :
    (block.allow ≢ [])
    × ((available : Dict Profile) × (load_profiles shipped block.dirs true ≡ inr available)
        × ((k : String)
            → get k fleet.profiles ≡ (if allowed k block.allow then get k available else none))
        × (fleet.default ≡ block.default)
        × default_profile fleet ≢ none)
from_block_lem_example = from_block_lem shipped block fleet block_test

repo_name_test : repo_name "google/gemma/x" ≡ "x"
unfolding repo_name oumigo.Catalog.after_slash
repo_name_test = refl

label_test : context_label (λ n. "n") (some 131072) ≡ "nk"
unfolding context_label
label_test = refl
