-- ===== src/Catalog.antt =====
-- The model catalog: src/oumigo/config/catalog.py, and the specification of a node that a profile
-- gives: src/oumigo/config/spec.py. Lengths in seconds and sizes in GiB are in thousandths, and the
-- share of the memory in ten-thousandths. A profile file is read, parsed and validated by YAML and
-- pydantic: a tree of files is the list of its valid profiles, each with the stem of its path, in the
-- order of the paths. `str` of a number is an argument. A configuration that is refused gives
-- the reason, without its text.
pub mod Loading
pub mod Choice
mod Tests
use Prim.Native.Char.{Char, code}
use Prim.Native.String.{◌++◌ as ◌++ₛ◌, ◌∷◌ as ◌∷ₛ◌, [] as []ₛ}
use oumigo.Prelude.{
  ℕ, ◌/◌, ◌%◌, String, Bool, true, false, ◌&&◌, ◌||◌, not, Option, none, some, List, [], ◌∷◌, ◌++◌,
  if◌then◌else◌, ◌==◌, ◌==ₛ◌, is_some, ◌⊎◌, inl, inr,
}
use oumigo.Prelude.Dict.{Dict, get, put}

pub record NodeSpec : Type 0 where
  pub model : String
  pub profile : Option String
  pub storage_location : Option String
  pub host : String
  pub port : ℕ
  pub dtype : String
  pub tensor_parallel_size : ℕ
  pub gpu_memory_utilization : ℕ
  pub max_concurrent_requests : ℕ
  pub max_model_len : Option ℕ
  pub max_audio_seconds : Option ℕ
  pub max_output_tokens : Option ℕ
  pub download_dir : Option String
  pub extra_args : List String
  pub min_vram_gib : Option ℕ
  pub requires_vllm : Option String

-- `NodeSpec.served_name`: `self.profile or self.model`.
spec_served_name : NodeSpec → String
spec_served_name s = elim s.profile [ none ↦ s.model | some p ↦ if p ==ₛ "" then s.model else p ]

pub record EngineSettings : Type 0 where
  pub max_model_len : Option ℕ
  pub gpu_memory_utilization : ℕ
  pub dtype : String
  pub tensor_parallel_size : ℕ
  pub max_concurrent_requests : ℕ
  pub extra_args : List String

pub record Caps : Type 0 where
  pub max_output_tokens : Option ℕ
  pub max_audio_seconds : Option ℕ
  pub max_queue_seconds : Option ℕ

pub record AgentDefaults : Type 0 where
  pub turn_timeout : Option ℕ
  pub stall_timeout : Option ℕ

pub record Requires : Type 0 where
  pub min_vram_gib : Option ℕ
  pub vllm : Option String

pub record Profile : Type 0 where
  pub id : String
  pub model : String
  pub description : Option String
  pub storage_location : Option String
  pub download_dir : Option String
  pub engine : EngineSettings
  pub caps : Caps
  pub agent : Option AgentDefaults
  pub requires : Requires
  pub tested : Option String

-- `Profile.node_spec`.
pub node_spec : ℕ → Profile → NodeSpec
node_spec port p = record {
  model = p.model;
  profile = some p.id;
  storage_location = p.storage_location;
  host = "0.0.0.0";
  port = port;
  dtype = p.engine.dtype;
  tensor_parallel_size = p.engine.tensor_parallel_size;
  gpu_memory_utilization = p.engine.gpu_memory_utilization;
  max_concurrent_requests = p.engine.max_concurrent_requests;
  max_model_len = p.engine.max_model_len;
  max_audio_seconds = p.caps.max_audio_seconds;
  max_output_tokens = p.caps.max_output_tokens;
  download_dir = p.download_dir;
  extra_args = p.engine.extra_args;
  min_vram_gib = p.requires.min_vram_gib;
  requires_vllm = p.requires.vllm;
}

-- Why a configuration is refused.
pub data CatalogError : Type 0 where
  wrong_name duplicate bad_default both_blocks nothing_allowed unknown_profile : CatalogError

-- `load_profile`, of a file that YAML and pydantic accept.
pub load_profile : String × Profile → CatalogError ⊎ Profile
load_profile (stem, p) = if p.id ==ₛ stem then inr p else inl wrong_name

-- The loop of `load_profiles` over the files of one tree, with the ids seen in it.
pub load_tree : List (String × Profile) → Dict String → Dict Profile → CatalogError ⊎ Dict Profile
load_tree [] seen_here profiles = inr profiles
load_tree (f ∷ files) seen_here profiles = elim (load_profile f) [
  | inl e ↦ inl e
  | inr p ↦
      let rest = load_tree files (put p.id f.0 seen_here) (put p.id p profiles) in
      if is_some (get p.id seen_here) then inl duplicate else rest
]

-- Its loop over the trees, each of which is a directory.
pub load_trees : List (List (String × Profile)) → Dict Profile → CatalogError ⊎ Dict Profile
load_trees [] profiles = inr profiles
load_trees (tree ∷ trees) profiles = elim (load_tree tree [] profiles) [
  | inl e ↦ inl e
  | inr ps ↦ load_trees trees ps
]

pub load_profiles :
    List (String × Profile) → List (List (String × Profile)) → Bool → CatalogError ⊎ Dict Profile
load_profiles shipped_dir dirs shipped =
    load_trees ((if shipped then shipped_dir ∷ [] else []) ++ dirs) []

pub record FleetCatalog : Type 0 where
  pub profiles : Dict Profile
  pub default : Option String

-- `FleetCatalog.__init__`.
pub fleet_catalog : Dict Profile → Option String → CatalogError ⊎ FleetCatalog
fleet_catalog profiles none = inr (record { profiles = profiles; default = none })
fleet_catalog profiles (some d) =
    if is_some (get d profiles)
    then inr (record { profiles = profiles; default = some d })
    else inl bad_default

-- `FleetCatalog.get`.
pub profile_of : FleetCatalog → String → Option Profile
profile_of c profile_id = get profile_id c.profiles

-- What `FleetCatalog.default_profile` gives; a missing key raises, here `none`.
pub default_profile : FleetCatalog → Option (Option Profile)
default_profile c = elim c.default [
  | none ↦ some none
  | some d ↦
      if d ==ₛ ""
      then some none
      else elim (get d c.profiles) [ none ↦ none | some p ↦ some (some p) ]
]

-- `{pid: available[pid] for pid in allow}`, where a missing id adds nothing: none is missing.
pub select : List String → Dict Profile → Dict Profile → Dict Profile
select [] available acc = acc
select (pid ∷ allow) available acc =
    select allow available (elim (get pid available) [ none ↦ acc | some p ↦ put pid p acc ])

pub all_known : List String → Dict Profile → Bool
all_known [] available = true
all_known (pid ∷ allow) available = is_some (get pid available) && all_known allow available

-- The `catalog:` block, with the files of its directories.
pub record Block : Type 0 where
  pub allow : List String
  pub dirs : List (List (String × Profile))
  pub default : Option String

pub from_available : List String → Option String → Dict Profile → CatalogError ⊎ FleetCatalog
from_available allow default available =
    if all_known allow available
    then fleet_catalog (select allow available []) default
    else inl unknown_profile

abbrev is_nothing : List String → Bool
is_nothing [] = true
is_nothing (x ∷ xs) = false

abbrev from_loaded :
    List String → Option String → CatalogError ⊎ Dict Profile → CatalogError ⊎ FleetCatalog
from_loaded allow default (inl e) = inl e
from_loaded allow default (inr available) = from_available allow default available

pub from_block : List (String × Profile) → Block → CatalogError ⊎ FleetCatalog
from_block shipped_dir b =
    if is_nothing b.allow
    then inl nothing_allowed
    else from_loaded b.allow b.default (load_profiles shipped_dir b.dirs true)

-- A legacy `model:` block, whose absent fields are `none`.
pub record Legacy : Type 0 where
  pub name : String
  pub max_model_len : Option ℕ
  pub storage_location : Option String
  pub download_dir : Option String
  pub gpu_memory_utilization : Option ℕ
  pub dtype : Option String
  pub tensor_parallel_size : Option ℕ
  pub max_concurrent_requests : Option ℕ
  pub extra_args : List String
  pub max_output_tokens : Option ℕ
  pub max_audio_seconds : Option ℕ

-- `name.rsplit("/", 1)[-1]`: what follows the last slash; `none` where there is no slash.
pub after_slash : String → Option String
after_slash []ₛ = none
after_slash (c ∷ₛ t) = elim (after_slash t) [
  | some rest ↦ some rest
  | none ↦ if code c == 47 then some t else none
]

pub repo_name : String → String
repo_name name = elim (after_slash name) [ none ↦ name | some rest ↦ rest ]

-- `x` where a field is absent.
abbrev pub default_to {ℓ} : {A : Type ℓ} → A → Option A → A
default_to x none = x
default_to x (some a) = a

module _ (str : ℕ → String) where
  pub context_label : Option ℕ → String
  context_label none = "default"
  context_label (some n) = if n % 1024 == 0 then str (n / 1024) ++ₛ "k" else str n

  pub legacy_profile : Legacy → Profile
  legacy_profile m = record {
    id = repo_name m.name ++ₛ ("@" ++ₛ context_label m.max_model_len);
    model = m.name;
    description = none;
    storage_location = m.storage_location;
    download_dir = m.download_dir;
    engine = record {
      max_model_len = m.max_model_len;
      gpu_memory_utilization = default_to 8000 m.gpu_memory_utilization;
      dtype = default_to "auto" m.dtype;
      tensor_parallel_size = default_to 1 m.tensor_parallel_size;
      max_concurrent_requests = default_to 4 m.max_concurrent_requests;
      extra_args = m.extra_args;
    };
    caps = record {
      max_output_tokens = m.max_output_tokens;
      max_audio_seconds = m.max_audio_seconds;
      max_queue_seconds = none;
    };
    agent = none;
    requires = record { min_vram_gib = none; vllm = none };
    tested = none;
  }

  -- `FleetCatalog.from_config`. A `model:` block that is there and not empty; its name may be empty.
  pub from_config :
      List (String × Profile) → Option Block → Option Legacy → CatalogError ⊎ FleetCatalog
  from_config shipped_dir (some b) none = from_block shipped_dir b
  from_config shipped_dir (some b) (some m) = inl both_blocks
  from_config shipped_dir none none = inr (record { profiles = []; default = none })
  from_config shipped_dir none (some m) =
      if m.name ==ₛ ""
      then inr (record { profiles = []; default = none })
      else let p = legacy_profile m in fleet_catalog (put p.id p []) (some p.id)
