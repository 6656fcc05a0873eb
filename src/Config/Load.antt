-- ===== src/Config/Load.antt =====
-- config_path_from_exe, load_config_file and load_config of config.rs. Reading the file, the TOML
-- parser and the conversion of its value are parameters, and so are the paths.
use Prim.Native.String.{String}
use opcda_bridge.Base.{
  ◌≡◌, ◌↔◌, Bool, true, false, Option, none, some, arith, if◌then◌else◌, Option-cases, inl, inr,
  List, [], ◌∷◌,
}

-- What reading a file answers.
pub data ReadResult : Type 0 where
  contents : String → ReadResult
  file_not_found other_error : ReadResult

pub data LoadError : Type 0 where
  failed_to_parse failed_to_read config_file_not_found : LoadError
  retired_key : String → LoadError

pub data Loaded (C : Type 0) : Type 0 where
  config : C → Loaded C
  error : LoadError → Loaded C

-- `toml::from_str`, `value.get("index").and_then(|index| index.get(key))`, and `value.try_into`.
pub record Toml (C : Type 0) : Type 1 where
  pub Value : Type 0
  pub from_str : String → Option Value
  pub has_index_key : String → Value → Bool
  pub try_into : Value → Option C
  pub default : C

module _ {C : Type 0} (toml : Toml C) where
  open toml use {Value, from_str, has_index_key, try_into, default}

  -- The loop over the retired keys.
  unfoldable pub first_retired : List String → Value → Option String
  first_retired [] value = none
  first_retired (key ∷ keys) value =
      if has_index_key key value then some key else first_retired keys value

  abbrev pub retired_keys : List String
  retired_keys = "enabled" ∷ "paused" ∷ []

  unfoldable pub convert_value : Value → Loaded C
  unfolding first_retired
  convert_value value = elim (first_retired retired_keys value) [
    | some key ↦ error (retired_key key)
    | none ↦ elim (try_into value) [ none ↦ error failed_to_parse | some c ↦ config c ]
  ]

  unfoldable pub parse_config : String → Loaded C
  parse_config text = elim (from_str text) [
    | none ↦ error failed_to_parse
    | some value ↦ convert_value value
  ]

  unfoldable pub load_config_file : ReadResult → Bool → Loaded C
  unfolding parse_config
  load_config_file (contents text) missing_is_error = parse_config text
  load_config_file file_not_found missing_is_error =
      if missing_is_error then error config_file_not_found else config default
  load_config_file other_error missing_is_error = error failed_to_read

  -- `read` reads the file at a path; `adjacent` is the path beside the executable.
  unfoldable pub load_config : (String → ReadResult) → String → Option String → Loaded C
  unfolding load_config_file
  load_config read adjacent (some path) = load_config_file (read path) true
  load_config read adjacent none = load_config_file (read adjacent) false

  -- Where the configuration is read from, and whether it was named by the user.
  abbrev pub path_of : String → Option String → String
  path_of adjacent none = adjacent
  path_of adjacent (some path) = path

  -- A file is accepted as this configuration.
  pub record Accepts (text : String) (c : C) : Type 0 where
    pub value : Value
    pub parsed : from_str text ≡ some value
    pub not_enabled : has_index_key "enabled" value ≡ false
    pub not_paused : has_index_key "paused" value ≡ false
    pub converted : try_into value ≡ some c

  parse_config-Accepts : (text : String) (c : C) → parse_config text ≡ config c → Accepts text c
  unfolding parse_config convert_value first_retired
  parse_config-Accepts text c h = elim (Option-cases (from_str text)) [
    | inl e ↦ absurd (ground arith)
    | inr (v, e) ↦ record {
      value = v;
      parsed = e;
      not_enabled = ground arith;
      not_paused = ground arith;
      converted = ground arith;
    }
  ]

  Accepts-parse_config : (text : String) (c : C) → Accepts text c → parse_config text ≡ config c
  unfolding parse_config convert_value first_retired
  Accepts-parse_config text c a = ground (arith, a.parsed, a.not_enabled, a.not_paused, a.converted)

  -- What is loaded as this configuration, from what reading answers and the path that was given.
  abbrev pub Expected : ReadResult → Option String → C → Type 0
  Expected (contents text) path c = Accepts text c
  Expected file_not_found path c = (path ≡ none) × (c ≡ default)
  Expected other_error path c = ⊥

  file-Expected :
      (r : ReadResult) (c : C)
      → ((load_config_file r false ≡ config c) ↔ Expected r none c)
        × ((path : String) → (load_config_file r true ≡ config c) ↔ Expected r (some path) c)
  unfolding load_config_file
  file-Expected (contents text) c = (
    (parse_config-Accepts text c, Accepts-parse_config text c),
    λ path. (parse_config-Accepts text c, Accepts-parse_config text c),
  )
  file-Expected file_not_found c = (
    ((λ h. ground arith), (λ h. ground arith)),
    λ path. ((λ h. ground arith), (λ h. ground arith)),
  )
  file-Expected other_error c =
      (((λ h. ground arith), (λ h. absurd h)), λ path. ((λ h. ground arith), (λ h. absurd h)))

  -- Whatever reading the file answers, a configuration is loaded exactly if the file could be read,
  -- parses, has none of the retired keys and converts to it, or if no path was given, no file is
  -- there, and it is the default one. In every other case an error is answered.
  pub load_config-Expected :
      (read : String → ReadResult) (adjacent : String) (path : Option String) (c : C)
      → (load_config read adjacent path ≡ config c) ↔ Expected (read (path_of adjacent path)) path c
  unfolding load_config
  load_config-Expected read adjacent none c = (file-Expected (read adjacent) c).0
  load_config-Expected read adjacent (some path) c = (file-Expected (read path) c).1 path
