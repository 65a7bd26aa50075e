-- ===== src/Config/Examples.antt =====
-- Runs of the parser of the arguments, and its theorems at concrete inputs. The platform's
-- functions are replaced by ones that are enough here.
use Prim.Native.String.{String}
use text.Mathlib.Text.{◌==◌ as str_eq}
use fitz_destroyer.Common.{
  ℕ, ◌≡◌, ◌↔◌, refl, true, Option, none, some, List, [], ◌∷◌, if◌then◌else◌, Result, ok, err,
}
use fitz_destroyer.Config.Scenarios.{
  is_scenario_name, is_one_of, scenario_names, all_scenarios, are_distinct, is_scenario_name_iff,
}
use fitz_destroyer.Config.Options.{ConfigError, not_between, unknown_option, missing_value}
use fitz_destroyer.Config.Parsing.{RunConfig, large, end_to_end, scale_presets, parse_args}
use fitz_destroyer.Config.Domains.{all_domains}
use fitz_destroyer.Config.Parsing.Bounds.{IsConfigured, parse_args-IsConfigured}

abbrev number : String → Option ℕ
number raw =
    if str_eq raw "70000" then some 70_000 else (if str_eq raw "5000" then some 5_000 else none)

abbrev parse : List String → Result ConfigError RunConfig
parse argv = parse_args number (λ s. s) (λ s. s ∷ []) (λ _. "/fitz") "/" (λ _. none) argv

abbrev arguments : List String
arguments = "soak" ∷ "--port" ∷ "5000" ∷ "--keep" ∷ "--scale" ∷ "large" ∷ []

refused_arguments :
    (parse ("soak" ∷ "--port" ∷ "70000" ∷ []) ≡ err (not_between "--port" 1 65_535))
    × (parse ("soak" ∷ "--ports" ∷ "5000" ∷ []) ≡ err (unknown_option "--ports"))
    × (parse ("soak" ∷ "--port" ∷ "--keep" ∷ []) ≡ err (missing_value "--port"))
unfolding parse_args
refused_arguments = (refl, refl, refl)

abbrev pub sample_config : RunConfig
sample_config = record {
  scenario = "soak";
  scale = large;
  sizes = scale_presets large;
  seed = 424_242;
  port = 5_000;
  startup_timeout_ms = 180_000;
  request_timeout_ms = 10_000;
  client_replicas = 4;
  phase_ms = 5_000;
  duration_ms = 900_000;
  sample_ms = 1_000;
  keep = true;
  bombard_domains = all_domains;
  client_profile = end_to_end;
  root_dir = "/";
  fitz_source_dir = "/fitz";
  fitz_image = none;
  upgrade_from_image = none;
  destroyer_image = none;
}

arguments_parsed : parse arguments ≡ ok sample_config
unfolding parse_args
arguments_parsed = refl

parse_args-IsConfigured_example : IsConfigured sample_config
parse_args-IsConfigured_example =
    parse_args-IsConfigured number (λ s. s) (λ s. s ∷ []) (λ _. "/fitz") "/" (λ _. none) arguments
      sample_config arguments_parsed

is_scenario_name_iff_example :
    ((is_scenario_name "soak" ≡ true) ↔ (is_one_of "soak" scenario_names ≡ true))
    × ((is_scenario_name "soak" ≡ true) ↔ (is_one_of "soak" ("all" ∷ all_scenarios) ≡ true))
    × (are_distinct ("all" ∷ all_scenarios) ≡ true)
is_scenario_name_iff_example = is_scenario_name_iff "soak"
