-- ===== src/Guidance/CompletionConfig.antt =====
-- src/operational-guidance-completion.ts: the type `CompletionConfig`.
use Prim.Native.String.{String}
use text.Mathlib.Text.{◌==◌ as str_eq}
use fitz_destroyer.Common.{Option, none, some, List, [], ◌∷◌, if◌then◌else◌}

pub record CompletionConfig : Type 0 where
  pub event : String
  pub fields : List (String × String)
  pub bandwidth_fields : List (String × String)
  pub recovery_field : Option String

abbrev pub ends_with : String → List (String × String) → CompletionConfig
ends_with event fields = record {
  event = event;
  fields = fields;
  bandwidth_fields = [];
  recovery_field = none;
}

abbrev pub recovers_by : String → CompletionConfig → CompletionConfig
recovers_by name config = record config { recovery_field = some name }

abbrev pub measures : List (String × String) → CompletionConfig → CompletionConfig
measures fields config = record config { bandwidth_fields = fields }

unfoldable pub config_of : String → List (String × CompletionConfig) → Option CompletionConfig
config_of scenario [] = none
config_of scenario ((name, config) ∷ rest) =
    if str_eq scenario name then some config else config_of scenario rest
