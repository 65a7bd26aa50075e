-- ===== src/Guidance/Configs.antt =====
-- src/operational-guidance-completion.ts: which fields of which event a scenario ends with.
use Prim.Native.String.{String}
use fitz_destroyer.Common.{List, ◌++◌}
use fitz_destroyer.Guidance.CompletionConfig.{CompletionConfig}
use fitz_destroyer.Guidance.RecoveryConfigs.{recovery_configs}
use fitz_destroyer.Guidance.ConformanceConfigs.{conformance_configs}

-- `CONFIGS`
abbrev pub configs : List (String × CompletionConfig)
configs = recovery_configs ++ conformance_configs
