-- ===== src/Config/Parsing.antt =====
-- src/config.ts: `RunConfig`, the presets of the scales, and `parseArgs`.
pub mod Bounds
use Prim.Native.String.{String}
use text.Mathlib.Text.{◌==◌ as str_eq}
use fitz_destroyer.Common.{
  ℕ, Bool, true, false, not, Option, none, some, List, [], ◌∷◌, leb, if◌then◌else◌, Result, ok, err,
  ◌>>=◌, ◌>>◌, guard,
}
use fitz_destroyer.Config.Scenarios.{is_scenario_name}
use fitz_destroyer.Config.Domains.{parse_domain_selection}
use fitz_destroyer.Config.Options.{
  ConfigError, invalid_scenario, invalid_scale, invalid_profile, sample_exceeds_duration, Values,
  get, collect, check_known, read_integer, integer_option,
}

pub data ScaleName : Type 0 where
  smoke standard large : ScaleName

pub data ClientProfile : Type 0 where
  end_to_end broker_isolation : ClientProfile

abbrev pub rpc_stream_max_frame_bytes : ℕ
rpc_stream_max_frame_bytes = 65_506

abbrev pub default_request_timeout_ms : ℕ
default_request_timeout_ms = 10_000

pub record Scale : Type 0 where
  pub resources : ℕ
  pub entries_per_resource : ℕ
  pub payload_bytes : ℕ
  pub live_concurrency : ℕ
  pub handler_delay_ms : ℕ
  pub rpc_stream_calls : ℕ
  pub rpc_stream_frames : ℕ
  pub rpc_stream_frame_bytes : ℕ
  pub rpc_stream_reader_delay_ms : ℕ
  pub schedule_lead_ms : ℕ
  pub iterations : ℕ

abbrev pub scale_presets : ScaleName → Scale
scale_presets smoke = record {
  resources = 2;
  entries_per_resource = 20;
  payload_bytes = 256;
  live_concurrency = 8;
  handler_delay_ms = 1;
  rpc_stream_calls = 2;
  rpc_stream_frames = 100;
  rpc_stream_frame_bytes = 1024;
  rpc_stream_reader_delay_ms = 1;
  schedule_lead_ms = 45_000;
  iterations = 8;
}
scale_presets standard = record {
  resources = 10;
  entries_per_resource = 1000;
  payload_bytes = 1024;
  live_concurrency = 64;
  handler_delay_ms = 2;
  rpc_stream_calls = 25;
  rpc_stream_frames = 1000;
  rpc_stream_frame_bytes = rpc_stream_max_frame_bytes;
  rpc_stream_reader_delay_ms = 1;
  schedule_lead_ms = 120_000;
  iterations = 32;
}
scale_presets large = record {
  resources = 10;
  entries_per_resource = 5000;
  payload_bytes = 1024;
  live_concurrency = 128;
  handler_delay_ms = 2;
  rpc_stream_calls = 100;
  rpc_stream_frames = 5000;
  rpc_stream_frame_bytes = rpc_stream_max_frame_bytes;
  rpc_stream_reader_delay_ms = 2;
  schedule_lead_ms = 300_000;
  iterations = 100;
}

pub record RunConfig : Type 0 where
  pub scenario : String
  pub scale : ScaleName
  pub sizes : Scale
  pub seed : ℕ
  pub port : ℕ
  pub startup_timeout_ms : ℕ
  pub request_timeout_ms : ℕ
  pub client_replicas : ℕ
  pub phase_ms : ℕ
  pub duration_ms : ℕ
  pub sample_ms : ℕ
  pub keep : Bool
  pub bombard_domains : List String
  pub client_profile : ClientProfile
  pub root_dir : String
  pub fitz_source_dir : String
  pub fitz_image : Option String
  pub upgrade_from_image : Option String
  pub destroyer_image : Option String

-- `values.get("--scale") ?? "smoke"`, and the like.
abbrev pub or_else {ℓ} : {A : Type ℓ} → Option A → A → A
or_else (some a) b = a
or_else none b = b

unfoldable pub read_scale : String → Result ConfigError ScaleName
read_scale value =
    if str_eq value "smoke"
    then ok smoke
    else (if str_eq value "standard"
        then ok standard
        else (if str_eq value "large" then ok large else err (invalid_scale value)))

unfoldable pub read_profile : String → Result ConfigError ClientProfile
read_profile value =
    if str_eq value "end-to-end"
    then ok end_to_end
    else (if str_eq value "broker-isolation"
        then ok broker_isolation
        else err (invalid_profile value))

-- `argv[0]`, checked.
unfoldable pub read_scenario : List String → Result ConfigError (String × List String)
unfolding is_scenario_name
read_scenario [] = err invalid_scenario
read_scenario (scenario ∷ rest) =
    if is_scenario_name scenario then ok (scenario, rest) else err invalid_scenario

module _ (number : String → Option ℕ) (trim : String → String) (split : String → List String)
    (resolve : List String → String) (root : String) (env : String → Option String) where
  -- `env[name]?.trim() || undefined`
  trimmed : Option String → Option String
  trimmed none = none
  trimmed (some value) = if str_eq (trim value) "" then none else some (trim value)

  read : Values → String → (fallback minimum maximum : ℕ) → Result ConfigError ℕ
  unfolding integer_option
  read values name fallback minimum maximum =
      integer_option number values name fallback minimum maximum

  -- The first three of the sizes.
  unfoldable pub read_load : Values → Scale → Result ConfigError Scale
  unfolding read
  read_load values preset = do
    resources ← read values "--resources" preset.resources 1 10_000
    entries ← read values "--entries" preset.entries_per_resource 1 10_000_000
    bytes ← read values "--payload-bytes" preset.payload_bytes 32 8_000_000
    ok (record preset {
      resources = resources;
      entries_per_resource = entries;
      payload_bytes = bytes;
    })

  -- The other sizes, which come after the numbers that have no presets.
  unfoldable pub read_rest : Values → Scale → Result ConfigError Scale
  unfolding read
  read_rest values load = do
    iterations ← read values "--iterations" load.iterations 1 10_000
    concurrency ← read values "--concurrency" load.live_concurrency 1 1_024
    delay ← read values "--handler-delay-ms" load.handler_delay_ms 0 60_000
    lead ← read values "--schedule-lead-ms" load.schedule_lead_ms 10_000 3_600_000
    calls ← read values "--rpc-stream-calls" load.rpc_stream_calls 1 1_000_000
    frames ← read values "--rpc-stream-frames" load.rpc_stream_frames 2 10_000_000
    bytes ←
        read values "--rpc-stream-frame-bytes" load.rpc_stream_frame_bytes 64
          rpc_stream_max_frame_bytes
    reader_delay ←
        read values "--rpc-stream-reader-delay-ms" load.rpc_stream_reader_delay_ms 0 60_000
    ok (record load {
      live_concurrency = concurrency;
      handler_delay_ms = delay;
      rpc_stream_calls = calls;
      rpc_stream_frames = frames;
      rpc_stream_frame_bytes = bytes;
      rpc_stream_reader_delay_ms = reader_delay;
      schedule_lead_ms = lead;
      iterations = iterations;
    })

  -- All that is read once the options are known to be known.
  unfoldable pub read_config : String → Values → Bool → Result ConfigError RunConfig
  unfolding read_scale read_profile read_load read_rest read trimmed read_integer get
      parse_domain_selection
  read_config scenario values keep = do
    scale ← read_scale (or_else (get values "--scale") "smoke")
    profile ← read_profile (or_else (get values "--client-profile") "end-to-end")
    duration ← read values "--duration-ms" 900_000 1_000 86_400_000
    sample ← read values "--sample-ms" 1_000 100 60_000
    guard (leb sample duration) sample_exceeds_duration
    load ← read_load values (scale_presets scale)
    seed ← read values "--seed" 424_242 0 4_294_967_295
    port ← read values "--port" 4_390 1 65_535
    startup ← read values "--startup-timeout-ms" 180_000 1_000 3_600_000
    request ←
        read_integer number (env "DESTROYER_REQUEST_TIMEOUT_MS") "DESTROYER_REQUEST_TIMEOUT_MS"
          default_request_timeout_ms 100 600_000
    clients ← read values "--clients" 4 1 100
    phase ← read values "--phase-ms" 5_000 1_000 600_000
    sizes ← read_rest values load
    domains ← parse_domain_selection trim split (get values "--domains")
    ok (record {
      scenario = scenario;
      scale = scale;
      sizes = sizes;
      seed = seed;
      port = port;
      startup_timeout_ms = startup;
      request_timeout_ms = request;
      client_replicas = clients;
      phase_ms = phase;
      duration_ms = duration;
      sample_ms = sample;
      keep = keep;
      bombard_domains = domains;
      client_profile = profile;
      root_dir = root;
      fitz_source_dir =
          resolve (or_else (env "FITZ_SOURCE_DIR") (resolve (root ∷ "../fitz" ∷ [])) ∷ []);
      fitz_image = trimmed (env "FITZ_IMAGE");
      upgrade_from_image = trimmed (env "FITZ_UPGRADE_FROM_IMAGE");
      destroyer_image = trimmed (env "DESTROYER_IMAGE");
    })

  unfoldable pub parse_args : List String → Result ConfigError RunConfig
  unfolding read_scenario collect check_known read_config
  parse_args argv = do
    (scenario, rest) ← read_scenario argv
    (values, keep) ← collect rest [] false
    check_known values
    read_config scenario values keep
