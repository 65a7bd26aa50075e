-- ===== src/Config/Parsing/Bounds.antt =====
-- src/config.ts: what holds of every configuration that `parseArgs` returns.
use Prim.Native.String.{String}
use mathlib.Core.Path.{subst}
use fitz_destroyer.Common.{
  ℕ, ◌≤◌, ◌≡◌, refl, Bool, true, false, Option, none, some, List, [], ◌∷◌, leb, if◌then◌else◌,
  Result, ok, err, ◌>>=◌, guard, arith, leb→le,
}
use fitz_destroyer.Config.Scenarios.{is_scenario_name}
use fitz_destroyer.Config.Options.{
  ConfigError, invalid_scenario, sample_exceeds_duration, Values, get, collect, check_known,
  read_integer, integer_option, Within,
}
use fitz_destroyer.Config.Domains.{parse_domain_selection}
use fitz_destroyer.Config.Parsing.{
  ScaleName, smoke, standard, large, Scale, scale_presets, RunConfig, read_scale, read_profile,
  or_else, read_scenario, read, read_load, read_rest, read_config, parse_args,
  default_request_timeout_ms,
}

-- What holds of the value, if there is one.
abbrev Holds {ℓ κ λ'} : {E : Type ℓ} {A : Type κ} → (A → Type λ') → Result E A → Type λ'
Holds P (ok a) = P a
Holds P (err e) = Unit

>>=-Holds {ℓ κ λ' μ ν} :
    {E : Type ℓ} {A : Type κ} {B : Type λ'} (P : A → Type μ) (Q : B → Type ν) (m : Result E A)
    (f : A → Result E B)
    → Holds P m
    → ((a : A) → P a → Holds Q (f a))
    → Holds Q (m >>= f)
>>=-Holds P Q (ok a) f h k = k a h
>>=-Holds P Q (err e) f h k = tt

guard-Holds {ℓ} : {E : Type ℓ} (b : Bool) (e : E) → Holds (λ _. b ≡ true) (guard b e)
guard-Holds true e = refl
guard-Holds false e = tt

-- Nothing is kept of a value that the property does not depend on.
skip {ℓ κ λ' ν} :
    {E : Type ℓ} {A : Type κ} {B : Type λ'} (Q : B → Type ν) (m : Result E A) (f : A → Result E B)
    → ((a : A) → Holds Q (f a))
    → Holds Q (m >>= f)
skip Q (ok a) f k = k a
skip Q (err e) f k = tt

-- The limits of the sizes that the scales preset.
abbrev pub IsSized : Scale → Type 0
IsSized s =
    Within 1 10_000 s.resources
    × Within 1 10_000_000 s.entries_per_resource
    × Within 32 8_000_000 s.payload_bytes
    × Within 1 1_024 s.live_concurrency
    × Within 0 60_000 s.handler_delay_ms
    × Within 1 1_000_000 s.rpc_stream_calls
    × Within 2 10_000_000 s.rpc_stream_frames
    × Within 64 65_506 s.rpc_stream_frame_bytes
    × Within 0 60_000 s.rpc_stream_reader_delay_ms
    × Within 10_000 3_600_000 s.schedule_lead_ms
    × Within 1 10_000 s.iterations

scale_presets-IsSized : (scale : ScaleName) → IsSized (scale_presets scale)
scale_presets-IsSized smoke = omega arith
scale_presets-IsSized standard = omega arith
scale_presets-IsSized large = omega arith

-- The limits of a configuration's scenario, sizes and other numbers.
abbrev pub Limits :
    (scenario : String) (sizes : Scale)
    (seed port startup request clients phase duration sample : ℕ)
    → Type 0
Limits scenario sizes seed port startup request clients phase duration sample =
    (is_scenario_name scenario ≡ true)
    × IsSized sizes
    × Within 0 4_294_967_295 seed
    × Within 1 65_535 port
    × Within 1_000 3_600_000 startup
    × Within 100 600_000 request
    × Within 1 100 clients
    × Within 1_000 600_000 phase
    × Within 1_000 86_400_000 duration
    × Within 100 60_000 sample
    × (sample ≤ duration)

abbrev pub IsConfigured : RunConfig → Type 0
IsConfigured c =
    Limits c.scenario c.sizes c.seed c.port c.startup_timeout_ms c.request_timeout_ms
      c.client_replicas c.phase_ms c.duration_ms c.sample_ms

module _ (number : String → Option ℕ) where
  read_integer-Within :
      (raw : Option String) (name : String) (fallback minimum maximum : ℕ)
      → Within minimum maximum fallback
      → Holds (Within minimum maximum) (read_integer number raw name fallback minimum maximum)
  unfolding read_integer
  read_integer-Within none name fallback minimum maximum h = h
  read_integer-Within (some raw) name fallback minimum maximum h = checked (number raw)
    where
      checked :
          (n : Option ℕ)
          → Holds
              (Within minimum maximum)
              (read_integer (λ _. n) (some raw) name fallback minimum maximum)
      checked none = tt
      checked (some n) = ground arith

module _ (number : String → Option ℕ) (trim : String → String) (split : String → List String)
    (resolve : List String → String) (root : String) (env : String → Option String) where
  read-Within :
      (values : Values) (name : String) (fallback minimum maximum : ℕ)
      → Within minimum maximum fallback
      → Holds
          (Within minimum maximum)
          (read number trim split resolve root env values name fallback minimum maximum)
  unfolding read integer_option
  read-Within values name fallback minimum maximum h =
      read_integer-Within number (get values name) name fallback minimum maximum h

  -- A number is read, and what follows may count on its limits.
  step :
      {A : Type 0} (Q : A → Type 0) (values : Values) (name : String) (fallback minimum maximum : ℕ)
      (f : ℕ → Result ConfigError A)
      → Within minimum maximum fallback
      → ((n : ℕ) → Within minimum maximum n → Holds Q (f n))
      → Holds Q (read number trim split resolve root env values name fallback minimum maximum >>= f)
  step Q values name fallback minimum maximum f h k =
      >>=-Holds (Within minimum maximum) Q
        (read number trim split resolve root env values name fallback minimum maximum) f
        (read-Within values name fallback minimum maximum h) k

  read_load-IsSized :
      (values : Values) (s : Scale)
      → IsSized s
      → Holds IsSized (read_load number trim split resolve root env values s)
  unfolding read_load
  read_load-IsSized values s h = step IsSized values _ _ _ _ _ h.0 λ a ka.
      step IsSized values _ _ _ _ _ h.1
        λ b kb. step IsSized values _ _ _ _ _ h.2 λ c kc. omega (arith, h, ka, kb, kc)

  read_rest-IsSized :
      (values : Values) (s : Scale)
      → IsSized s
      → Holds IsSized (read_rest number trim split resolve root env values s)
  unfolding read_rest
  read_rest-IsSized values s h = step IsSized values _ _ _ _ _ h.10 λ a ka.
      step IsSized values _ _ _ _ _ h.3 λ b kb. step IsSized values _ _ _ _ _ h.4 λ c kc.
        step IsSized values _ _ _ _ _ h.9 λ d kd. step IsSized values _ _ _ _ _ h.5 λ e ke.
          step IsSized values _ _ _ _ _ h.6 λ f kf. step IsSized values _ _ _ _ _ h.7 λ g kg.
            step IsSized values _ _ _ _ _ h.8
              λ i ki. omega (arith, h, ka, kb, kc, kd, ke, kf, kg, ki)

  read_config-IsConfigured :
      (scenario : String) (values : Values) (keep : Bool)
      → is_scenario_name scenario ≡ true
      → Holds IsConfigured (read_config number trim split resolve root env scenario values keep)
  unfolding read_config
  read_config-IsConfigured scenario values keep named =
      skip IsConfigured (read_scale (or_else (get values "--scale") "smoke")) _ λ scale.
        skip IsConfigured (read_profile (or_else (get values "--client-profile") "end-to-end")) _
          λ profile.
            step IsConfigured values "--duration-ms" 900_000 1_000 86_400_000 _ (omega arith)
              λ duration kd.
                step IsConfigured values "--sample-ms" 1_000 100 60_000 _ (omega arith) λ sample ks.
                  >>=-Holds (λ _. leb sample duration ≡ true) IsConfigured
                    (guard (leb sample duration) sample_exceeds_duration) _
                    (guard-Holds (leb sample duration) _)
                    λ _ short.
                      >>=-Holds IsSized IsConfigured
                        (read_load number trim split resolve root env values (scale_presets scale))
                        _
                        (read_load-IsSized values (scale_presets scale)
                          (scale_presets-IsSized scale))
                        λ load kl.
                          step IsConfigured values "--seed" 424_242 0 4_294_967_295 _ (omega arith)
                            λ seed kseed.
                              step IsConfigured values "--port" 4_390 1 65_535 _ (omega arith)
                                λ port kport.
                                  step IsConfigured values "--startup-timeout-ms" 180_000 1_000
                                    3_600_000 _ (omega arith)
                                    λ startup kstartup.
                                      >>=-Holds (Within 100 600_000) IsConfigured
                                        (read_integer number (env "DESTROYER_REQUEST_TIMEOUT_MS")
                                          "DESTROYER_REQUEST_TIMEOUT_MS" default_request_timeout_ms
                                          100 600_000)
                                        _
                                        (read_integer-Within number _ _ 10_000 100 600_000
                                          (omega arith))
                                        λ request krequest.
                                          step IsConfigured values "--clients" 4 1 100 _
                                            (omega arith)
                                            λ clients kclients.
                                              step IsConfigured values "--phase-ms" 5_000 1_000
                                                600_000 _ (omega arith)
                                                λ phase kphase.
                                                  >>=-Holds IsSized IsConfigured
                                                    (read_rest number trim split resolve root env
                                                      values load)
                                                    _ (read_rest-IsSized values load kl)
                                                    λ sizes ksizes.
                                                      skip IsConfigured
                                                        (parse_domain_selection trim split
                                                          (get values "--domains"))
                                                        _
                                                        λ domains.
                                                          let all : Limits scenario sizes seed port
                                                            startup request clients phase duration
                                                            sample =
                                                            (
                                                            named,
                                                            ksizes,
                                                            kseed,
                                                            kport,
                                                            kstartup,
                                                            krequest,
                                                            kclients,
                                                            kphase,
                                                            kd,
                                                            ks,
                                                            leb→le sample duration short,
                                                            ) in
                                                          all

  named :
      (argv : List String)
      → Holds {A = String × List String}
          (λ read_. is_scenario_name read_.0 ≡ true)
          (read_scenario argv)
  unfolding read_scenario
  named [] = tt
  named (scenario ∷ rest) = choose (is_scenario_name scenario) refl
    where
      choose :
          (b : Bool)
          → is_scenario_name scenario ≡ b
          → Holds {A = String × List String}
              (λ read_. is_scenario_name read_.0 ≡ true)
              (if b then ok (scenario, rest) else err invalid_scenario)
      choose true e = e
      choose false e = tt

  -- Whatever the arguments and the environment, a configuration that the parser returns names a
  -- scenario and has each of its numbers within that number's limits, the presets included, and its
  -- sampling interval is not longer than its duration.
  pub parse_args-IsConfigured :
      (argv : List String) (c : RunConfig)
      → parse_args number trim split resolve root env argv ≡ ok c
      → IsConfigured c
  unfolding parse_args
  parse_args-IsConfigured argv c h = subst (Holds IsConfigured) h (
      >>=-Holds {A = String × List String} (λ read_. is_scenario_name read_.0 ≡ true) IsConfigured
        (read_scenario argv) _ (named argv)
        λ (scenario, rest) is_name. skip IsConfigured (collect rest [] false) _ λ (values, keep).
          skip IsConfigured (check_known values) _
            λ _. read_config-IsConfigured scenario values keep is_name)
