-- ===== src/Guidance/Covering.antt =====
-- src/operational-guidance.ts, src/operational-guidance-completion.ts and src/suite.ts: the tables of
-- the guidance know the suite's scenarios, and agree.
use Prim.Native.String.{String}
use text.Mathlib.Text.{◌==◌ as str_eq}
use text.Mathlib.TextEquality.{eq_iff}
use fitz_destroyer.Common.{
  ◌≡◌, ◌↔◌, ◌⊎◌, inl, inr, refl, ap, ◌∙◌, Bool, true, false, ◌&&◌, ◌||◌, Option, none, some, List,
  [], ◌∷◌, ◌++◌, map, if◌then◌else◌, arith,
}
use fitz_destroyer.Config.Scenarios.{is_one_of, is_one_of_mono, all_scenarios, are_among}
use fitz_destroyer.Guidance.Readings.{Platform}
use fitz_destroyer.Guidance.CompletionConfig.{CompletionConfig, config_of}
use fitz_destroyer.Guidance.Configs.{configs}
use fitz_destroyer.Guidance.Durations.{completion_events, completion_event}
use fitz_destroyer.Guidance.Extraction.{extractors}

abbrev pub names {ℓ} : {A : Type ℓ} → List (String × A) → List String
names table = map (λ entry. entry.0) table

completion_event-names :
    (s : String) (table : List (String × String))
    → ((event : String) × (completion_event s table ≡ some event))
      ↔ (is_one_of s (names table) ≡ true)
unfolding completion_event is_one_of
completion_event-names s [] = (λ (event, e). cc, λ e. cc)
completion_event-names s ((name, event) ∷ rest) =
    choose (completion_event-names s rest) (str_eq s name)
  where
    Chosen : Bool → Type 0
    Chosen b =
        ((found : String) × ((if b then some event else completion_event s rest) ≡ some found))
        ↔ ((b || is_one_of s (names rest)) ≡ true)

    choose : Chosen false → (b : Bool) → Chosen b
    choose later true = (λ _. refl, λ _. (event, refl))
    choose later false = later

-- Each configuration's event is the one of the table.
abbrev gives : Option String → String → Bool
gives (some found) event = str_eq found event
gives none event = false

abbrev agree : List (String × CompletionConfig) → Bool
agree [] = true
agree ((name, config) ∷ rest) =
    gives (completion_event name completion_events) config.event && agree rest

configs-agree : agree configs ≡ true
unfolding completion_event
configs-agree = refl

some-inj : {x y : CompletionConfig} → some x ≡ some y → x ≡ y
some-inj e = cc

config_of-agree :
    (s : String) (table : List (String × CompletionConfig)) {config : CompletionConfig}
    → agree table ≡ true
    → config_of s table ≡ some config
    → completion_event s completion_events ≡ some config.event
unfolding config_of
config_of-agree s [] h k = cc
config_of-agree s ((name, c) ∷ rest) {config} h k =
    choose (λ k'. config_of-agree s rest {config = config} (ground (arith, h)) k') (str_eq s name)
      refl k
  where
    given : (o : Option String) → gives o c.event ≡ true → o ≡ some c.event
    given (some found) g = ap some ((eq_iff found c.event).0 g)
    given none g = cc

    choose :
        (config_of s rest ≡ some config → completion_event s completion_events ≡ some config.event)
        → (b : Bool) → str_eq s name ≡ b
        → (if b then some c else config_of s rest) ≡ some config
        → completion_event s completion_events ≡ some config.event
    choose later true e k' =
        ap (λ n. completion_event n completion_events) ((eq_iff s name).0 e)
        ∙ given (completion_event name completion_events) (ground (arith, h))
        ∙ ap some (ap (λ x. x.event) (some-inj k'))
    choose later false e k' = later k'

-- The scenarios that end with a restart, which have no event.
abbrev pub restarts : List String
restarts = "clean-restart" ∷ "cache-loss" ∷ []

restarts_without :
    (s : String) → is_one_of s restarts ≡ true → completion_event s completion_events ≡ none
unfolding completion_event is_one_of
restarts_without s h = choose (str_eq s "clean-restart") refl (str_eq s "cache-loss") refl
  where
    neither : ◌≡◌ {A = Bool} false true → ⊥
    neither e = cc

    choose :
        (b : Bool)
        → str_eq s "clean-restart" ≡ b
        → (c : Bool) → str_eq s "cache-loss" ≡ c
        → completion_event s completion_events ≡ none
    choose true e c k =
        ap (λ n. completion_event n completion_events) ((eq_iff s "clean-restart").0 e)
    choose false e true k =
        ap (λ n. completion_event n completion_events) ((eq_iff s "cache-loss").0 k)
    choose false e false k = absurd (neither (rw (e, k) at h))

events_among : are_among (names completion_events) all_scenarios ≡ true
unfolding is_one_of
events_among = refl

all_events :
    are_among all_scenarios ("clean-restart" ∷ "cache-loss" ∷ names completion_events) ≡ true
unfolding is_one_of
all_events = refl

-- The scenarios whose metrics are read in some way.
abbrev pub read_scenarios : Platform → List String
read_scenarios platform =
    "domain-pressure" ∷ "soak" ∷ (names configs ++ names (extractors platform))

read_among : (platform : Platform) → are_among (read_scenarios platform) all_scenarios ≡ true
unfolding is_one_of
read_among platform = refl

all_read : (platform : Platform) → are_among all_scenarios (read_scenarios platform) ≡ true
unfolding is_one_of
all_read platform = refl

not_first :
    (s name : String) (rest : List String)
    → str_eq s name ≡ false
    → is_one_of s (name ∷ rest) ≡ true
    → is_one_of s rest ≡ true
unfolding is_one_of
not_first s name rest e h = ground (arith, e, h)

-- The other direction, without the scenarios that have no event of their own.
event_or_restart :
    (s : String)
    → is_one_of s all_scenarios ≡ true
    → ((event : String) × (completion_event s completion_events ≡ some event))
      ⊎ (s ≡ "clean-restart")
      ⊎ (s ≡ "cache-loss")
event_or_restart s h =
    choose (is_one_of_mono s all_scenarios _ all_events h) (str_eq s "clean-restart") refl
      (str_eq s "cache-loss") refl
  where
    choose :
        is_one_of s ("clean-restart" ∷ "cache-loss" ∷ names completion_events) ≡ true
        → (b : Bool) → str_eq s "clean-restart" ≡ b
        → (c : Bool) → str_eq s "cache-loss" ≡ c
        → ((event : String) × (completion_event s completion_events ≡ some event))
          ⊎ (s ≡ "clean-restart")
          ⊎ (s ≡ "cache-loss")
    choose m true e c k = inr (inl ((eq_iff s "clean-restart").0 e))
    choose m false e true k = inr (inr ((eq_iff s "cache-loss").0 k))
    choose m false e false k =
        inl
          ((completion_event-names s completion_events).1 (not_first s _ _ k (not_first s _ _ e m)))

-- The fallback of a scenario's duration has an event for exactly the suite's scenarios, except
-- `clean-restart` and `cache-loss`, for which it has none; for a scenario that ends with one event it is the event that the
-- metrics are read from; and the scenarios whose metrics are read in some way are exactly the suite's.
pub completion_event-some_iff :
    (platform : Platform) (s : String)
    → (((event : String) × (completion_event s completion_events ≡ some event))
        → is_one_of s all_scenarios ≡ true)
      × (is_one_of s all_scenarios ≡ true
          → ((event : String) × (completion_event s completion_events ≡ some event))
            ⊎ (s ≡ "clean-restart")
            ⊎ (s ≡ "cache-loss"))
      × (is_one_of s restarts ≡ true → completion_event s completion_events ≡ none)
      × ((config : CompletionConfig)
          → config_of s configs ≡ some config
          → completion_event s completion_events ≡ some config.event)
      × ((is_one_of s all_scenarios ≡ true) ↔ (is_one_of s (read_scenarios platform) ≡ true))
completion_event-some_iff platform s = (
  λ h.
      is_one_of_mono s (names completion_events) all_scenarios events_among
        ((completion_event-names s completion_events).0 h),
  event_or_restart s,
  restarts_without s,
  λ config. config_of-agree s configs configs-agree,
  (
    is_one_of_mono s all_scenarios (read_scenarios platform) (all_read platform),
    is_one_of_mono s (read_scenarios platform) all_scenarios (read_among platform),
  ),
)
