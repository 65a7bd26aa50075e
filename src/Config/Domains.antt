-- ===== src/Config/Domains.antt =====
-- src/workloads/model.ts: `parseDomainSelection`.
use Prim.Native.String.{String}
use text.Mathlib.Text.{◌==◌ as str_eq}
use fitz_destroyer.Common.{Option, none, some, List, [], ◌∷◌, if◌then◌else◌, Result, ok, err, ◌>>=◌}
use fitz_destroyer.Config.Scenarios.{is_one_of}
use fitz_destroyer.Config.Options.{ConfigError, invalid_domain}

abbrev pub all_domains : List String
all_domains = "queue" ∷ "kv" ∷ "stream" ∷ "schedule" ∷ "notice" ∷ "lease" ∷ "rpc" ∷ []

abbrev pub keep_selected : List String → List String → List String
keep_selected [] selected = []
keep_selected (d ∷ ds) selected =
    if is_one_of d selected then d ∷ keep_selected ds selected else keep_selected ds selected

module _ (trim : String → String) (split : String → List String) where
  -- The loop over the parts, with the set of those read.
  unfoldable pub select_domains : List String → List String → Result ConfigError (List String)
  unfolding is_one_of
  select_domains [] selected = ok selected
  select_domains (raw ∷ rest) selected =
      let later = select_domains rest (trim raw ∷ selected) in
      if is_one_of (trim raw) all_domains then later else err (invalid_domain (trim raw))

  unfoldable pub parse_domain_selection : Option String → Result ConfigError (List String)
  unfolding select_domains is_one_of
  parse_domain_selection none = ok all_domains
  parse_domain_selection (some value) =
      let selected = select_domains (split value) [] in
      if str_eq (trim value) ""
      then ok all_domains
      else (selected >>= λ ds. ok (keep_selected all_domains ds))
