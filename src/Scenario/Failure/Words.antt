-- ===== src/Scenario/Failure/Words.antt =====
-- src/scenario.ts: what `classifyFailure` makes of an error.
use Prim.Native.String.{String}
use mathlib.Core.Path.{subst}
use text.Mathlib.Text.{◌==◌ as str_eq}
use text.Mathlib.TextEquality.{eq_iff}
use fitz_destroyer.Common.{
  ℕ, ◌≡◌, ◌↔◌, ◌⊎◌, inl, inr, refl, sym, Bool, true, false, not, ◌&&◌, ◌||◌, List, [], ◌∷◌, ◌++◌,
  map, if◌then◌else◌, Bool-cases, arith,
}
use fitz_destroyer.Suite.{in_setup, in_workload, in_assertion, in_timeout}
use fitz_destroyer.Scenario.Failure.{
  Thrown, name_of, error_message, fold, is_word, ends, begins, begins_one, found, codes,
  timeout_words, assertion_words, test, setup, workload, is_timeout, is_assertion, classify_failure,
}

abbrev pub Among : List ℕ → List (List ℕ) → Type 0
Among word [] = ⊥
Among word (w ∷ words) = (word ≡ w) ⊎ Among word words

-- Whether a text that comes after `before` comes after a word's character.
abbrev pub ends_inside : Bool → List ℕ → Bool
ends_inside inside [] = inside
ends_inside inside (c ∷ before) = ends_inside (is_word c) before

-- The text has one of the words, with no word's character on either side.
abbrev pub HasOne : List (List ℕ) → Bool → List ℕ → Type 0
HasOne words inside text =
    (before : List ℕ) × (word : List ℕ) × (after : List ℕ) × (text ≡ before ++ (word ++ after))
    × Among word words
    × (ends_inside inside before ≡ false)
    × (ends after ≡ true)

begins_sound :
    (word text : List ℕ)
    → begins word text ≡ true
    → (after : List ℕ) × (text ≡ word ++ after) × (ends after ≡ true)
unfolding begins
begins_sound [] text h = (text, refl, h)
begins_sound (a ∷ word) [] h = cc
begins_sound (a ∷ word) (c ∷ text) h =
    let same : a ≡ c = ground (arith, h) in
    let (after, e, g) = begins_sound word text (ground (arith, h)) in (after, cc, g)

begins_complete : (word after : List ℕ) → ends after ≡ true → begins word (word ++ after) ≡ true
unfolding begins
begins_complete [] after h = h
begins_complete (a ∷ word) after h = ground (arith, begins_complete word after h)

begins_one_sound :
    (words : List (List ℕ)) (text : List ℕ)
    → begins_one words text ≡ true
    → (word : List ℕ) × (after : List ℕ) × (text ≡ word ++ after)
      × Among word words
      × (ends after ≡ true)
unfolding begins_one
begins_one_sound [] text h = cc
begins_one_sound (w ∷ words) text h = elim (Bool-cases (begins w text)) [
  | inl so ↦ (let (after, e, g) = begins_sound w text so in (w, after, e, inl refl, g))
  | inr not_so ↦
      (let (word, after, e, m, g) = begins_one_sound words text (ground (arith, h)) in
        (word, after, e, inr m, g))
]

begins_one_complete :
    (words : List (List ℕ)) (word after : List ℕ)
    → Among word words
    → ends after ≡ true
    → begins_one words (word ++ after) ≡ true
unfolding begins_one
begins_one_complete [] word after m h = absurd m
begins_one_complete (w ∷ words) word after (inl e) h =
    ground (arith, subst (λ v. begins v (word ++ after) ≡ true) e (begins_complete word after h))
begins_one_complete (w ∷ words) word after (inr m) h =
    ground (arith, begins_one_complete words word after m h)

found_sound :
    (words : List (List ℕ)) (inside : Bool) (text : List ℕ)
    → found words inside text ≡ true
    → HasOne words inside text
unfolding found
found_sound words inside [] h =
    let (word, after, e, m, g) = begins_one_sound words [] (ground (arith, h)) in
    ([], word, after, e, m, ground (arith, h), g)
found_sound words inside (c ∷ rest) h =
    elim (Bool-cases (not inside && begins_one words (c ∷ rest))) [
      | inl so ↦
          (let (word, after, e, m, g) = begins_one_sound words (c ∷ rest) (ground (arith, so)) in
            ([], word, after, e, m, ground (arith, so), g))
      | inr not_so ↦
          (let (before, word, after, e, m, i, g) =
              found_sound words (is_word c) rest (ground (arith, h, not_so)) in
            (c ∷ before, word, after, cc, m, i, g))
    ]

found-here :
    (words : List (List ℕ)) (inside : Bool) (text : List ℕ)
    → inside ≡ false
    → begins_one words text ≡ true
    → found words inside text ≡ true
unfolding found
found-here words inside [] i h = ground arith
found-here words inside (c ∷ rest) i h = ground arith

found_complete :
    (words : List (List ℕ)) (inside : Bool) (before word after : List ℕ)
    → Among word words
    → ends_inside inside before ≡ false
    → ends after ≡ true
    → found words inside (before ++ (word ++ after)) ≡ true
unfolding found
found_complete words inside [] word after m i g =
    found-here words inside (word ++ after) i (begins_one_complete words word after m g)
found_complete words inside (c ∷ before) word after m i g =
    ground (arith, found_complete words (is_word c) before word after m i g)

-- The search finds exactly the texts that have one of the words on its own.
found_iff :
    (words : List (List ℕ)) (inside : Bool) (text : List ℕ)
    → (found words inside text ≡ true) ↔ HasOne words inside text
found_iff words inside text = (
  found_sound words inside text,
  λ (before, word, after, e, m, i, g).
      subst (λ t. found words inside t ≡ true) (sym e)
        (found_complete words inside before word after m i g),
)

-- The message has one of the words, whatever the case of its letters, on its own.
abbrev pub Mentions : List String → Thrown → Type 0
Mentions words e = HasOne (map codes words) false (map fold (codes (error_message e)))

abbrev pub Signals : String → List String → Thrown → Type 0
Signals name words e = (name_of e ≡ name) ⊎ Mentions words e

signals_iff :
    (name : String) (words : List String) (e : Thrown)
    → ((str_eq (name_of e) name || test words (error_message e)) ≡ true) ↔ Signals name words e
unfolding test
signals_iff name words e = (
  λ h. elim (Bool-cases (str_eq (name_of e) name)) [
    | inl so ↦ inl ((eq_iff (name_of e) name).0 so)
    | inr not_so ↦ inr ((found_iff _ _ _).0 (ground (arith, h, not_so)))
  ],
  λ s. elim s [
    | inl same ↦ ground (arith, (eq_iff (name_of e) name).1 same)
    | inr mentions ↦ ground (arith, (found_iff _ _ _).1 mentions)
  ],
)

choice_iff :
    {P Q : Type 0} (p q : Bool)
    → (p ≡ true) ↔ P
    → (q ≡ true) ↔ Q
    → let c = if p then in_timeout else if q then in_assertion else in_workload in
      ((c ≡ in_timeout) ↔ P)
      × ((c ≡ in_assertion) ↔ ((¬ P) × Q))
      × ((c ≡ in_workload) ↔ ((¬ P) × (¬ Q)))
choice_iff true q hp hq = (
  (λ _. hp.0 refl, λ _. refl),
  (λ e. cc, λ n. absurd (n.0 (hp.0 refl))),
  (λ e. cc, λ n. absurd (n.0 (hp.0 refl))),
)
choice_iff false true hp hq = (
  (λ e. cc, λ p. cc (hp.1 p)),
  (λ _. (λ p. cc (hp.1 p), hq.0 refl), λ _. refl),
  (λ e. cc, λ n. absurd (n.1 (hq.0 refl))),
)
choice_iff false false hp hq = (
  (λ e. cc, λ p. cc (hp.1 p)),
  (λ e. cc, λ n. cc (hq.1 n.1)),
  (λ _. (λ p. cc (hp.1 p), λ q. cc (hq.1 q)), λ _. refl),
)

-- Before the workload every failure is one of the setup. From then on a failure is a timeout
-- exactly when the error is a `TimeoutError` or its message mentions one, an assertion exactly when
-- it is not a timeout and is an `AssertionError` or its message has one of the words of an
-- assertion, and otherwise one of the workload.
pub classify_failure_iff :
    (e : Thrown)
    → let c = classify_failure e workload in
      (classify_failure e setup ≡ in_setup)
      × ((c ≡ in_timeout) ↔ Signals "TimeoutError" timeout_words e)
      × ((c ≡ in_assertion) ↔ (
          (¬ Signals "TimeoutError" timeout_words e) × Signals "AssertionError" assertion_words e))
      × ((c ≡ in_workload) ↔ (
          (¬ Signals "TimeoutError" timeout_words e)
          × (¬ Signals "AssertionError" assertion_words e)))
unfolding classify_failure
classify_failure_iff e =
    let (t, a, w) =
      choice_iff (is_timeout e) (is_assertion e) (signals_iff "TimeoutError" timeout_words e)
        (signals_iff "AssertionError" assertion_words e) in
    (refl, t, a, w)
