-- ===== src/Durability/Ledger/Observed.antt =====
-- src/orchestration/durability-crash-cuts.ts: what the loop over the verifier's arrays makes of the
-- ledger.
use Prim.Native.String.{String}
use mathlib.Core.Path.{subst}
use fitz_destroyer.Common.{
  ℕ, ◌≡◌, refl, sym, ◌∙◌, Bool, true, false, ◌||◌, ◌⊎◌, inl, inr, Option, none, some, List, [], ◌∷◌,
  if◌then◌else◌, ok, ◌>>=◌, >>=-eq-ok, ok-inj, contains, dedupe, contains-dedupe, contains-sort,
  dedupe-IsUnique, sort-IsUnique, sort-IsSorted, IsUnique, IsSorted, arith,
}
use fitz_destroyer.Logs.{
  is_number, Json, null, boolean, other_number, string, object, number, array, Items, nil, cons,
  Fields, get_field, numeric_value,
}
use fitz_destroyer.Durability.Ledger.{
  DurableDomain, queue, kv, stream, schedule, domain_name, same, Entry, DomainLedger, from_log,
  numbers, tidy, tidied, update, observed_in, array_of, no_duplicate, find_duplicate,
  settle_domains,
}
use fitz_destroyer.Durability.Ledger.Records.{is_number-numeric_value, from_log-eq-ok}

-- The number is in the verifier's array.
unfoldable pub listed : Items → ℕ → Bool
listed nil n = false
listed (cons value rest) n = is_number (some value) n || listed rest n

abbrev pub shows : Option Json → ℕ → Bool
shows (some (array values)) n = listed values n
shows value n = false

numbers-listed :
    (values : Items) (name : String) (ns : List ℕ)
    → numbers values name ≡ ok ns
    → (n : ℕ) → contains n ns ≡ listed values n
unfolding numbers listed contains
numbers-listed nil name ns h n = ground arith
numbers-listed (cons value rest) name ns h n =
    let (m, here, more) =
      >>=-eq-ok (numeric_value (some value) name) (λ m. numbers rest name >>= λ ms. ok (m ∷ ms))
        h in
    let (ms, later, done) = >>=-eq-ok (numbers rest name) (λ ms. ok (m ∷ ms)) more in
    subst (λ ks. contains n ks ≡ listed (cons value rest) n) (ok-inj done)
      (ground (
        arith,
        is_number-numeric_value (some value) name m n here,
        numbers-listed rest name ms later n,
      ))

array_of-shows :
    (d : DurableDomain) (value : Option Json) (values : Items)
    → array_of d value ≡ ok values
    → (n : ℕ) → shows value n ≡ listed values n
unfolding array_of listed
array_of-shows d (some (array xs)) values h n =
    subst (λ ys. listed xs n ≡ listed ys n) (ok-inj h) refl
array_of-shows d none values h n = cc
array_of-shows d (some null) values h n = cc
array_of-shows d (some (boolean b)) values h n = cc
array_of-shows d (some (number m)) values h n = cc
array_of-shows d (some (other_number t)) values h n = cc
array_of-shows d (some (string t)) values h n = cc
array_of-shows d (some (object fs)) values h n = cc

observed_in-shows :
    (seen : Fields) (d : DurableDomain) (ns : List ℕ)
    → observed_in seen d ≡ ok ns
    → (n : ℕ) → contains n ns ≡ shows (get_field seen (domain_name d)) n
unfolding observed_in
observed_in-shows seen d ns h n =
    let (values, is_array, h1) = >>=-eq-ok (array_of d (get_field seen (domain_name d))) _ h in
    let (ms, are_numbers, h2) = >>=-eq-ok (from_log (numbers values (domain_name d))) _ h1 in
    let (_, once, done) = >>=-eq-ok (no_duplicate d (find_duplicate ms)) _ h2 in
    subst (λ ks. contains n ks ≡ shows (get_field seen (domain_name d)) n) (ok-inj done)
      (numbers-listed values (domain_name d) ms (from_log-eq-ok _ ms are_numbers) n
        ∙ sym (array_of-shows d (get_field seen (domain_name d)) values is_array n))

-- A domain's part of the ledger when the verifier's array has been written into it: the lists are
-- in order, without repetitions, and the observed sequences are those of the array.
abbrev pub IsTidy : List ℕ → Type 0
IsTidy xs = IsSorted xs × IsUnique xs

abbrev pub IsSettled : Fields → DurableDomain → Entry → Type 0
IsSettled seen d e =
    (IsTidy e.started × IsTidy e.acknowledged × (IsTidy e.failed × IsTidy e.observed))
    × ((n : ℕ) → contains n e.observed ≡ shows (get_field seen (domain_name d)) n)

tidy-IsTidy : (xs : List ℕ) → IsTidy (tidy xs)
tidy-IsTidy xs = (sort-IsSorted (dedupe xs), sort-IsUnique (dedupe xs) (dedupe-IsUnique xs))

contains-tidy : (n : ℕ) (xs : List ℕ) → contains n (tidy xs) ≡ contains n xs
contains-tidy n xs = contains-sort n (dedupe xs) ∙ contains-dedupe n xs

-- The sequences of the lists that the writers' records fill.
abbrev pub Keeps : Entry → Entry → ℕ → Type 0
Keeps e e' n =
    (contains n e'.started ≡ contains n e.started)
    × (contains n e'.acknowledged ≡ contains n e.acknowledged)
    × (contains n e'.failed ≡ contains n e.failed)

tidied-Keeps : (e : Entry) (ns : List ℕ) (n : ℕ) → Keeps e (tidied (record e { observed = ns })) n
tidied-Keeps e ns n =
    (contains-tidy n e.started, contains-tidy n e.acknowledged, contains-tidy n e.failed)

tidied-IsSettled :
    (seen : Fields) (d : DurableDomain) (e : Entry) (ns : List ℕ)
    → observed_in seen d ≡ ok ns
    → IsSettled seen d (tidied (record e { observed = ns }))
tidied-IsSettled seen d e ns h = (
  (tidy-IsTidy e.started, tidy-IsTidy e.acknowledged, (tidy-IsTidy e.failed, tidy-IsTidy ns)),
  λ n. contains-tidy n ns ∙ observed_in-shows seen d ns h n,
)

module _ (seen : Fields) where
  pub settle_domains-Keeps :
      (before after : DomainLedger) (ds : List DurableDomain)
      → settle_domains seen before ds ≡ ok after
      → (d : DurableDomain) (n : ℕ) → Keeps (before d) (after d) n
  unfolding settle_domains
  settle_domains-Keeps before after [] h d n = ground arith
  settle_domains-Keeps before after (d' ∷ ds) h d n =
      let (ns, here, later) = >>=-eq-ok (observed_in seen d') _ h in
      ground (
        arith,
        settle_domains-Keeps (update before d' (λ e. tidied (record e { observed = ns }))) after ds
            later d n,
        tidied-Keeps (before d) ns n,
      )

  unfoldable pub is_in : DurableDomain → List DurableDomain → Bool
  is_in d [] = false
  is_in d (d' ∷ ds) = same d' d || is_in d ds

  same-eq : (d d' : DurableDomain) → same d d' ≡ true → d ≡ d'
  same-eq queue queue h = refl
  same-eq queue kv h = cc
  same-eq queue stream h = cc
  same-eq queue schedule h = cc
  same-eq kv queue h = cc
  same-eq kv kv h = refl
  same-eq kv stream h = cc
  same-eq kv schedule h = cc
  same-eq stream queue h = cc
  same-eq stream kv h = cc
  same-eq stream stream h = refl
  same-eq stream schedule h = cc
  same-eq schedule queue h = cc
  same-eq schedule kv h = cc
  same-eq schedule stream h = cc
  same-eq schedule schedule h = refl

  pub settle_domains-IsSettled :
      (before after : DomainLedger) (ds : List DurableDomain)
      → settle_domains seen before ds ≡ ok after
      → (d : DurableDomain) → IsSettled seen d (before d) ⊎ (is_in d ds ≡ true)
      → IsSettled seen d (after d)
  unfolding settle_domains is_in
  settle_domains-IsSettled before after [] h d (inl s) =
      subst (λ l. IsSettled seen d (l d)) (ok-inj h) s
  settle_domains-IsSettled before after [] h d (inr k) = cc
  settle_domains-IsSettled before after (d' ∷ ds) h d now =
      let (ns, here, later) = >>=-eq-ok (observed_in seen d') _ h in
      settle_domains-IsSettled (update before d' (λ e. tidied (record e { observed = ns }))) after
        ds later d (next ns here (same d' d) refl)
    where
      next :
          (ns : List ℕ)
          → observed_in seen d' ≡ ok ns
          → (b : Bool) → same d' d ≡ b
          → IsSettled seen d (if b then tidied (record (before d) { observed = ns }) else before d)
            ⊎ (is_in d ds ≡ true)
      next ns here true e = inl (
          tidied-IsSettled seen d (before d) ns
            (subst (λ k. observed_in seen k ≡ ok ns) (same-eq d' d e) here))
      next ns here false e = elim now [ inl s ↦ inl s | inr k ↦ inr (rw e at k) ]
