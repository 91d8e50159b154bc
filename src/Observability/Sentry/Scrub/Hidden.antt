-- ===== src/Observability/Sentry/Scrub/Hidden.antt =====
-- What can be read out of a scrubbed event (backend/services/observability/sentry.py).
use mathlib.Core.Option
use llm_inference_gpu_server.Common.{
  ⊤, ℕ, zero, suc, String, ◌≡◌, refl, sym, ◌∙◌, ap, Bool, true, false, Option, none, some, List, [],
  ◌∷◌, if◌then◌else◌, str_eq, eq_iff, inl, inr, Bool-cases, some_of,
}
use llm_inference_gpu_server.Json.{
  Json, null, bool, int, float, str, arr, obj, Items, nil, cons, Fields, end, field, get_field,
}
use llm_inference_gpu_server.Observability.Sentry.Patterns.{redacted}
use llm_inference_gpu_server.Observability.Sentry.Scrub.{
  is_hidden, scrub_data, scrub_items, scrub_fields,
}

-- A step into a value, and the value at the end of a path.
pub data Step : Type 0 where
  key : String → Step
  index : ℕ → Step

unfoldable pub item : Items → ℕ → Option Json
item nil i = none
item (cons v items) zero = some v
item (cons v items) (suc i) = item items i

unfoldable pub child : Step → Json → Option Json
child (key k) (obj fields) = get_field fields k
child (index i) (arr items) = item items i
child _ _ = none

unfoldable pub lookup : List Step → Json → Option Json
lookup [] v = some v
lookup (s ∷ path) v = elim (child s v) [ none ↦ none | some w ↦ lookup path w ]

abbrev pub hides : Step → Bool
hides (key k) = is_hidden k
hides (index i) = false

-- Behind a key that hides there is only the filler.
abbrev pub Shown : List Step → Json → Type 0
Shown [] w = ⊤
Shown (s ∷ path) w = (hides s ≡ true → (path ≡ []) × (w ≡ str redacted)) × Shown path w

abbrev pub NoneHidden : List Step → Type 0
NoneHidden [] = ⊤
NoneHidden (s ∷ path) = (hides s ≡ false) × NoneHidden path

module _ (is_word : ℕ → Bool) where
  abbrev pub seen : Step → Json → Json
  seen s v = if hides s then str redacted else scrub_data is_word v

  get_field-scrub_fields :
      (fields : Fields) (k : String)
      → get_field (scrub_fields is_word fields) k ≡ Option.map (seen (key k)) (get_field fields k)
  unfolding get_field scrub_data
  get_field-scrub_fields end k = refl
  get_field-scrub_fields (field j v fields) k = elim (Bool-cases (str_eq j k)) [
    | inl e ↦ rw (e, ap is_hidden ((eq_iff j k).0 e)) refl
    | inr e ↦ rw e (get_field-scrub_fields fields k)
  ]

  item-scrub_items :
      (items : Items) (i : ℕ)
      → item (scrub_items is_word items) i ≡ Option.map (scrub_data is_word) (item items i)
  unfolding item scrub_data
  item-scrub_items nil i = refl
  item-scrub_items (cons v items) zero = refl
  item-scrub_items (cons v items) (suc i) = item-scrub_items items i

  child-scrub_data :
      (s : Step) (v : Json) → child s (scrub_data is_word v) ≡ Option.map (seen s) (child s v)
  unfolding child scrub_data
  child-scrub_data (key k) (obj fields) = get_field-scrub_fields fields k
  child-scrub_data (index i) (arr items) = item-scrub_items items i
  child-scrub_data (key k) null = refl
  child-scrub_data (key k) (bool b) = refl
  child-scrub_data (key k) (int n) = refl
  child-scrub_data (key k) (float n b) = refl
  child-scrub_data (key k) (str s) = refl
  child-scrub_data (key k) (arr items) = refl
  child-scrub_data (index i) null = refl
  child-scrub_data (index i) (bool b) = refl
  child-scrub_data (index i) (int n) = refl
  child-scrub_data (index i) (float n b) = refl
  child-scrub_data (index i) (str s) = refl
  child-scrub_data (index i) (obj fields) = refl

  -- Below the filler there is nothing.
  lookup-redacted :
      (path : List Step) (w : Json)
      → lookup path (str redacted) ≡ some w
      → (path ≡ []) × (w ≡ str redacted)
  unfolding lookup child
  lookup-redacted [] w h = (refl, sym (some_of h))
  lookup-redacted (key k ∷ path) w h = absurd (cc)
  lookup-redacted (index i ∷ path) w h = absurd (cc)

  filler-Shown : (path : List Step) (w : Json) → path ≡ [] → Shown path w
  filler-Shown [] w h = tt
  filler-Shown (s ∷ path) w h = absurd (cc)

  -- Whatever can be read out of a scrubbed value, by any path of keys and indices: where the path
  -- takes a key that hides, it ends there, at the filler.
  pub scrub_data-Shown :
      (path : List Step) (v w : Json) → lookup path (scrub_data is_word v) ≡ some w → Shown path w
  unfolding lookup
  scrub_data-Shown [] v w h = tt
  scrub_data-Shown (s ∷ path) v w h =
      go (λ u. scrub_data-Shown path u w) (child s v) (hides s) refl
        (sym (ap (λ o. elim o [ none ↦ none | some u ↦ lookup path u ]) (child-scrub_data s v)) ∙ h)
    where
      go :
          ((u : Json) → lookup path (scrub_data is_word u) ≡ some w → Shown path w)
          → (o : Option Json) (b : Bool) → hides s ≡ b
          → (elim (Option.map (seen s) o) [ none ↦ none | some u ↦ lookup path u ]) ≡ some w
          → Shown (s ∷ path) w
      go below none b e h = absurd (cc)
      go below (some u) true e h =
          let (p, q) = lookup-redacted path w (rw e at h) in (λ _. (p, q), filler-Shown path w p)
      go below (some u) false e h = (λ t. absurd (cc), below u (rw e at h))

  -- Along a path with no key that hides, the scrubbed value has what the value has there, scrubbed.
  pub lookup-scrub_data :
      (path : List Step) (v : Json)
      → NoneHidden path
      → lookup path (scrub_data is_word v) ≡ Option.map (scrub_data is_word) (lookup path v)
  unfolding lookup
  lookup-scrub_data [] v h = refl
  lookup-scrub_data (s ∷ path) v (e, h) =
      ap (λ o. elim o [ none ↦ none | some u ↦ lookup path u ]) (child-scrub_data s v)
      ∙ go (λ u. lookup-scrub_data path u h) (child s v)
    where
      go :
          ((u : Json)
            → lookup path (scrub_data is_word u) ≡ Option.map (scrub_data is_word) (lookup path u))
          → (o : Option Json)
          → (elim (Option.map (seen s) o) [ none ↦ none | some u ↦ lookup path u ])
            ≡ Option.map (scrub_data is_word) (elim o [ none ↦ none | some u ↦ lookup path u ])
      go below none = refl
      go below (some u) = rw e (below u)
