-- ===== src/Config.antt =====
-- The models of the settings (backend/core/config.py) and their list
-- (backend/api/routes/models.py, backend/schemas/model.py).
mod Tests
use llm_inference_gpu_server.Common.{
  ℕ, String, ⊤, ◌≡◌, refl, ap, ◌∙◌, Bool, true, false, Option, none, some, List, [], ◌∷◌, ◌++◌, map,
  ◌==◌, if◌then◌else◌,
}
use llm_inference_gpu_server.Text.{Text, codes, strip, lstrip, rstrip}

-- `Settings`, the fields of the models.
pub record Settings : Type 0 where
  pub model_ids_raw : Text
  pub vllm_served_model_name : Option Text
  pub vllm_model_path : Text

abbrev pub onto_first : ℕ → List Text → List Text
onto_first c [] = (c ∷ []) ∷ []
onto_first c (s ∷ ss) = (c ∷ s) ∷ ss

-- `s.split(sep)`
unfoldable pub split : ℕ → Text → List Text
split sep [] = [] ∷ []
split sep (c ∷ s) = let rest = split sep s in if c == sep then [] ∷ rest else onto_first c rest

abbrev pub is_empty : Text → Bool
is_empty [] = true
is_empty (c ∷ s) = false

-- The parts that are not blank, without the space around them.
unfoldable pub stripped : List Text → List Text
stripped [] = []
stripped (s ∷ ss) = let rest = stripped ss in if is_empty (strip s) then rest else strip s ∷ rest

-- `Settings.model_ids`
unfoldable pub model_ids : Settings → List Text
model_ids settings = stripped (split b',' settings.model_ids_raw)

abbrev pub first_or : Text → List Text → Text
first_or path [] = path
first_or path (s ∷ ss) = s

-- `Settings.vllm_served_model`; an empty name is no name.
unfoldable pub vllm_served_model : Settings → Text
vllm_served_model settings = named settings.vllm_served_model_name
  where
    named : Option Text → Text
    named none = first_or settings.vllm_model_path (model_ids settings)
    named (some []) = first_or settings.vllm_model_path (model_ids settings)
    named (some (c ∷ s)) = c ∷ s

-- `ModelObject` and `ModelListResponse`, whose field `data` is `models`
pub record ModelObject : Type 0 where
  pub id : Text
  pub object : String
  pub owned_by : String

pub record ModelListResponse : Type 0 where
  pub object : String
  pub models : List ModelObject

-- `model_list_response`
unfoldable pub model_list_response : List Text → ModelListResponse
model_list_response ids = record {
  object = "list";
  models = map (λ id. record { id = id; object = "model"; owned_by = "yral" }) ids;
}

-- The route `list_models`
unfoldable pub list_models : Settings → ModelListResponse
list_models settings = model_list_response (model_ids settings)

-- `",".join(ids)`, as MODEL_IDS is written.
abbrev pub join : List Text → Text
join [] = []
join (id ∷ []) = id
join (id ∷ next ∷ ids) = id ++ b',' ∷ join (next ∷ ids)

abbrev pub NoComma : Text → Type 0
NoComma [] = ⊤
NoComma (c ∷ s) = (c == b',' ≡ false) × NoComma s

-- An identifier that can be written there: not empty, with no comma and no space at its ends.
abbrev pub Clean : Text → Type 0
Clean id = (is_empty id ≡ false) × (strip id ≡ id) × NoComma id

abbrev pub AllClean : List Text → Type 0
AllClean [] = ⊤
AllClean (id ∷ ids) = Clean id × AllClean ids

split-single : (id : Text) → NoComma id → split b',' id ≡ id ∷ []
unfolding split
split-single [] h = refl
split-single (c ∷ id) (e, h) = rw (e, split-single id h) refl

split-append : (id s : Text) → NoComma id → split b',' (id ++ b',' ∷ s) ≡ id ∷ split b',' s
unfolding split
split-append [] s h = refl
split-append (c ∷ id) s (e, h) = rw (e, split-append id s h) refl

split-join :
    (id : Text) (ids : List Text) → AllClean (id ∷ ids) → split b',' (join (id ∷ ids)) ≡ id ∷ ids
split-join id [] (c, h) = split-single id c.2
split-join id (next ∷ ids) (c, h) =
    split-append id (join (next ∷ ids)) c.2 ∙ ap (λ ss. id ∷ ss) (split-join next ids h)

stripped-clean : (ids : List Text) → AllClean ids → stripped ids ≡ ids
unfolding stripped
stripped-clean [] h = refl
stripped-clean (id ∷ ids) ((n, s, c), h) = rw (s, n, stripped-clean ids h) refl

model_ids-join :
    (ids : List Text) (settings : Settings)
    → AllClean ids
    → settings.model_ids_raw ≡ join ids
    → model_ids settings ≡ ids
unfolding model_ids split stripped strip lstrip rstrip
model_ids-join [] settings h e = rw e refl
model_ids-join (id ∷ ids) settings h e =
    ap (λ raw. stripped (split b',' raw)) e
    ∙ ap stripped (split-join id ids h)
    ∙ stripped-clean (id ∷ ids) h

ids-response :
    (ids : List Text) → map (λ (m : ModelObject). m.id) (model_list_response ids).models ≡ ids
unfolding model_list_response
ids-response [] = refl
ids-response (id ∷ ids) = ap (λ ss. id ∷ ss) (ids-response ids)

-- Where MODEL_IDS has identifiers between commas, each of them not empty, with no comma in it and no
-- space at its ends, the route of the models lists just these, in their order; and with no name of
-- its own the model of vLLM is served under the first of them, or under its path if there is none.
pub list_models-Configured :
    (ids : List Text) (settings : Settings)
    → AllClean ids
    → settings.model_ids_raw ≡ join ids
    → settings.vllm_served_model_name ≡ none
    → (map (λ (m : ModelObject). m.id) (list_models settings).models ≡ ids)
      × (vllm_served_model settings ≡ first_or settings.vllm_model_path ids)
unfolding list_models vllm_served_model model_ids
list_models-Configured ids settings h e n =
    let same = model_ids-join ids settings h e in
    (
      ap (λ i. map (λ (m : ModelObject). m.id) (model_list_response i).models) same
          ∙ ids-response ids,
      rw n (ap (first_or settings.vllm_model_path) same),
    )
