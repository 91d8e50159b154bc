-- ===== src/Config/Tests.antt =====
-- Two models (backend/core/config.py).
use llm_inference_gpu_server.Common.{◌≡◌, refl, none, List, [], ◌∷◌, map}
use llm_inference_gpu_server.Text.{Text, codes, strip, lstrip, rstrip}
use llm_inference_gpu_server.Config.{
  Settings, ModelObject, list_models, vllm_served_model, join, list_models-Configured, model_ids,
  split, stripped,
}

abbrev ids : List Text
ids = codes "qwen" ∷ codes "test-model" ∷ []

abbrev settings : Settings
settings = record {
  model_ids_raw = join ids;
  vllm_served_model_name = none;
  vllm_model_path = codes "Qwen/Qwen3";
}

list_models-Configured_example :
    (map (λ (m : ModelObject). m.id) (list_models settings).models ≡ ids)
    × (vllm_served_model settings ≡ codes "qwen")
unfolding strip lstrip rstrip
list_models-Configured_example =
    list_models-Configured ids settings
      (
        (refl, refl, (refl, (refl, (refl, (refl, tt))))),
        (
          (
            refl,
            refl,
            (refl, (refl, (refl, (refl, (refl, (refl, (refl, (refl, (refl, (refl, tt)))))))))),
          ),
          tt,
        ),
      )
      refl refl

spaces :
    model_ids (record settings { model_ids_raw = codes " a ,, b c," })
    ≡ codes "a" ∷ codes "b c" ∷ []
unfolding model_ids split stripped strip lstrip rstrip
spaces = refl
