-- ===== src/Inference/Chat.antt =====
-- A validated chat request (backend/schemas/chat_completion.py), as far as the gateway reads it.
use llm_inference_gpu_server.Common.{ℕ, ◌+◌, String, Bool, Option, List, [], ◌∷◌}
use llm_inference_gpu_server.Common.Int.{ℤ}
use llm_inference_gpu_server.Text.{Text}

-- `MessageContentPart`: a `TextContentPart`, or an `ImageContentPart` with its URL.
pub data Part : Type 0 where
  text_part : Text → Part
  image_part : Text → Part

-- `ChatMessageContent`
pub data Content : Type 0 where
  plain : Text → Content
  parts : List Part → Content

-- `ChatMessage`
pub record ChatMessage : Type 0 where
  pub role : Text
  pub content : Content

-- `ChatCompletionRequest`
pub record ChatCompletionRequest : Type 0 where
  pub model : String
  pub messages : List ChatMessage
  pub stream : Bool
  pub max_tokens : Option ℤ

unfoldable pub texts_of : List Part → List Text
texts_of [] = []
texts_of (text_part t ∷ ps) = t ∷ texts_of ps
texts_of (image_part u ∷ ps) = texts_of ps

unfoldable pub images_of : List Part → ℕ
images_of [] = 0
images_of (text_part t ∷ ps) = images_of ps
images_of (image_part u ∷ ps) = 1 + images_of ps

-- `iter_message_text_parts`
unfoldable pub iter_message_text_parts : Content → List Text
iter_message_text_parts (plain t) = t ∷ []
iter_message_text_parts (parts ps) = texts_of ps

-- `count_message_images`
unfoldable pub count_message_images : Content → ℕ
count_message_images (plain t) = 0
count_message_images (parts ps) = images_of ps
