-- ===== src/Vllm/Stream.antt =====
-- The events of a streamed response (backend/services/vllm/stream.py). A generator is the list of
-- what it yields.
use llm_inference_gpu_server.Common.{
  ◌≡◌, refl, ◌∙◌, ap, Bool, true, false, ◌||◌, List, [], ◌∷◌, ◌++◌, map, inl, inr, if◌then◌else◌,
  Bool-cases,
}
use llm_inference_gpu_server.Text.{Text, codes, text_eq, strip, lstrip, rstrip}

abbrev pub done_line : Text
done_line = codes "data: [DONE]"

abbrev line_end : Text
line_end = 10 ∷ 10 ∷ []

-- `format_sse_data`
unfoldable pub format_sse_data : Text → Text
format_sse_data data_text = codes "data: " ++ data_text ++ line_end

-- `format_heartbeat`
unfoldable pub format_heartbeat : Text
format_heartbeat = codes ": heartbeat" ++ line_end

-- What `wait_for` gives: the next line, or no line within the interval.
pub data Wait : Type 0 where
  line : Text → Wait
  timeout : Wait

-- `stream_with_heartbeats`
unfoldable pub stream_with_heartbeats : List Wait → List Text
stream_with_heartbeats [] = []
stream_with_heartbeats (line l ∷ waits) = l ∷ stream_with_heartbeats waits
stream_with_heartbeats (timeout ∷ waits) = format_heartbeat ∷ stream_with_heartbeats waits

-- `stripped.endswith("\n\n")`
unfoldable pub ends_with : Text → Text → Bool
ends_with suffix [] = text_eq suffix []
ends_with suffix (c ∷ s) = text_eq suffix (c ∷ s) || ends_with suffix s

-- `stripped if stripped.endswith("\n\n") else f"{stripped}\n\n"`
unfoldable pub to_event : Text → Text
to_event stripped = if ends_with line_end stripped then stripped else stripped ++ line_end

abbrev is_blank : Text → Bool
is_blank [] = true
is_blank (c ∷ s) = false

-- The loop of `ensure_done_event`, from the value of `sent_done` on.
unfoldable pub ensure_done_from : Bool → List Text → List Text
ensure_done_from sent_done [] = if sent_done then [] else format_sse_data (codes "[DONE]") ∷ []
ensure_done_from sent_done (l ∷ lines) =
    let skip = ensure_done_from sent_done lines in
    let rest = ensure_done_from (sent_done || text_eq (strip l) done_line) lines in
    if is_blank (strip l) then skip else to_event (strip l) ∷ rest

-- `ensure_done_event`
unfoldable pub ensure_done_event : List Text → List Text
ensure_done_event lines = ensure_done_from false lines

-- The lines that are not blank, without their ends.
unfoldable pub stripped_lines : List Text → List Text
stripped_lines [] = []
stripped_lines (l ∷ lines) =
    let rest = stripped_lines lines in if is_blank (strip l) then rest else strip l ∷ rest

unfoldable pub has_done : List Text → Bool
has_done [] = false
has_done (l ∷ lines) = text_eq l done_line || has_done lines

or_assoc : (a b c : Bool) → ((a || b) || c) ≡ (a || (b || c))
or_assoc true b c = refl
or_assoc false b c = refl

abbrev closing : Bool → List Text
closing sent_done = if sent_done then [] else format_sse_data (codes "[DONE]") ∷ []

ensure_done_from-closing :
    (sent_done : Bool) (lines : List Text)
    → ensure_done_from sent_done lines
      ≡ map to_event (stripped_lines lines)
        ++ closing (sent_done || has_done (stripped_lines lines))
unfolding ensure_done_from stripped_lines has_done
ensure_done_from-closing true [] = refl
ensure_done_from-closing false [] = refl
ensure_done_from-closing sent_done (l ∷ lines) = elim (Bool-cases (is_blank (strip l))) [
  | inl h ↦ rw h (ensure_done_from-closing sent_done lines)
  | inr h ↦ rw h (
      ap (λ x. to_event (strip l) ∷ x)
        (ensure_done_from-closing (sent_done || text_eq (strip l) done_line) lines
          ∙ rw or_assoc refl))
]

pub ensure_done_event-closing :
    (lines : List Text)
    → ensure_done_event lines
      ≡ map to_event (stripped_lines lines)
        ++ (if has_done (stripped_lines lines) then [] else format_sse_data (codes "[DONE]") ∷ [])
unfolding ensure_done_event
ensure_done_event-closing lines = ensure_done_from-closing false lines

-- The lines that came, and what the client is sent for each wait.
unfoldable pub lines_of : List Wait → List Text
lines_of [] = []
lines_of (line l ∷ waits) = l ∷ lines_of waits
lines_of (timeout ∷ waits) = lines_of waits

unfoldable pub events_of : List Wait → List Text
events_of [] = []
events_of (line l ∷ waits) =
    let rest = events_of waits in if is_blank (strip l) then rest else to_event (strip l) ∷ rest
events_of (timeout ∷ waits) = format_heartbeat ∷ events_of waits

strip_heartbeat : strip format_heartbeat ≡ codes ": heartbeat"
unfolding strip lstrip rstrip format_heartbeat
strip_heartbeat = refl

event_of_heartbeat : to_event (codes ": heartbeat") ≡ format_heartbeat
unfolding to_event ends_with text_eq format_heartbeat
event_of_heartbeat = refl

heartbeat_ne_done : text_eq (codes ": heartbeat") done_line ≡ false
unfolding text_eq
heartbeat_ne_done = refl

events_of-stripped_lines :
    (waits : List Wait)
    → map to_event (stripped_lines (stream_with_heartbeats waits)) ≡ events_of waits
unfolding stripped_lines stream_with_heartbeats events_of
events_of-stripped_lines [] = refl
events_of-stripped_lines (line l ∷ waits) = elim (Bool-cases (is_blank (strip l))) [
  | inl h ↦ rw h (events_of-stripped_lines waits)
  | inr h ↦ rw h (ap (λ x. to_event (strip l) ∷ x) (events_of-stripped_lines waits))
]
events_of-stripped_lines (timeout ∷ waits) =
    rw (strip_heartbeat, event_of_heartbeat)
      (ap (λ x. format_heartbeat ∷ x) (events_of-stripped_lines waits))

has_done-lines_of :
    (waits : List Wait)
    → has_done (stripped_lines (stream_with_heartbeats waits))
      ≡ has_done (stripped_lines (lines_of waits))
unfolding stripped_lines stream_with_heartbeats lines_of has_done
has_done-lines_of [] = refl
has_done-lines_of (line l ∷ waits) = elim (Bool-cases (is_blank (strip l))) [
  | inl h ↦ rw h (has_done-lines_of waits)
  | inr h ↦ rw h (ap (λ x. text_eq (strip l) done_line || x) (has_done-lines_of waits))
]
has_done-lines_of (timeout ∷ waits) =
    rw (strip_heartbeat, heartbeat_ne_done) (has_done-lines_of waits)

pub ensure_done_event-stream_with_heartbeats :
    (waits : List Wait)
    → ensure_done_event (stream_with_heartbeats waits)
      ≡ events_of waits
        ++ (if has_done (stripped_lines (lines_of waits))
            then []
            else format_sse_data (codes "[DONE]") ∷ [])
ensure_done_event-stream_with_heartbeats waits =
    ensure_done_event-closing (stream_with_heartbeats waits)
    ∙ rw (events_of-stripped_lines, has_done-lines_of) refl
