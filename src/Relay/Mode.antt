-- ===== src/Relay/Mode.antt =====
-- relay/constant/relay_mode.go: the relay mode of a path. `HasPrefix`, `HasSuffix` and `Contains` of
-- package strings are parameters.
use veloera.Base.{String, Bool, ◌&&◌, ◌||◌, if◌then◌else◌, ◌≢◌, arith}
use text.Mathlib.Text.{◌==◌ as str_eq}

-- The constants `RelayMode…`.
pub data RelayMode : Type 0 where
  unknown chat_completions completions embeddings moderations images_generations edits : RelayMode
  midjourney_imagine midjourney_describe midjourney_blend midjourney_change : RelayMode
  midjourney_simple_change midjourney_notify midjourney_task_fetch : RelayMode
  midjourney_task_image_seed midjourney_task_fetch_by_condition midjourney_action : RelayMode
  midjourney_modal midjourney_shorten swap_face midjourney_upload : RelayMode
  audio_speech audio_transcription audio_translation : RelayMode
  suno_fetch suno_fetch_by_id suno_submit rerank responses realtime : RelayMode

module _ (has_prefix has_suffix contains : String → String → Bool) where
  -- `Path2RelayMode`
  unfoldable pub path_to_relay_mode : String → RelayMode
  path_to_relay_mode path =
      if has_prefix path "/v1/chat/completions" || has_prefix path "/pg/chat/completions"
      then chat_completions
      else if has_prefix path "/v1/completions"
      then completions
      else if has_prefix path "/v1/embeddings"
      then embeddings
      else if has_suffix path "embeddings"
      then embeddings
      else if has_prefix path "/v1/moderations"
      then moderations
      else if has_prefix path "/v1/images/generations"
      then images_generations
      else if has_prefix path "/v1/edits"
      then edits
      else if has_prefix path "/v1/responses"
      then responses
      else if has_prefix path "/v1/audio/speech"
      then audio_speech
      else if has_prefix path "/v1/audio/transcriptions"
      then audio_transcription
      else if has_prefix path "/v1/audio/translations"
      then audio_translation
      else if has_prefix path "/v1/rerank"
      then rerank
      else if has_prefix path "/v1/realtime"
      then realtime
      else unknown

  -- `Path2RelayModeMidjourney`
  unfoldable pub path_to_relay_mode_midjourney : String → RelayMode
  path_to_relay_mode_midjourney path =
      if has_suffix path "/mj/submit/action"
      then midjourney_action
      else if has_suffix path "/mj/submit/modal"
      then midjourney_modal
      else if has_suffix path "/mj/submit/shorten"
      then midjourney_shorten
      else if has_suffix path "/mj/insight-face/swap"
      then swap_face
      else if has_suffix path "/submit/upload-discord-images"
      then midjourney_upload
      else if has_suffix path "/mj/submit/imagine"
      then midjourney_imagine
      else if has_suffix path "/mj/submit/blend"
      then midjourney_blend
      else if has_suffix path "/mj/submit/describe"
      then midjourney_describe
      else if has_suffix path "/mj/notify"
      then midjourney_notify
      else if has_suffix path "/mj/submit/change"
      then midjourney_change
      else if has_suffix path "/mj/submit/simple-change"
      then midjourney_change
      else if has_suffix path "/fetch"
      then midjourney_task_fetch
      else if has_suffix path "/image-seed"
      then midjourney_task_image_seed
      else if has_suffix path "/list-by-condition"
      then midjourney_task_fetch_by_condition
      else unknown

  -- `Path2RelaySuno`
  unfoldable pub path_to_relay_suno : (method path : String) → RelayMode
  path_to_relay_suno method path =
      if str_eq method "POST" && has_suffix path "/fetch"
      then suno_fetch
      else if str_eq method "GET" && contains path "/fetch/"
      then suno_fetch_by_id
      else if contains path "/submit/"
      then suno_submit
      else unknown

-- No path has the mode `RelayModeMidjourneySimpleChange`, whatever the string tests answer.
pub simple_change-unreachable :
    (has_prefix has_suffix contains : String → String → Bool) (path : String)
    → path_to_relay_mode_midjourney has_prefix has_suffix contains path ≢ midjourney_simple_change
unfolding path_to_relay_mode_midjourney
simple_change-unreachable has_prefix has_suffix contains path e = ground arith
