-- ===== src/Router/Effort.antt =====
-- internal/backend/agent/model/router.go and anthropic.go: the words for the effort of reasoning.
use cursor_switch.Common.{Bool, false, ◌||◌, List, [], ◌∷◌, if◌then◌else◌}
use cursor_switch.Common.Text.{Text, codes, trim_space, lower_text, ◌==◌}

-- `case "a", "b", …` of a switch on s.
abbrev pub is_one_of : List Text → Text → Bool
is_one_of [] s = false
is_one_of (word ∷ words) s = s == word || is_one_of words s

abbrev pub efforts : List Text
efforts = codes "low" ∷ codes "medium" ∷ codes "high" ∷ codes "xhigh" ∷ codes "max" ∷ []

abbrev pub disabling_words : List Text
disabling_words =
    codes "disable" ∷ codes "off" ∷ codes "none" ∷ codes "false" ∷ codes "no" ∷ codes "0" ∷ []

abbrev pub xhigh_words : List Text
xhigh_words =
    codes "very_high"
    ∷ codes "very-high"
    ∷ codes "veryhigh"
    ∷ codes "x-high"
    ∷ codes "extra_high"
    ∷ codes "extra-high"
    ∷ codes "extrahigh"
    ∷ []

-- `NormalizeRuntimeThinkingEffort`, after the trim and the change to lower case.
unfoldable pub normalize_word : Text → Text
normalize_word word =
    if is_one_of (codes "disabled" ∷ efforts) word
    then word
    else if is_one_of disabling_words word
    then codes "disabled"
    else if is_one_of xhigh_words word
    then codes "xhigh"
    else if word == codes "maximum"
    then codes "max"
    else []

unfoldable pub normalize_runtime_thinking_effort : Text → Text
unfolding normalize_word
normalize_runtime_thinking_effort raw = normalize_word (lower_text (trim_space raw))

unfoldable pub openai_reasoning_effort_from_runtime : Text → Text
openai_reasoning_effort_from_runtime effort =
    let word = normalize_runtime_thinking_effort effort in
    if is_one_of efforts word then word else []

-- `anthropicThinkingEffort`, on the field that it reads.
unfoldable pub anthropic_thinking_effort_of : Text → Text
anthropic_thinking_effort_of effort =
    let word = lower_text (trim_space effort) in
    if is_one_of efforts word then word else codes "xhigh"
