-- ===== src/Runner/Messages.antt =====
-- The texts of the failures of src/agent_loop/runner.rs.
use minicore_runtime.Base.{[], ◌∷◌}
use minicore_runtime.Text.{Text}

-- "prompt preparation failed"
abbrev pub prompt_text : Text
prompt_text =
    112 ∷ 114 ∷ 111 ∷ 109 ∷ 112 ∷ 116 ∷ 32 ∷ 112 ∷ 114 ∷ 101 ∷ 112 ∷ 97 ∷ 114 ∷ 97 ∷ 116 ∷ 105 ∷ 111
    ∷ 110 ∷ 32 ∷ 102 ∷ 97 ∷ 105 ∷ 108 ∷ 101 ∷ 100 ∷ []

-- "model output exceeded the configured limit"
abbrev pub output_text : Text
output_text =
    109 ∷ 111 ∷ 100 ∷ 101 ∷ 108 ∷ 32 ∷ 111 ∷ 117 ∷ 116 ∷ 112 ∷ 117 ∷ 116 ∷ 32 ∷ 101 ∷ 120 ∷ 99 ∷ 101
    ∷ 101 ∷ 100 ∷ 101 ∷ 100 ∷ 32 ∷ 116 ∷ 104 ∷ 101 ∷ 32 ∷ 99 ∷ 111 ∷ 110 ∷ 102 ∷ 105 ∷ 103 ∷ 117
    ∷ 114 ∷ 101 ∷ 100 ∷ 32 ∷ 108 ∷ 105 ∷ 109 ∷ 105 ∷ 116 ∷ []

-- "model refused to answer"
abbrev pub refused_text : Text
refused_text =
    109 ∷ 111 ∷ 100 ∷ 101 ∷ 108 ∷ 32 ∷ 114 ∷ 101 ∷ 102 ∷ 117 ∷ 115 ∷ 101 ∷ 100 ∷ 32 ∷ 116 ∷ 111 ∷ 32
    ∷ 97 ∷ 110 ∷ 115 ∷ 119 ∷ 101 ∷ 114 ∷ []

-- "model response was content filtered"
abbrev pub filtered_text : Text
filtered_text =
    109 ∷ 111 ∷ 100 ∷ 101 ∷ 108 ∷ 32 ∷ 114 ∷ 101 ∷ 115 ∷ 112 ∷ 111 ∷ 110 ∷ 115 ∷ 101 ∷ 32 ∷ 119 ∷ 97
    ∷ 115 ∷ 32 ∷ 99 ∷ 111 ∷ 110 ∷ 116 ∷ 101 ∷ 110 ∷ 116 ∷ 32 ∷ 102 ∷ 105 ∷ 108 ∷ 116 ∷ 101 ∷ 114
    ∷ 101 ∷ 100 ∷ []

-- "tool policy evaluation failed"
abbrev pub policy_text : Text
policy_text =
    116 ∷ 111 ∷ 111 ∷ 108 ∷ 32 ∷ 112 ∷ 111 ∷ 108 ∷ 105 ∷ 99 ∷ 121 ∷ 32 ∷ 101 ∷ 118 ∷ 97 ∷ 108 ∷ 117
    ∷ 97 ∷ 116 ∷ 105 ∷ 111 ∷ 110 ∷ 32 ∷ 102 ∷ 97 ∷ 105 ∷ 108 ∷ 101 ∷ 100 ∷ []

-- "pending interaction was not resolved"
abbrev pub interaction_text : Text
interaction_text =
    112 ∷ 101 ∷ 110 ∷ 100 ∷ 105 ∷ 110 ∷ 103 ∷ 32 ∷ 105 ∷ 110 ∷ 116 ∷ 101 ∷ 114 ∷ 97 ∷ 99 ∷ 116 ∷ 105
    ∷ 111 ∷ 110 ∷ 32 ∷ 119 ∷ 97 ∷ 115 ∷ 32 ∷ 110 ∷ 111 ∷ 116 ∷ 32 ∷ 114 ∷ 101 ∷ 115 ∷ 111 ∷ 108
    ∷ 118 ∷ 101 ∷ 100 ∷ []

-- "maximum tool rounds reached"
abbrev pub rounds_text : Text
rounds_text =
    109 ∷ 97 ∷ 120 ∷ 105 ∷ 109 ∷ 117 ∷ 109 ∷ 32 ∷ 116 ∷ 111 ∷ 111 ∷ 108 ∷ 32 ∷ 114 ∷ 111 ∷ 117 ∷ 110
    ∷ 100 ∷ 115 ∷ 32 ∷ 114 ∷ 101 ∷ 97 ∷ 99 ∷ 104 ∷ 101 ∷ 100 ∷ []

-- "loop runner hit an internal error"
abbrev pub internal_text : Text
internal_text =
    108 ∷ 111 ∷ 111 ∷ 112 ∷ 32 ∷ 114 ∷ 117 ∷ 110 ∷ 110 ∷ 101 ∷ 114 ∷ 32 ∷ 104 ∷ 105 ∷ 116 ∷ 32 ∷ 97
    ∷ 110 ∷ 32 ∷ 105 ∷ 110 ∷ 116 ∷ 101 ∷ 114 ∷ 110 ∷ 97 ∷ 108 ∷ 32 ∷ 101 ∷ 114 ∷ 114 ∷ 111 ∷ 114
    ∷ []

-- "loop runner panicked"
abbrev pub panicked_text : Text
panicked_text =
    108 ∷ 111 ∷ 111 ∷ 112 ∷ 32 ∷ 114 ∷ 117 ∷ 110 ∷ 110 ∷ 101 ∷ 114 ∷ 32 ∷ 112 ∷ 97 ∷ 110 ∷ 105 ∷ 99
    ∷ 107 ∷ 101 ∷ 100 ∷ []

-- "model returned an invalid response"
abbrev pub response_text : Text
response_text =
    109 ∷ 111 ∷ 100 ∷ 101 ∷ 108 ∷ 32 ∷ 114 ∷ 101 ∷ 116 ∷ 117 ∷ 114 ∷ 110 ∷ 101 ∷ 100 ∷ 32 ∷ 97 ∷ 110
    ∷ 32 ∷ 105 ∷ 110 ∷ 118 ∷ 97 ∷ 108 ∷ 105 ∷ 100 ∷ 32 ∷ 114 ∷ 101 ∷ 115 ∷ 112 ∷ 111 ∷ 110 ∷ 115
    ∷ 101 ∷ []
