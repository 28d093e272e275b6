-- ===== src/Tools.antt =====
-- src/tools/types.rs and src/tools/tool.rs: outcomes and outputs of tools.
use minicore_runtime.Base.{true, if◌then◌else◌, Result, err, map_err}
use minicore_runtime.Text.{Text, valid_text, max_text_bytes, new_with_max_bytes}
use minicore_runtime.Interaction.{ToolValueError}

pub data ToolResultOutcome : Type 0 where
  success failed denied cancelled input_provided : ToolResultOutcome

-- ToolOutput::new; a `ToolOutput` is the text that it holds.
unfoldable pub tool_output : Text → Result Text ToolValueError
unfolding new_with_max_bytes
tool_output content =
    if valid_text content max_text_bytes true
    then map_err (λ e. ToolValueError.invalid_text) (new_with_max_bytes content max_text_bytes)
    else err ToolValueError.invalid_text
