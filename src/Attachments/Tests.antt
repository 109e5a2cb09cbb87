-- ===== src/Attachments/Tests.antt =====
-- An attachment at concrete inputs.
use rakazo.Common.{Text}

abbrev same : Text → Text
same s = s
