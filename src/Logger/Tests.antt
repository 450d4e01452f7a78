-- ===== src/Logger/Tests.antt =====
-- Lines of src/utils/logger.c.
use schaufel.Common.{◌≡◌, refl, none}
use schaufel.Logger.{logger_log, write_bytes, buffer_set_timestamp}

-- Without a time, an error of vsnprintf is a write before the buffer.
error_faults : logger_log (λ _. 0) none none ≡ none
unfolding logger_log write_bytes buffer_set_timestamp
error_faults = refl
