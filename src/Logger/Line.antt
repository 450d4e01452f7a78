-- ===== src/Logger/Line.antt =====
-- A line of src/utils/logger.c stays within the buffer, and what is written of it.
use schaufel.Common.{List}
