-- ===== src/Storage/References/Deletions.antt =====
-- What the deletions of internal/storage leave of the foreign keys.
use homepad_api.Base.{string_eq}
