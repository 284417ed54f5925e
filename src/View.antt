-- ===== src/View.antt =====
-- What the views of the recorded session share.
pub mod ReplayCursor
