-- ===== src/Addon/Pages.antt =====
-- The page of candidates that the panel shows.
use wetype_ime_linux.Base.{ℕ, ◌+◌, ◌%◌, ◌≤◌, ◌<◌, ◌≡◌, min}
use wetype_ime_linux.Addon.State.{Addon}

-- A page that is in order: it starts at a multiple of its size, below the number of candidates, and
-- the index selected is on it.
pub record IsPage (page count : ℕ) (w : ℕ × ℕ) : Type 0 where
  pub aligned : w.0 % page ≡ 0
  pub starts : w.0 < count
  pub after : w.0 ≤ w.1
  pub before : w.1 < min (w.0 + page) count
