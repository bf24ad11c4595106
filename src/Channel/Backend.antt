-- ===== src/Channel/Backend.antt =====
-- nsqd/backend_queue.go: BackendQueueReader, as far as a channel confirms to it.
use nsq.Base.{ℕ, ◌<◌, ◌≡◌, Bool, true, false}

-- The confirmed position is an offset and a message count. `confirm_read` says whether it failed.
pub record Backend : Type 1 where
  pub Reader : Type 0
  pub confirmed : Reader → ℕ
  pub confirmed_cnt : Reader → ℕ
  pub confirm_read : Reader → ℕ → ℕ → Reader × Bool
  -- A confirmation beyond the confirmed offset moves it there, or fails and leaves it.
  pub moves :
      (r : Reader) (offset cnt : ℕ)
      → confirmed r < offset
      → (confirm_read r offset cnt).1 ≡ false
      → confirmed (confirm_read r offset cnt).0 ≡ offset
  pub stays :
      (r : Reader) (offset cnt : ℕ)
      → (confirm_read r offset cnt).1 ≡ true
      → confirmed (confirm_read r offset cnt).0 ≡ confirmed r
