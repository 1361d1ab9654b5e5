-- ===== src/Buyer/Service/Recovery/Bound.antt =====
-- Recovery in buyer/app/service.py: consecutive turns of the loop that start anew after a failure of the
-- browser.
use codex_browser.Prelude.{
  ℕ, suc, ◌+◌, ◌-◌, ◌≤◌, String, ◌≡◌, ◌≢◌, ◌⊎◌, none, some, List, length, All,
}
use codex_browser.Json.{Fields}
use codex_browser.Buyer.Domains.{UrlLib}
use codex_browser.Buyer.Service.World.{Outcome, done, Outside, Config, World}
use codex_browser.Buyer.Service.Recovery.{Progress, Turn, again, over, started_at}
use codex_browser.Buyer.Service.Loop.{turn}

from_done : {A : Type 0} → A → Outcome A → A
from_done a (done b) = b
from_done a _ = a

module _ (O : Outside) (K : Config) where
  -- The turn counts one more attempt, which began, at a reading of the clock, within the window.
  abbrev pub Retried : Progress → Progress → Type 0
  Retried p p' =
      (p'.recovery_attempts ≡ suc p.recovery_attempts)
      × ((n : ℕ) × (p'.recovery_started_at
            ≡ some (started_at p.recovery_started_at (O.loop_time n)))
          × (O.loop_time n - started_at p.recovery_started_at (O.loop_time n) ≤ K.window))

  -- The turn goes on with no attempt counted, or with one more.
  abbrev pub Follows : Progress → Turn → Type 0
  Follows p over = Unit
  Follows p (again p') =
      ((p'.recovery_attempts ≡ 0) × (p'.recovery_started_at ≡ none)) ⊎ Retried p p'

  module _ (L : UrlLib) where
    -- So many consecutive turns of the loop that each go on to another attempt, in whatever worlds the
    -- other tasks leave.
    pub data Attempts (session_id : String) (auth_summary : Fields) : ℕ → Progress → Type 0 where
      none_yet :
          (p : Progress)
          → p.recovery_started_at ≡ none
          → p.recovery_attempts ≡ 0
          → Attempts session_id auth_summary 0 p
      one_more :
          {c : ℕ} {p : Progress}
          → Attempts session_id auth_summary c p
          → (w : World) (p' : Progress)
          → (turn L O K session_id auth_summary p w).0 ≡ done (again p')
          → p'.recovery_attempts ≢ 0
          → Attempts session_id auth_summary (suc c) p'

    -- Recovery began at a reading of the clock; the later attempts are readings within the window.
    abbrev pub WithinWindow : ℕ → Progress → Type 0
    WithinWindow c p =
        (first : ℕ) × (rest : List ℕ) × (suc (length rest) ≡ c)
        × (p.recovery_started_at ≡ some (O.loop_time first))
        × All (λ n. O.loop_time n ≤ O.loop_time first + K.window) rest
