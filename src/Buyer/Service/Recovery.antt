-- ===== src/Buyer/Service/Recovery.antt =====
-- buyer/app/service.py: recovery from failures of the browser, by more attempts within a window of time.
pub mod Bound
use codex_browser.Prelude.{
  ℕ, suc, ◌-◌, String, false, Option, none, some, if◌then◌else◌, leb, concat, show_nat,
}
use codex_browser.Json.{bool, num, str, obj, Fields, end, field, assign}
use codex_browser.Buyer.Text.{tail_text}

-- The local variables of the loop.
pub record Progress : Type 0 where
  pub latest_user_reply : Option String
  pub step_index : ℕ
  pub recovery_started_at : Option ℕ
  pub recovery_attempts : ℕ
  pub last_error_tail : String

abbrev pub at_start : Progress
at_start = record {
  latest_user_reply = none;
  step_index = 0;
  recovery_started_at = none;
  recovery_attempts = 0;
  last_error_tail = "none";
}

-- After a step that is no failure of the browser, recovery starts anew.
abbrev pub recovered : Progress → Progress
recovered p = record p {
  recovery_started_at = none;
  recovery_attempts = 0;
  last_error_tail = "none";
}

-- A turn of the loop goes on, or it was the last.
pub data Turn : Type 0 where
  again : Progress → Turn
  over : Turn

-- When recovery began: at the first failure.
abbrev pub started_at : Option ℕ → ℕ → ℕ
started_at none now = now
started_at (some t) now = t

-- One more attempt, while no more time than the window has gone by since recovery began.
unfoldable pub retry : ℕ → ℕ → String → Progress → Option Progress
retry window now message p =
    let started = started_at p.recovery_started_at now in
    if leb (now - started) window
    then some (record p {
      recovery_started_at = some started;
      recovery_attempts = suc p.recovery_attempts;
      last_error_tail = tail_text message 500;
    })
    else none

abbrev pub recovery_note : Progress → String → String
recovery_note p start_url = concat "[CDP_RECOVERY_RESTART_FROM_START_URL] Попытка восстановления " (
    concat (show_nat p.recovery_attempts) (
      concat ". Обнаружен transient CDP-сбой: " (
        concat p.last_error_tail
          (concat ". Начни шаг заново с `goto --url " (concat start_url "`.")))))

abbrev pub recovery_artifacts : ℕ → Progress → Fields → Fields
recovery_artifacts window p artifacts = assign artifacts "recovery" (
    obj (
      field "recovered_after_retry" (bool false) (
        field "attempts" (num p.recovery_attempts)
          (field "window_sec" (num window) (field "last_error_tail" (str p.last_error_tail) end)))))
