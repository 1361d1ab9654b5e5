-- ===== src/Lib.antt =====
-- codex-browser: a buyer agent service and the services around it, modelled from its Python
-- sources.
--
-- `buyer` (buyer/app) runs shopping sessions, a limited number at a time: it keeps them in a
-- store, drives an agent step by step, asks the user, verifies the payment evidence of a finished
-- step and sends callback events. `eval_service` runs evaluation cases against `buyer`: it stores
-- runs with their cases, and takes the buyer's callbacks, which move the state of a case.
-- `micro-ui` shows an operator the sessions and their events.
--
-- Files. `Prelude` holds the shared names and Python's string and list operations, `Dict` Python's
-- dictionaries (insertion order, string keys), `Json` JSON values. `Buyer/Models` is
-- buyer/app/models.py, `Buyer/Domains` the domain functions of buyer/app/auth_scripts.py,
-- `Buyer/Payment` buyer/app/payment_verifier.py, `Buyer/Session` buyer/app/state.py,
-- `Buyer/Delivery` buyer/app/callback.py, `Buyer/ExternalAuth` buyer/app/external_auth.py,
-- `Buyer/UrlPolicy` buyer/app/url_policy.py, `Buyer/Text` the cuts of buyer/app/_utils.py,
-- `Buyer/Sanitize` the sanitizers of buyer/app/persistence.py, and `Buyer/Service`
-- buyer/app/service.py: `World` what its session task sees, `Events` its events, `Auth` the login,
-- `Endings` the three ends, `Recovery`, `Steps` and `Loop` the turns of the loop, `Run` the whole
-- `_run_session`. `Eval/Models` is eval_service/app/models.py, `Eval/Helpers` runtime_helpers.py
-- there, `Eval/RunStore` run_store.py and `Eval/Callbacks` the callback handler of callbacks.py,
-- `Eval/OperatorReply` its reply handler. `Eval/Cases` holds a case and auth_profiles.py,
-- `Eval/CaseRegistry` case_registry.py, and `Eval/Selection` and `Eval/Orchestrator` are
-- orchestrator.py, `Eval/Redaction` the sanitizer of redaction.py, `Eval/Metrics` the results in
-- models.py, aggregation.py (`Summary`, `Aggregation`) and dashboard.py (`Dashboard`, and the
-- median of both in `Numbers`), and `Eval/Judge` judge_runner.py (`Runner`) and the judge of
-- api.py (`Batch`). The children of a module that are named for a topic hold the proofs.
-- `MicroUi/Store` and `MicroUi/Summary` are micro-ui/app/store.py, the summary of a session being
-- `list_sessions`. `Examples` applies the theorems at concrete inputs.
--
-- Conventions. An operation under the store's lock is one function of the store; readings of the
-- clock and fresh ids are arguments. Exceptions are values of a result type. `urllib.parse` and
-- `str.lower` are the parameter `UrlLib`; `str.strip` and the rest of `str` are defined. Times are
-- numbers of microseconds. `hashlib`, `hmac.compare_digest` and the text of a dictionary are the
-- parameters `RunLib` and `CallbackLib`, and so is the redaction of a payload, since redaction.py
-- redacts each text by regular expressions, an argument of `Eval/Redaction`; the parser of URLs
-- and addresses and the resolver are arguments of `Buyer/UrlPolicy`, and HTTP clients are
-- functions from the number of an attempt to what it meets.
--
-- The session task of buyer/app/service.py is a state monad over `World` with exceptions. What it
-- awaits (deliveries, the agent, scripts, a sleep) is read from `Outside` by the number of the
-- reading, and the other tasks may change the store in any way meanwhile.
--
-- The loop of `_run_session` has no end of its own, as the agent may ask the user again and again:
-- it is looked at for any given number of turns, and what is shown holds for every number. So is
-- the poll of `_wait_for_case` in eval_service/app/orchestrator.py, whose sleeps are readings of
-- the clocks. The task of the judge runs in the monad of the orchestrator; the process of the
-- judge, the JSON schema and the files are read from `JudgeOutside` and `JudgeLib`.
-- `Eval/CaseRegistry` takes each YAML file as the documents that it holds, and the `str` of a
-- value as `show`. Every other loop of the modelled code goes over a list, a string or a given
-- number of attempts.
--
-- Not modelled: the lines that buyer/app/service.py writes to its log, the agent runner and its
-- prompts, Postgres, the HTTP layer of eval_service, its readers of files and of traces, the
-- scheduling of background tasks, the HTTP layer of micro-ui, and the scripts.
pub mod Prelude
pub mod Dict
pub mod Json
pub mod Buyer
pub mod Eval
pub mod MicroUi
mod Examples
