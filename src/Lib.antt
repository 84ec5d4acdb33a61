-- ===== src/Lib.antt =====
-- mini-SIEM: a security event collector. A listener receives syslog messages, stores them, and runs
-- rules over each event; a dashboard shows the logs and the alerts, and background workers triage
-- alerts by a language model, poll sources and keep the store in bounds. The parts below share the
-- database; the alerts that the rules raise are what the workflow and the triage worker act on.
--
-- Base: the names that every part shares, lists measured by native numbers, texts as lists of code
-- points, and dictionaries in the order of insertion.
-- Severity: severity.py, the severities of syslog and their spellings.
-- AlertWorkflow: alert_workflow.py, and `_apply_alert_workflow` and the routes of dashboard.py that
-- update alerts, one or many. The store is the alerts by id and the log of events.
-- Leases: leases.py, the leases by which one of several processes runs a job. A step relation
-- interleaves two processes and the clock.
-- Listener: listener.py. Framer is `_SyslogTCPFramer` and `_handle_tcp_client`, FromForwarder puts
-- it behind `_send_tcp` of forwarder.py (Forwarder.Framing); Storage is `Storage` with its batched
-- commits over a database given as an interface with the laws of a transaction; Cef is the reading
-- of CEF messages; Reporter is `ListenerRuntimeReporter`.
-- Rules: rules.py, the threshold and severity rules, the replay over stored rows, and the engine
-- that reloads its configuration and isolates failures.
-- Correlations: correlations.py, `_run_threshold`, `_run_sequence`, `_run_fanout` and
-- `_run_first_seen` over the rows of a window, with `_key_of` and `_hour_ok`.
-- Detection: detection.py, `in_window`, `emit` and `save_config`. WindowsEvents: windows_events.py,
-- `host_matches` and `find_host_profile`.
-- IngestWorkers: ingest_workers.py, `route_key`, `ProcessIngest.submit`, `supervise` and `stats`,
-- and what a child does to its queue and counters. The address of an event is that of Rules.
-- Forwarder: forwarder.py, the origin helpers, `wants`, `send`, `_reload` and `_flush_stats`; the
-- severities are those of Severity.
-- Outbound: outbound.py, `origin`, `_allowed_origins`, `resolve_destination` and the read loop of
-- `open_request`.
-- TriageWorker: ai_worker.py, `TriageWorker.run_once`. Capacity: capacity.py, `validate`,
-- `ingest_settings` and the numbers of `recommend`. Auth: auth.py, the accounts; Auth.Sessions has
-- the session, the login and the guard in front of every request. ThreatIntel: threatintel.py, the
-- index of indicators and `check`.
--
-- Each state is a record that the operations pass on, an operation a function of the name it has in
-- Python, and what the database, the sockets, the clock, the regular expressions or another library
-- answer is an argument. Times are whole numbers: seconds, or milliseconds in Leases and in
-- Listener.Storage. A float is a whole number in a unit in which the code is exact. Loops are
-- structural recursion, but for two: the loop over counted frames has the length of the buffer for
-- fuel, of which every turn uses up a part, and the decimal number of a count has the number
-- itself. Letters are those of ASCII where the code folds case.
--
-- Not modelled: the web routes and templates of dashboard.py, the sockets, threads and JSON parser
-- of listener.py, the SQL of db.py and of the event storage, the files of the archive, the prompts
-- of ai_soc.py, the pollers, the tools around the program, and the older copy of it in return/mini-
-- siem.
pub mod Base
pub mod Severity
pub mod AlertWorkflow
pub mod Leases
pub mod Rules
pub mod Correlations
pub mod Listener
pub mod IngestWorkers
pub mod Forwarder
pub mod Outbound
pub mod Capacity
pub mod WindowsEvents
pub mod Auth
pub mod Detection
pub mod ThreatIntel
pub mod TriageWorker
