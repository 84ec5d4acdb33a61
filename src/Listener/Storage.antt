-- ===== src/Listener/Storage.antt =====
-- listener.py, `Storage`: events are inserted at once and committed in batches. The connection of
-- db.py is an interface, its laws those of a transaction; `normalize.write_fields` and
-- `event_storage_v2.append_projection`, which write beside a row, are operations of it. An operation
-- reads the clock, in milliseconds, once.
pub mod Durability
pub mod Runs
mod Tests
use mini_siem.Base.{
  ℕ, suc, ◌+◌, ◌-◌, max, ◌≡◌, ap, ◌⊎◌, Bool, true, false, ◌&&◌, ◌||◌, Option, none, some, List, [],
  ◌∷◌, ◌++◌, map, ltb, leb, if◌then◌else◌, string_eq, nat_eq, ◌==◌, text_eq, insert,
}

-- A call that raises gives `none` or `false`, and the connection behind it.
pub record Database : Type 1 where
  pub Conn : Type 0
  pub Event : Type 0
  pub has_fields : Event → Bool
  pub insert_returning_id : Conn → Event → Conn × Option ℕ
  pub write_fields : Conn → ℕ → Event → Conn × Bool
  pub append_projection : Conn → ℕ → Event → Conn × Bool
  pub insert_alert_row : Conn → Conn × Option ℕ
  pub commit : Conn → Conn × Bool
  pub rollback : Conn → Conn
  pub close_conn : Conn → Conn
  -- the logs that the connection would commit, and those that are committed
  pub stored : Conn → List ℕ
  pub durable : Conn → List ℕ

-- a call that changes no log
abbrev pub Same : (D : Database) → D.Conn → D.Conn → Type 0
Same D c d = (D.durable d ≡ D.durable c) × (D.stored d ≡ D.stored c)

-- a call that fails: it leaves the transaction alone or undoes it
abbrev pub Undone : (D : Database) → D.Conn → D.Conn → Type 0
Undone D c d =
    (D.durable d ≡ D.durable c) × ((D.stored d ≡ D.stored c) ⊎ (D.stored d ≡ D.durable c))

abbrev pub AfterWrite : (D : Database) → D.Conn → D.Conn × Bool → Type 0
AfterWrite D c (d, true) = Same D c d
AfterWrite D c (d, false) = Undone D c d

abbrev pub AfterInsert : (D : Database) → D.Conn → D.Conn × Option ℕ → Type 0
AfterInsert D c (d, none) = Undone D c d
AfterInsert D c (d, some id) = (D.durable d ≡ D.durable c) × (D.stored d ≡ D.stored c ++ id ∷ [])

abbrev pub AfterAlert : (D : Database) → D.Conn → D.Conn × Option ℕ → Type 0
AfterAlert D c (d, none) = Undone D c d
AfterAlert D c (d, some id) = Same D c d

abbrev pub AfterCommit : (D : Database) → D.Conn → D.Conn × Bool → Type 0
AfterCommit D c (d, true) = (D.durable d ≡ D.stored c) × (D.stored d ≡ D.stored c)
AfterCommit D c (d, false) = Undone D c d

-- What a connection of a database with transactions does. A commit that raises has not been made: one
-- that was made and whose answer was lost with the connection is not covered.
pub record IsTransactional (D : Database) : Type 0 where
  pub inserts : (c : D.Conn) (e : D.Event) → AfterInsert D c (D.insert_returning_id c e)
  pub writes_fields : (c : D.Conn) (id : ℕ) (e : D.Event) → AfterWrite D c (D.write_fields c id e)
  pub appends : (c : D.Conn) (id : ℕ) (e : D.Event) → AfterWrite D c (D.append_projection c id e)
  pub alerts : (c : D.Conn) → AfterAlert D c (D.insert_alert_row c)
  pub commits : (c : D.Conn) → AfterCommit D c (D.commit c)
  pub rolls_back :
      (c : D.Conn)
      → (D.durable (D.rollback c) ≡ D.durable c) × (D.stored (D.rollback c) ≡ D.durable c)
  pub closes : (c : D.Conn) → D.durable (D.close_conn c) ≡ D.durable c

module _ (D : Database) where
  pub record Storage : Type 0 where
    pub conn : D.Conn
    pub commit_batch_size : ℕ
    pub commit_max_delay_ms : ℕ
    pub pending : ℕ
    pub last_commit : ℕ

  -- `Storage.__init__`; `none` is a setting that is no number, and one below 0 is as 0
  abbrev pub new_storage : Option ℕ → Option ℕ → ℕ → D.Conn → Storage
  new_storage size delay now c = record {
    conn = c;
    commit_batch_size = elim size [ none ↦ 1 | some n ↦ max 1 n ];
    commit_max_delay_ms = elim delay [ none ↦ 0 | some n ↦ n ];
    pending = 0;
    last_commit = now;
  }

  abbrev pub committed : ℕ → Storage → D.Conn × Bool → Storage × Bool
  committed now s (c, true) = (record s { conn = c; pending = 0; last_commit = now }, true)
  committed now s (c, false) = (record s { conn = c }, false)

  -- `commit_locked`
  abbrev pub commit_locked : ℕ → Storage → Storage × Bool
  commit_locked now s = committed now s (D.commit s.conn)

  -- `rollback_locked`
  abbrev pub rollback_locked : ℕ → Storage → Storage
  rollback_locked now s = record s { conn = D.rollback s.conn; pending = 0; last_commit = now }

  -- the delay is over
  abbrev pub is_late : ℕ → Storage → Bool
  is_late now s = leb s.commit_max_delay_ms (now - s.last_commit)

  -- one turn of `_flush_loop`; where the commit raises, its thread ends
  unfoldable pub flush : ℕ → Storage → Storage
  flush now s =
      if ltb 0 s.pending && (s.commit_max_delay_ms == 0 || is_late now s)
      then (commit_locked now s).0
      else s

  -- `_maybe_commit_locked`
  unfoldable pub maybe_commit_locked : ℕ → Storage → Storage × Bool
  maybe_commit_locked now s =
      let t = record s { pending = suc s.pending } in
      if leb t.commit_batch_size 1 && leb t.commit_max_delay_ms 0
      then commit_locked now t
      else if leb t.commit_batch_size t.pending || ltb 0 t.commit_max_delay_ms && is_late now t
      then commit_locked now t
      else (t, true)

  -- what `insert_log` returns behind the commit; the exception is raised again
  abbrev pub logged : ℕ → ℕ → Storage × Bool → Storage × Option ℕ
  logged now id (s, true) = (s, some id)
  logged now id (s, false) = (rollback_locked now s, none)

  abbrev pub log_projected : ℕ → ℕ → Storage → D.Conn × Bool → Storage × Option ℕ
  log_projected now id s (c, true) = logged now id (maybe_commit_locked now (record s { conn = c }))
  log_projected now id s (c, false) = (rollback_locked now (record s { conn = c }), none)

  abbrev pub log_fields : ℕ → D.Event → ℕ → Storage → D.Conn × Bool → Storage × Option ℕ
  log_fields now e id s (c, true) = log_projected now id s (D.append_projection c id e)
  log_fields now e id s (c, false) = (rollback_locked now (record s { conn = c }), none)

  abbrev pub log_inserted : ℕ → D.Event → Storage → D.Conn × Option ℕ → Storage × Option ℕ
  log_inserted now e s (c, none) = (rollback_locked now (record s { conn = c }), none)
  log_inserted now e s (c, some id) =
      log_fields now e id s (if D.has_fields e then D.write_fields c id e else (c, true))

  -- `insert_log`: the id of the log, or `none` where it raises
  unfoldable pub insert_log : ℕ → D.Event → Storage → Storage × Option ℕ
  unfolding maybe_commit_locked
  insert_log now e s = log_inserted now e s (D.insert_returning_id s.conn e)

  abbrev pub also : ℕ → Option (List ℕ) → Option (List ℕ)
  also id none = none
  also id (some ids) = some (id ∷ ids)

  -- the loop of `insert_log_batch`; `again` is the rest of it
  abbrev pub batch_projected :
      (D.Conn → D.Conn × Option (List ℕ)) → ℕ → D.Conn × Bool → D.Conn × Option (List ℕ)
  batch_projected again id (c, true) = let r = again c in (r.0, also id r.1)
  batch_projected again id (c, false) = (c, none)

  abbrev pub batch_fields :
      (D.Conn → D.Conn × Option (List ℕ)) → D.Event → ℕ → D.Conn × Bool → D.Conn × Option (List ℕ)
  batch_fields again e id (c, true) = batch_projected again id (D.append_projection c id e)
  batch_fields again e id (c, false) = (c, none)

  abbrev pub batch_inserted :
      (D.Conn → D.Conn × Option (List ℕ)) → D.Event → D.Conn × Option ℕ → D.Conn × Option (List ℕ)
  batch_inserted again e (c, none) = (c, none)
  batch_inserted again e (c, some id) = batch_fields again e id (D.write_fields c id e)

  unfoldable pub batch_loop : List D.Event → D.Conn → D.Conn × Option (List ℕ)
  batch_loop [] c = (c, some [])
  batch_loop (e ∷ es) c = batch_inserted (batch_loop es) e (D.insert_returning_id c e)

  abbrev pub batch_committed : ℕ → List ℕ → Storage × Bool → Storage × Option (List ℕ)
  batch_committed now ids (s, true) = (s, some ids)
  batch_committed now ids (s, false) = (rollback_locked now s, none)

  abbrev pub batch_done : ℕ → Storage → D.Conn × Option (List ℕ) → Storage × Option (List ℕ)
  batch_done now s (c, none) = (rollback_locked now (record s { conn = c }), none)
  batch_done now s (c, some ids) =
      batch_committed now ids (commit_locked now (record s { conn = c }))

  -- `insert_log_batch`
  unfoldable pub insert_log_batch : ℕ → List D.Event → Storage → Storage × Option (List ℕ)
  unfolding batch_loop
  insert_log_batch now es s = batch_done now s (batch_loop es s.conn)

  -- `insert_alert`: it commits, and leaves the count of pending logs as it is
  abbrev pub alert_inserted : Storage → D.Conn × Option ℕ → Storage × Option ℕ
  alert_inserted s (c, none) = (record s { conn = c }, none)
  alert_inserted s (c, some id) =
      let r = D.commit c in (record s { conn = r.0 }, if r.1 then some id else none)

  unfoldable pub insert_alert : Storage → Storage × Option ℕ
  insert_alert s = alert_inserted s (D.insert_alert_row s.conn)

  -- `close`: `false` where the commit raises, and then the connection is not closed
  abbrev pub closed : Storage × Bool → Storage × Bool
  closed (s, true) = (record s { conn = D.close_conn s.conn }, true)
  closed (s, false) = (s, false)

  unfoldable pub close : ℕ → Storage → Storage × Bool
  close now s = closed (if ltb 0 s.pending then commit_locked now s else (s, true))

  -- what the threads of the listener call
  pub data Call : Type 0 where
    log_call : D.Event → Call
    batch_call : List D.Event → Call
    alert_call flush_call : Call

  abbrev pub call : ℕ → Call → Storage → Storage
  call now (log_call e) s = (insert_log now e s).0
  call now (batch_call es) s = (insert_log_batch now es s).0
  call now alert_call s = (insert_alert s).0
  call now flush_call s = flush now s

  -- calls one after the other, as the lock orders them, each with the time it is made
  unfoldable pub run : List (ℕ × Call) → Storage → Storage
  unfolding insert_log insert_log_batch insert_alert flush
  run [] s = s
  run ((now, x) ∷ xs) s = run xs (call now x s)
