-- ===== src/Listener/Storage/Runs.antt =====
-- listener.py, `Storage`: batches, runs of calls and the close.
use mathlib.Core.List.{append_assoc, append-nil}
use mini_siem.Base.{
  ℕ, ◌<◌, ◌≡◌, refl, sym, ap, ◌∙◌, Bool, true, false, Option, none, some, List, [], ◌∷◌, ◌++◌,
  arith, string_eq, nat_eq, text_eq, ◌≤◌, inl, inr, ltb, Bool-cases,
}
use mini_siem.Listener.Storage.{
  log_call, batch_call, alert_call, flush_call, Storage, AfterWrite, AfterInsert, AfterCommit,
  committed, rollback_locked, batch_projected, batch_fields, batch_inserted, batch_loop,
  batch_committed, batch_done, insert_log_batch, Database, IsTransactional, AfterAlert, new_storage,
  insert_log, also, alert_inserted, insert_alert, closed, close, call, run, Call,
}
use mini_siem.Listener.Storage.Durability.{
  Kept, Behind, Outcome, settled-Behind, Undone-Behind, Same-Behind, flush-Kept,
  rolled_back-Outcome, insert_log-Outcome,
}

module _ (D : Database) (laws : IsTransactional D) where
  -- what the loop over a batch leaves: the logs stored behind the others, none committed
  abbrev Looped : D.Conn → D.Conn × Option (List ℕ) → Type 0
  Looped c (d, none) = D.durable d ≡ D.durable c
  Looped c (d, some ids) = (D.durable d ≡ D.durable c) × (D.stored d ≡ D.stored c ++ ids)

  also-Looped :
      (id : ℕ) (b c : D.Conn) (r : D.Conn × Option (List ℕ))
      → D.durable c ≡ D.durable b
      → D.stored c ≡ D.stored b ++ id ∷ []
      → Looped c r
      → Looped b (r.0, also D id r.1)
  also-Looped id b c (d, none) h k same = same ∙ h
  also-Looped id b c (d, some ids) h k (same, all) =
      (same ∙ h, all ∙ ap (λ (xs : List ℕ). xs ++ ids) k ∙ append_assoc (D.stored b) (id ∷ []) ids)

  batch_projected-Looped :
      (again : D.Conn → D.Conn × Option (List ℕ)) (id : ℕ) (b c : D.Conn) (r : D.Conn × Bool)
      → ((d : D.Conn) → Looped d (again d))
      → D.durable c ≡ D.durable b
      → D.stored c ≡ D.stored b ++ id ∷ []
      → AfterWrite D c r
      → Looped b (batch_projected D again id r)
  batch_projected-Looped again id b c (d, true) ih h k (same, all) =
      also-Looped id b d (again d) (same ∙ h) (all ∙ k) (ih d)
  batch_projected-Looped again id b c (d, false) ih h k (same, w) = same ∙ h

  batch_fields-Looped :
      (again : D.Conn → D.Conn × Option (List ℕ)) (e : D.Event) (id : ℕ) (b c : D.Conn)
      (r : D.Conn × Bool)
      → ((d : D.Conn) → Looped d (again d))
      → D.durable c ≡ D.durable b
      → D.stored c ≡ D.stored b ++ id ∷ []
      → AfterWrite D c r
      → Looped b (batch_fields D again e id r)
  batch_fields-Looped again e id b c (d, true) ih h k (same, all) =
      batch_projected-Looped again id b d (D.append_projection d id e) ih (same ∙ h) (all ∙ k)
        (laws.appends d id e)
  batch_fields-Looped again e id b c (d, false) ih h k (same, w) = same ∙ h

  batch_inserted-Looped :
      (again : D.Conn → D.Conn × Option (List ℕ)) (e : D.Event) (b : D.Conn) (r : D.Conn × Option ℕ)
      → ((d : D.Conn) → Looped d (again d))
      → AfterInsert D b r
      → Looped b (batch_inserted D again e r)
  batch_inserted-Looped again e b (c, none) ih (same, w) = same
  batch_inserted-Looped again e b (c, some id) ih (same, all) =
      batch_fields-Looped again e id b c (D.write_fields c id e) ih same all
        (laws.writes_fields c id e)

  batch_loop-Looped : (es : List D.Event) (c : D.Conn) → Looped c (batch_loop D es c)
  unfolding batch_loop
  batch_loop-Looped [] c = (refl, sym (append-nil (D.stored c)))
  batch_loop-Looped (e ∷ es) c =
      batch_inserted-Looped (batch_loop D es) e c (D.insert_returning_id c e) (batch_loop-Looped es)
        (laws.inserts c e)

  -- What `insert_log_batch` leaves: all of the batch committed behind the logs that waited, or
  -- exactly what was committed before.
  abbrev pub BatchOutcome : Storage D → Storage D × Option (List ℕ) → Type 0
  BatchOutcome s (t, some ids) =
      Kept D laws t
      × (D.stored t.conn ≡ D.stored s.conn ++ ids)
      × (D.durable t.conn ≡ D.stored s.conn ++ ids)
  BatchOutcome s (t, none) =
      Kept D laws t × (D.stored t.conn ≡ D.durable s.conn) × (D.durable t.conn ≡ D.durable s.conn)

  rolled_back-BatchOutcome :
      (now : ℕ) (s t : Storage D)
      → 0 < t.commit_batch_size
      → D.durable t.conn ≡ D.durable s.conn
      → BatchOutcome s (rollback_locked D now t, none)
  rolled_back-BatchOutcome now s t pos h = rolled_back-Outcome D laws now s t pos h

  batch_committed-BatchOutcome :
      (now : ℕ) (s t : Storage D) (ids : List ℕ) (r : D.Conn × Bool)
      → 0 < t.commit_batch_size
      → D.durable t.conn ≡ D.durable s.conn
      → D.stored t.conn ≡ D.stored s.conn ++ ids
      → AfterCommit D t.conn r
      → BatchOutcome s (batch_committed D now ids (committed D now t r))
  batch_committed-BatchOutcome now s t ids (c, true) pos h k (all, same) =
      ((settled-Behind D laws 0 c (same ∙ sym all), pos), same ∙ k, all ∙ k)
  batch_committed-BatchOutcome now s t ids (c, false) pos h k (same, w) =
      rolled_back-BatchOutcome now s (record t { conn = c }) pos (same ∙ h)

  batch_done-BatchOutcome :
      (now : ℕ) (s : Storage D) (r : D.Conn × Option (List ℕ))
      → 0 < s.commit_batch_size
      → Looped s.conn r
      → BatchOutcome s (batch_done D now s r)
  batch_done-BatchOutcome now s (c, none) pos h =
      rolled_back-BatchOutcome now s (record s { conn = c }) pos h
  batch_done-BatchOutcome now s (c, some ids) pos (h, k) =
      batch_committed-BatchOutcome now s (record s { conn = c }) ids (D.commit c) pos h k
        (laws.commits c)

  pub insert_log_batch-BatchOutcome :
      (now : ℕ) (es : List D.Event) (s : Storage D)
      → Kept D laws s
      → BatchOutcome s (insert_log_batch D now es s)
  unfolding insert_log_batch
  insert_log_batch-BatchOutcome now es s (b, le) =
      batch_done-BatchOutcome now s (batch_loop D es s.conn) (omega arith)
        (batch_loop-Looped es s.conn)

  committed_alert-Behind :
      (n : ℕ) (c : D.Conn) (r : D.Conn × Bool)
      → Behind D laws n c
      → AfterCommit D c r
      → Behind D laws n r.0
  committed_alert-Behind n c (d, true) b (all, same) = settled-Behind D laws n d (same ∙ sym all)
  committed_alert-Behind n c (d, false) b h = Undone-Behind D laws n c d h b

  insert_alert-Kept : (s : Storage D) → Kept D laws s → Kept D laws (insert_alert D s).0
  unfolding insert_alert
  insert_alert-Kept s (b, le) =
      (inserted (D.insert_alert_row s.conn) (laws.alerts s.conn), batch (D.insert_alert_row s.conn))
    where
      inserted :
          (r : D.Conn × Option ℕ)
          → AfterAlert D s.conn r
          → Behind D laws (alert_inserted D s r).0.pending (alert_inserted D s r).0.conn
      inserted (c, none) h = Undone-Behind D laws s.pending s.conn c h b
      inserted (c, some id) h =
          committed_alert-Behind s.pending c (D.commit c)
            (Same-Behind D laws s.pending s.conn c h b) (laws.commits c)

      batch :
          (r : D.Conn × Option ℕ)
          → (alert_inserted D s r).0.pending < (alert_inserted D s r).0.commit_batch_size
      batch (c, none) = le
      batch (c, some id) = le

  Outcome-Kept : (s : Storage D) (r : Storage D × Option ℕ) → Outcome D laws s r → Kept D laws r.0
  Outcome-Kept s (t, none) h = h.0
  Outcome-Kept s (t, some id) h = h.0

  BatchOutcome-Kept :
      (s : Storage D) (r : Storage D × Option (List ℕ)) → BatchOutcome s r → Kept D laws r.0
  BatchOutcome-Kept s (t, none) h = h.0
  BatchOutcome-Kept s (t, some ids) h = h.0

  call-Kept : (now : ℕ) (x : Call D) (s : Storage D) → Kept D laws s → Kept D laws (call D now x s)
  call-Kept now (log_call e) s h =
      Outcome-Kept s (insert_log D now e s) (insert_log-Outcome D laws now e s h)
  call-Kept now (batch_call es) s h =
      BatchOutcome-Kept s (insert_log_batch D now es s) (insert_log_batch-BatchOutcome now es s h)
  call-Kept now alert_call s h = insert_alert-Kept s h
  call-Kept now flush_call s h = flush-Kept D laws now s h

  run-Kept : (xs : List (ℕ × Call D)) (s : Storage D) → Kept D laws s → Kept D laws (run D xs s)
  unfolding run
  run-Kept [] s h = h
  run-Kept ((now, x) ∷ xs) s h = run-Kept xs (call D now x s) (call-Kept now x s h)

  new_storage-Kept :
      (size delay : Option ℕ) (now : ℕ) (c : D.Conn)
      → D.stored c ≡ D.durable c
      → Kept D laws (new_storage D size delay now c)
  new_storage-Kept none delay now c h = (settled-Behind D laws 0 c h, omega arith)
  new_storage-Kept (some n) delay now c h = (settled-Behind D laws 0 c h, omega arith)

  -- Over a database with transactions: a new storage on a connection with none open, behind any
  -- calls, those that fail included: what is stored and not committed, which is what a crash would
  -- lose, are the last logs, and they are fewer than the batch size.
  pub run-new_storage :
      (xs : List (ℕ × Call D)) (size delay : Option ℕ) (now : ℕ) (c : D.Conn)
      → D.stored c ≡ D.durable c
      → Kept D laws (run D xs (new_storage D size delay now c))
  run-new_storage xs size delay now c h =
      run-Kept xs (new_storage D size delay now c) (new_storage-Kept size delay now c h)

  none_late : (c : D.Conn) → Behind D laws 0 c → D.durable c ≡ D.stored c
  none_late c ([], split, le) = sym (split ∙ append-nil (D.durable c))
  none_late c (x ∷ xs, split, le) = absurd (omega arith)

  -- A close that does not raise commits all that is stored.
  pub close-durable :
      (now : ℕ) (s : Storage D)
      → Kept D laws s
      → (close D now s).1 ≡ true
      → D.durable (close D now s).0.conn ≡ D.stored s.conn
  unfolding close
  close-durable now s (b, le) h = elim (Bool-cases (ltb 0 s.pending)) [
    | inl e ↦ rw e (committed_all (D.commit s.conn) (laws.commits s.conn) (rw e at h))
    | inr e ↦ rw e (laws.closes s.conn ∙ none_late s.conn (fewer b (ground (arith, e))))
  ]
    where
      committed_all :
          (r : D.Conn × Bool)
          → AfterCommit D s.conn r
          → (closed D (committed D now s r)).1 ≡ true
          → D.durable (closed D (committed D now s r)).0.conn ≡ D.stored s.conn
      committed_all (c, true) k q = laws.closes c ∙ k.0
      committed_all (c, false) k q = cc

      fewer : Behind D laws s.pending s.conn → s.pending ≤ 0 → Behind D laws 0 s.conn
      fewer (late, split, few) k = (late, split, omega arith)
