-- ===== src/Listener/Storage/Durability.antt =====
-- listener.py, `Storage`: what is committed and what a crash may lose.
use mathlib.Core.List.{append_assoc, append-nil}
use mini_siem.Base.{
  ℕ, suc, ◌≤◌, ◌<◌, ◌≡◌, sym, ap, ◌∙◌, inl, inr, Bool, true, false, ◌&&◌, ◌||◌, List, [], ◌∷◌, ◌++◌,
  arith, ltb, string_eq, nat_eq, ◌==◌, Bool-cases, length, length-append, text_eq, refl, ◌⊎◌,
  Option, none, some, leb, if◌then◌else◌,
}
use mini_siem.Listener.Storage.{
  Storage, Same, Undone, AfterWrite, AfterInsert, AfterCommit, committed, commit_locked,
  rollback_locked, is_late, flush, maybe_commit_locked, logged, log_projected, log_fields,
  log_inserted, insert_log, Database, IsTransactional,
}

module _ (D : Database) (laws : IsTransactional D) where
  -- At most so many stored logs are not committed, and they are the last ones.
  abbrev pub Behind : ℕ → D.Conn → Type 0
  Behind n c = (late : List ℕ) × (D.stored c ≡ D.durable c ++ late) × (length late ≤ n)

  -- a storage that is at most one log short of a batch behind
  abbrev pub Kept : Storage D → Type 0
  Kept s = Behind s.pending s.conn × (s.pending < s.commit_batch_size)

  -- What was committed is still: a connection has the logs, and perhaps more.
  abbrev pub Holds : List ℕ → D.Conn → Type 0
  Holds ids c = (more : List ℕ) × (D.durable c ≡ ids ++ more)

  pub settled-Behind : (n : ℕ) (c : D.Conn) → D.stored c ≡ D.durable c → Behind n c
  settled-Behind n c h = ([], h ∙ sym (append-nil (D.durable c)), omega arith)

  pub Undone-Behind : (n : ℕ) (c d : D.Conn) → Undone D c d → Behind n c → Behind n d
  Undone-Behind n c d (same, inl h) (late, split, le) =
      (late, h ∙ split ∙ ap (λ (ids : List ℕ). ids ++ late) (sym same), le)
  Undone-Behind n c d (same, inr h) b = settled-Behind n d (h ∙ sym same)

  pub Same-Behind : (n : ℕ) (c d : D.Conn) → Same D c d → Behind n c → Behind n d
  Same-Behind n c d (same, h) b = Undone-Behind n c d (same, inl h) b

  inserted-Behind :
      (n id : ℕ) (c d : D.Conn)
      → D.durable d ≡ D.durable c
      → D.stored d ≡ D.stored c ++ id ∷ []
      → Behind n c
      → Behind (suc n) d
  inserted-Behind n id c d same h (late, split, le) = (
    late ++ id ∷ [],
    h
        ∙ ap (λ (ids : List ℕ). ids ++ id ∷ []) split
        ∙ append_assoc (D.durable c) late (id ∷ [])
        ∙ ap (λ (ids : List ℕ). ids ++ (late ++ id ∷ [])) (sym same),
    omega (arith, length-append late (id ∷ [])),
  )

  rolled_back-Kept :
      (now : ℕ) (s : Storage D) → 0 < s.commit_batch_size → Kept (rollback_locked D now s)
  rolled_back-Kept now s pos =
      let (same, all) = laws.rolls_back s.conn in
      (settled-Behind 0 (D.rollback s.conn) (all ∙ sym same), pos)

  committed-Kept :
      (now : ℕ) (s : Storage D) (r : D.Conn × Bool)
      → 0 < s.commit_batch_size
      → s.pending < s.commit_batch_size
      → Behind s.pending s.conn
      → AfterCommit D s.conn r
      → Kept (committed D now s r).0
  committed-Kept now s (c, true) pos le b (all, same) = (settled-Behind 0 c (same ∙ sym all), pos)
  committed-Kept now s (c, false) pos le b h = (Undone-Behind s.pending s.conn c h b, le)

  pub flush-Kept : (now : ℕ) (s : Storage D) → Kept s → Kept (flush D now s)
  unfolding flush
  flush-Kept now s (b, le) =
      elim (Bool-cases (ltb 0 s.pending && (s.commit_max_delay_ms == 0 || is_late D now s))) [
        | inl e ↦
            rw e (committed-Kept now s (D.commit s.conn) (omega arith) le b (laws.commits s.conn))
        | inr e ↦ rw e (b, le)
      ]

  -- what `_maybe_commit_locked` leaves of a connection that stores one log more
  abbrev CommittedMaybe : D.Conn → Storage D × Bool → Type 0
  CommittedMaybe c (t, true) =
      Kept t
      × (D.stored t.conn ≡ D.stored c)
      × ((D.durable t.conn ≡ D.durable c) ⊎ (D.durable t.conn ≡ D.stored c))
  CommittedMaybe c (t, false) = (0 < t.commit_batch_size) × (D.durable t.conn ≡ D.durable c)

  now-CommittedMaybe :
      (now : ℕ) (s : Storage D) (r : D.Conn × Bool)
      → 0 < s.commit_batch_size
      → AfterCommit D s.conn r
      → CommittedMaybe s.conn (committed D now s r)
  now-CommittedMaybe now s (c, true) pos (all, same) =
      ((settled-Behind 0 c (same ∙ sym all), pos), same, inr all)
  now-CommittedMaybe now s (c, false) pos h = (pos, h.0)

  maybe_commit_locked-CommittedMaybe :
      (now : ℕ) (s : Storage D)
      → 0 < s.commit_batch_size
      → Behind (suc s.pending) s.conn
      → CommittedMaybe s.conn (maybe_commit_locked D now s)
  unfolding maybe_commit_locked
  maybe_commit_locked-CommittedMaybe now s pos b =
      by_tests (leb s.commit_batch_size 1 && leb s.commit_max_delay_ms 0)
        (leb s.commit_batch_size (suc s.pending)) (ltb 0 s.commit_max_delay_ms && is_late D now s)
        refl
    where
      t : Storage D
      t = record s { pending = suc s.pending }

      by_tests :
          (at_once full due : Bool)
          → leb s.commit_batch_size (suc s.pending) ≡ full
          → CommittedMaybe s.conn (
              if at_once
              then commit_locked D now t
              else if full || due
              then commit_locked D now t
              else (t, true))
      by_tests true full due e =
          now-CommittedMaybe now t (D.commit s.conn) pos (laws.commits s.conn)
      by_tests false true due e =
          now-CommittedMaybe now t (D.commit s.conn) pos (laws.commits s.conn)
      by_tests false false true e =
          now-CommittedMaybe now t (D.commit s.conn) pos (laws.commits s.conn)
      by_tests false false false e = ((b, ground (arith, e)), refl, inl refl)

  -- what `insert_log` leaves, by its result
  abbrev pub Outcome : Storage D → Storage D × Option ℕ → Type 0
  Outcome s (t, some id) =
      Kept t
      × (D.stored t.conn ≡ D.stored s.conn ++ id ∷ [])
      × ((D.durable t.conn ≡ D.durable s.conn) ⊎ (D.durable t.conn ≡ D.stored s.conn ++ id ∷ []))
  Outcome s (t, none) =
      Kept t × (D.stored t.conn ≡ D.durable s.conn) × (D.durable t.conn ≡ D.durable s.conn)

  pub rolled_back-Outcome :
      (now : ℕ) (s t : Storage D)
      → 0 < t.commit_batch_size
      → D.durable t.conn ≡ D.durable s.conn
      → Outcome s (rollback_locked D now t, none)
  rolled_back-Outcome now s t pos h =
      let (same, all) = laws.rolls_back t.conn in (rolled_back-Kept now t pos, all ∙ h, same ∙ h)

  logged-Outcome :
      (now id : ℕ) (s : Storage D) (c : D.Conn) (r : Storage D × Bool)
      → D.stored c ≡ D.stored s.conn ++ id ∷ []
      → D.durable c ≡ D.durable s.conn
      → CommittedMaybe c r
      → Outcome s (logged D now id r)
  logged-Outcome now id s c (t, true) h k (kept, all, inl e) = (kept, all ∙ h, inl (e ∙ k))
  logged-Outcome now id s c (t, true) h k (kept, all, inr e) = (kept, all ∙ h, inr (e ∙ h))
  logged-Outcome now id s c (t, false) h k (pos, same) = rolled_back-Outcome now s t pos (same ∙ k)

  log_projected-Outcome :
      (now id : ℕ) (s : Storage D) (c : D.Conn) (r : D.Conn × Bool)
      → Kept s
      → D.stored c ≡ D.stored s.conn ++ id ∷ []
      → D.durable c ≡ D.durable s.conn
      → AfterWrite D c r
      → Outcome s (log_projected D now id s r)
  log_projected-Outcome now id s c (d, true) (b, le) h k (same, all) =
      logged-Outcome now id s d (maybe_commit_locked D now (record s { conn = d })) (all ∙ h)
        (same ∙ k)
        (maybe_commit_locked-CommittedMaybe now (record s { conn = d }) (omega arith)
          (inserted-Behind s.pending id s.conn d (same ∙ k) (all ∙ h) b))
  log_projected-Outcome now id s c (d, false) (b, le) h k (same, w) =
      rolled_back-Outcome now s (record s { conn = d }) (omega arith) (same ∙ k)

  log_fields-Outcome :
      (now id : ℕ) (e : D.Event) (s : Storage D) (c : D.Conn) (r : D.Conn × Bool)
      → Kept s
      → D.stored c ≡ D.stored s.conn ++ id ∷ []
      → D.durable c ≡ D.durable s.conn
      → AfterWrite D c r
      → Outcome s (log_fields D now e id s r)
  log_fields-Outcome now id e s c (d, true) kept h k (same, all) =
      log_projected-Outcome now id s d (D.append_projection d id e) kept (all ∙ h) (same ∙ k)
        (laws.appends d id e)
  log_fields-Outcome now id e s c (d, false) (b, le) h k (same, w) =
      rolled_back-Outcome now s (record s { conn = d }) (omega arith) (same ∙ k)

  log_inserted-Outcome :
      (now : ℕ) (e : D.Event) (s : Storage D) (r : D.Conn × Option ℕ)
      → Kept s
      → AfterInsert D s.conn r
      → Outcome s (log_inserted D now e s r)
  log_inserted-Outcome now e s (c, none) (b, le) (same, w) =
      rolled_back-Outcome now s (record s { conn = c }) (omega arith) same
  log_inserted-Outcome now e s (c, some id) kept (same, all) =
      log_fields-Outcome now id e s c (if D.has_fields e then D.write_fields c id e else (c, true))
        kept all same (written (D.has_fields e))
    where
      written : (has : Bool) → AfterWrite D c (if has then D.write_fields c id e else (c, true))
      written true = laws.writes_fields c id e
      written false = (refl, refl)

  -- Over a database with transactions, of a storage that is less than a batch behind: an insert
  -- that gives an id has stored the log behind the others, and either no more is committed than
  -- before or all is; one that raises leaves exactly what was committed before it. The storage is
  -- less than a batch behind again.
  pub insert_log-Outcome :
      (now : ℕ) (e : D.Event) (s : Storage D) → Kept s → Outcome s (insert_log D now e s)
  unfolding insert_log
  insert_log-Outcome now e s kept =
      log_inserted-Outcome now e s (D.insert_returning_id s.conn e) kept (laws.inserts s.conn e)
