-- ===== src/IngestWorkers/Accounting.antt =====
-- ingest_workers.py: no message goes uncounted, whatever the children and the receiver do.
use mini_siem.Base.{
  ℕ, zero, suc, ◌+◌, ◌≤◌, ◌≡◌, ap, inl, inr, Bool, Option, none, some, List, [], ◌∷◌, arith,
  if◌then◌else◌, nat_eq, string_eq, Option-cases, is_some, length, length-append, Text, text_eq,
  ◌<◌, max, refl, true, false, map, ltb, Bool-cases,
}
use mini_siem.IngestWorkers.{
  Ingest, get_child, set_child, with_children, put, child_take, sum_of, Item, Child, Transport,
  repeat, new_ingest, stamp, enqueue, slot_of, submit_parsed, submit, take_from, take_if,
  count_held, child_finish, child_die, revive, supervise, stats, restart,
}

-- what can happen to the pipeline
pub data Action : Type 0 where
  submits : Text → Text → Transport → Option ℕ → Action
  takes : ℕ → Action
  finishes : ℕ → Bool → Bool → Action
  dies : ℕ → Action
  supervises : Action

abbrev pub change_child : (Child → Child) → ℕ → Option Child → List Child → List Child
change_child f i none cs = cs
change_child f i (some c) cs = set_child i (f c) cs

abbrev pub at_child : (Child → Child) → ℕ → Ingest → Ingest
at_child f i s = with_children (change_child f i (get_child i s.children) s.children) s

abbrev pub in_hand : Child → ℕ
in_hand c = if is_some c.held then 1 else 0

-- the messages of a child: waiting, in hand, and counted
abbrev pub weight : Child → ℕ
weight c = length c.queue + in_hand c + c.processed + c.failed

abbrev pub accounted : Ingest → ℕ
accounted s = sum_of weight s.children + s.dropped + s.parse_failed

sum_of-set_child :
    (f : Child → ℕ) (i : ℕ) (c d : Child) (cs : List Child)
    → get_child i cs ≡ some c
    → sum_of f (set_child i d cs) + f c ≡ sum_of f cs + f d
sum_of-set_child f i c d [] h = cc
sum_of-set_child f zero c d (x ∷ cs) h = ground (arith, h)
sum_of-set_child f (suc i) c d (x ∷ cs) h = omega (arith, sum_of-set_child f i c d cs h)

weight-put : (x : Item) (c : Child) → weight (put x c) ≡ weight c + 1
weight-put x c = omega (arith, length-append c.queue (x ∷ []))

-- A change of a child that loses none of its messages loses none of the pipeline's.
change_child_le :
    (f : Child → Child)
    → ((c : Child) → weight c ≤ weight (f c))
    → (i : ℕ) (s : Ingest) → accounted s ≤ accounted (at_child f i s)
change_child_le f grows i s = elim (Option-cases (get_child i s.children)) [
  | inl e ↦ rw e (omega arith)
  | inr (c, e) ↦ rw e (omega (arith, sum_of-set_child weight i c (f c) s.children e, grows c))
]

take_from_le :
    (xs : List Item) (c : Child) → c.queue ≡ xs → c.held ≡ none → weight c ≤ weight (take_from xs c)
take_from_le [] c q h = omega arith
take_from_le (x ∷ xs) c q h = rw (q, h) (omega arith)

take_if_le :
    (o : Option Item) (b : Bool) (c : Child) → c.held ≡ o → weight c ≤ weight (take_if o b c)
take_if_le none true c h = take_from_le c.queue c refl h
take_if_le none false c h = omega arith
take_if_le (some x) b c h = omega arith

child_take_le : (c : Child) → weight c ≤ weight (child_take c)
unfolding child_take
child_take_le c = take_if_le c.held c.is_alive c refl

count_held_le :
    (ok printed : Bool) (o : Option Item) (c : Child)
    → c.held ≡ o
    → weight c ≤ weight (count_held ok printed o c)
count_held_le ok printed none c h = omega arith
count_held_le true printed (some x) c h = rw h (ground arith)
count_held_le false printed (some x) c h = rw h (omega arith)

weight-if :
    (b : Bool) (c x y : Child)
    → weight c ≤ weight x
    → weight c ≤ weight y
    → weight c ≤ weight (if b then x else y)
weight-if true c x y h k = h
weight-if false c x y h k = k

child_finish_le : (ok printed : Bool) (c : Child) → weight c ≤ weight (child_finish ok printed c)
unfolding child_finish
child_finish_le ok printed c =
    weight-if c.is_alive c (count_held ok printed c.held c) c
      (count_held_le ok printed c.held c refl) (omega arith)

child_die_le : (c : Child) → weight c ≤ weight (child_die c)
child_die_le c = omega arith

in_hand_le : (o : Option Item) → (if is_some o then 1 else 0) ≤ 1
in_hand_le none = omega arith
in_hand_le (some x) = omega arith

revive_le : (c : Child) → weight c ≤ weight (revive true c)
revive_le c =
    weight-if c.is_alive c c (restart true c) (omega arith) (omega (arith, in_hand_le c.held))

revive_all_le : (cs : List Child) → sum_of weight cs ≤ sum_of weight (map (revive true) cs)
revive_all_le [] = omega arith
revive_all_le (c ∷ cs) = omega (arith, revive_le c, revive_all_le cs)

supervise_le : (s : Ingest) → accounted s ≤ accounted (supervise true s).0
unfolding supervise
supervise_le s = elim (Bool-cases s.stopping) [
  | inl e ↦ rw e (omega arith)
  | inr e ↦ rw e (omega (arith, revive_all_le s.children))
]

enqueue_le :
    (transport : Transport) (i : ℕ) (x : Item) (o : Option Child) (s : Ingest)
    → get_child i s.children ≡ o
    → is_some o ≡ true
    → accounted s + 1 ≤ accounted (enqueue transport i x o s).0
enqueue_le transport i x none s e h = cc
enqueue_le transport i x (some c) s e h = elim (Bool-cases (ltb (length c.queue) s.queue_size)) [
  | inl b ↦ rw b (omega (arith, sum_of-set_child weight i c (put x c) s.children e, weight-put x c))
  | inr b ↦ rw b (omega arith)
]

get_child_some : (i : ℕ) (cs : List Child) → i < length cs → is_some (get_child i cs) ≡ true
get_child_some i [] h = absurd (omega arith)
get_child_some zero (c ∷ cs) h = refl
get_child_some (suc i) (c ∷ cs) h = get_child_some i cs (omega arith)

module _ (crc32 : Text → ℕ) (parse : Text → Text → Option Item) where
  submit_parsed_le :
      (transport : Transport) (received_at : Option ℕ) (o : Option Item) (s : Ingest)
      → 0 < length s.children
      → accounted s + 1 ≤ accounted (submit_parsed crc32 parse transport received_at o s).0
  submit_parsed_le transport received_at none s some_child = omega arith
  submit_parsed_le transport received_at (some x) s some_child =
      let i = slot_of crc32 parse x.event s in
      enqueue_le transport i (stamp received_at x) (get_child i s.children) s refl
        (get_child_some i s.children (omega arith))

  abbrev pub act : Action → Ingest → Ingest
  act (submits raw source_ip transport received_at) s =
      (submit crc32 parse raw source_ip transport received_at s).0
  act (takes i) s = at_child child_take i s
  act (finishes i ok printed) s = at_child (child_finish ok printed) i s
  act (dies i) s = at_child child_die i s
  act supervises s = (supervise true s).0

  abbrev pub act_all : List Action → Ingest → Ingest
  act_all [] s = s
  act_all (a ∷ acts) s = act_all acts (act a s)

  abbrev pub submitted : Action → ℕ
  submitted (submits _ _ _ _) = 1
  submitted _ = 0

  abbrev pub all_submitted : List Action → ℕ
  all_submitted [] = 0
  all_submitted (a ∷ acts) = submitted a + all_submitted acts

  length-set_child : (i : ℕ) (d : Child) (cs : List Child) → length (set_child i d cs) ≡ length cs
  length-set_child i d [] = refl
  length-set_child zero d (c ∷ cs) = refl
  length-set_child (suc i) d (c ∷ cs) = ap suc (length-set_child i d cs)

  length-change_child :
      (f : Child → Child) (i : ℕ) (o : Option Child) (cs : List Child)
      → length (change_child f i o cs) ≡ length cs
  length-change_child f i none cs = refl
  length-change_child f i (some c) cs = length-set_child i (f c) cs

  length-revive : (cs : List Child) → length (map (revive true) cs) ≡ length cs
  length-revive [] = refl
  length-revive (c ∷ cs) = ap suc (length-revive cs)

  length-enqueue :
      (transport : Transport) (i : ℕ) (x : Item) (o : Option Child) (s : Ingest)
      → length (enqueue transport i x o s).0.children ≡ length s.children
  length-enqueue transport i x none s = refl
  length-enqueue transport i x (some c) s = elim (Bool-cases (ltb (length c.queue) s.queue_size)) [
    | inl b ↦ rw b (length-set_child i (put x c) s.children)
    | inr b ↦ rw b refl
  ]

  length-submit_parsed :
      (transport : Transport) (received_at : Option ℕ) (o : Option Item) (s : Ingest)
      → length (submit_parsed crc32 parse transport received_at o s).0.children ≡ length s.children
  length-submit_parsed transport received_at none s = refl
  length-submit_parsed transport received_at (some x) s =
      let i = slot_of crc32 parse x.event s in
      length-enqueue transport i (stamp received_at x) (get_child i s.children) s

  length-act : (a : Action) (s : Ingest) → length (act a s).children ≡ length s.children
  unfolding submit supervise
  length-act (submits raw source_ip transport received_at) s =
      length-submit_parsed transport received_at (parse raw source_ip) s
  length-act (takes i) s = length-change_child child_take i (get_child i s.children) s.children
  length-act (finishes i ok printed) s =
      length-change_child (child_finish ok printed) i (get_child i s.children) s.children
  length-act (dies i) s = length-change_child child_die i (get_child i s.children) s.children
  length-act supervises s = elim (Bool-cases s.stopping) [
    | inl e ↦ rw e refl
    | inr e ↦ rw e (length-revive s.children)
  ]

  act_le :
      (a : Action) (s : Ingest)
      → 0 < length s.children
      → accounted s + submitted a ≤ accounted (act a s)
  unfolding submit
  act_le (submits raw source_ip transport received_at) s h =
      submit_parsed_le transport received_at (parse raw source_ip) s h
  act_le (takes i) s h = omega (arith, change_child_le child_take child_take_le i s)
  act_le (finishes i ok printed) s h =
      omega (arith, change_child_le (child_finish ok printed) (child_finish_le ok printed) i s)
  act_le (dies i) s h = omega (arith, change_child_le child_die child_die_le i s)
  act_le supervises s h = omega (arith, supervise_le s)

  act_all_le :
      (acts : List Action) (s : Ingest)
      → 0 < length s.children
      → accounted s + all_submitted acts ≤ accounted (act_all acts s)
  act_all_le [] s h = omega arith
  act_all_le (a ∷ acts) s h =
      omega (arith, act_le a s h, act_all_le acts (act a s) (omega (arith, length-act a s)))

  abbrev pub in_hands : Ingest → ℕ
  in_hands s = sum_of in_hand s.children

  sum_of-weight :
      (cs : List Child)
      → sum_of weight cs
        ≡ sum_of (λ c. length c.queue) cs
          + sum_of in_hand cs
          + sum_of (λ c. c.processed) cs
          + sum_of (λ c. c.failed) cs
  sum_of-weight [] = omega arith
  sum_of-weight (c ∷ cs) = omega (arith, sum_of-weight cs)

  length-repeat : (n : ℕ) → length (repeat n) ≡ n
  length-repeat zero = refl
  length-repeat (suc n) = ap suc (length-repeat n)

  -- Of a pipeline that was started and then saw any sequence of submissions, children taking,
  -- finishing and failing events and dying, and supervision, on a platform that tells a queue's
  -- length: the messages submitted are no more than those that `stats` shows as processed, failed,
  -- dropped or waiting, with the at most one that each child has in hand.
  pub stats_complete :
      (processes queue_size : ℕ) (acts : List Action)
      → let s = act_all acts (new_ingest processes queue_size) in
        all_submitted acts
        ≤ (stats s).processed
          + (stats s).failed
          + (stats s).dropped
          + (stats s).queue_depth
          + in_hands s
  unfolding new_ingest stats
  stats_complete processes queue_size acts =
      let start = new_ingest processes queue_size in
      omega (
        arith,
        act_all_le acts start (omega (arith, length-repeat (max 2 processes))),
        sum_of-weight (act_all acts start).children,
      )
