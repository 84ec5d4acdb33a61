-- ===== src/IngestWorkers/Routing.antt =====
-- ingest_workers.py, `submit`: which child an event goes to.
use mini_siem.Base.{
  ℕ, zero, suc, ◌+◌, ◌%◌, ◌≤◌, ◌<◌, ◌≡◌, refl, ◌⊎◌, inl, inr, Bool, true, false, Option, none, some,
  List, [], ◌∷◌, arith, ltb, if◌then◌else◌, ◌==◌, nat_eq, string_eq, Bool-cases, length, Text,
  text_eq,
}
use mini_siem.Rules.{Event}
use mini_siem.IngestWorkers.{
  Ingest, get_child, set_child, route_key, is_tcp, stamp, put, enqueue, slot_of, submit, Item,
  Child, Transport, udp, tcp,
}

get_child-set_child :
    (i j : ℕ) (d : Child) (cs : List Child)
    → (j == i) ≡ false
    → get_child j (set_child i d cs) ≡ get_child j cs
get_child-set_child i j d [] h = refl
get_child-set_child zero zero d (c ∷ cs) h = cc
get_child-set_child zero (suc j) d (c ∷ cs) h = refl
get_child-set_child (suc i) zero d (c ∷ cs) h = refl
get_child-set_child (suc i) (suc j) d (c ∷ cs) h = get_child-set_child i j d cs (ground (arith, h))

-- What an attempt to enqueue did: the event stands at the end of the child's queue, which had room,
-- or the queue was full, nothing was queued and one drop was counted for the transport.
abbrev pub Delivered : ℕ → Item → Child → Ingest → Ingest × Bool → Type 0
Delivered i x c s (s', ok) =
    (ok ≡ true)
      × (length c.queue < s.queue_size)
      × (s'.children ≡ set_child i (put x c) s.children)
      × (s'.dropped ≡ s.dropped)
    ⊎ (ok ≡ false)
      × (s.queue_size ≤ length c.queue)
      × (s'.children ≡ s.children)
      × (s'.dropped ≡ s.dropped + 1)
      × (s'.dropped_udp + s'.dropped_tcp ≡ s.dropped_udp + s.dropped_tcp + 1)

enqueue-Delivered :
    (transport : Transport) (i : ℕ) (x : Item) (c : Child) (s : Ingest)
    → Delivered i x c s (enqueue transport i x (some c) s)
enqueue-Delivered transport i x c s = elim (Bool-cases (ltb (length c.queue) s.queue_size)) [
  | inl b ↦ rw b (inl (refl, ground arith, refl, refl))
  | inr b ↦ rw b (inr (refl, ground arith, refl, refl, counted transport))
]
  where
    counted :
        (t : Transport)
        → s.dropped_udp
            + (if is_tcp t then 0 else 1)
            + (s.dropped_tcp + (if is_tcp t then 1 else 0))
          ≡ s.dropped_udp + s.dropped_tcp + 1
    counted udp = omega arith
    counted tcp = omega arith

slot_lt :
    (crc32 : Text → ℕ) (parse : Text → Text → Option Item) (e : Event) (s : Ingest)
    → 0 < length s.children
    → slot_of crc32 parse e s < length s.children
slot_lt crc32 parse e s h = omega arith

child_at : (i : ℕ) (cs : List Child) → i < length cs → (c : Child) × (get_child i cs ≡ some c)
child_at i [] h = absurd (omega arith)
child_at zero (c ∷ cs) h = (c, refl)
child_at (suc i) (c ∷ cs) h = child_at i cs (omega arith)

enqueue-other :
    (transport : Transport) (i j : ℕ) (x : Item) (o : Option Child) (s : Ingest)
    → (j == i) ≡ false
    → get_child j (enqueue transport i x o s).0.children ≡ get_child j s.children
enqueue-other transport i j x none s h = refl
enqueue-other transport i j x (some c) s h = elim (Bool-cases (ltb (length c.queue) s.queue_size)) [
  | inl b ↦ rw b (get_child-set_child i j (put x c) s.children h)
  | inr b ↦ rw b refl
]

-- A message that parses goes to the one child that the checksum of its address names, among those
-- there are: it is put at the end of that child's queue when there is room, and dropped and
-- counted when there is none; every other child is left as it was.
pub submit-routes :
    (crc32 : Text → ℕ) (parse : Text → Text → Option Item) (raw source_ip : Text)
    (transport : Transport) (received_at : Option ℕ) (x : Item) (s : Ingest)
    → 0 < length s.children
    → parse raw source_ip ≡ some x
    → let i = crc32 (route_key x.event) % length s.children in
      let after = submit crc32 parse raw source_ip transport received_at s in
      ((c : Child) × (get_child i s.children ≡ some c)
        × Delivered i (stamp received_at x) c s after)
      × ((j : ℕ) → (j == i) ≡ false → get_child j after.0.children ≡ get_child j s.children)
unfolding submit
submit-routes crc32 parse raw source_ip transport received_at x s h e =
    let i = slot_of crc32 parse x.event s in
    let (c, at) = child_at i s.children (slot_lt crc32 parse x.event s h) in
    rw (e, at)
      (
        (c, refl, enqueue-Delivered transport i (stamp received_at x) c s),
        λ j. enqueue-other transport i j (stamp received_at x) (some c) s,
      )
