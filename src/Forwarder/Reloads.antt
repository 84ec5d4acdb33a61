-- ===== src/Forwarder/Reloads.antt =====
-- forwarder.py, `_reload`: the forwarders after a reload against the rows of the table.
use mathlib.Core.Path.{subst, ap₂}
use mini_siem.Base.{
  ℕ, ◌≡◌, refl, ap, inl, inr, Bool, true, false, not, ◌||◌, Option, none, some, List, [], ◌∷◌,
  arith, if◌then◌else◌, nat_beq_iff, ◌==◌, nat_eq, string_eq, Bool-cases, All, Text, text_eq, Dict,
  lookup, elem, ◌&&◌, sym, ◌∙◌, lookup-insert, lookup-erase, ◌≢◌, ◌↔◌, ◌⊎◌, text_beq_iff, beq_refl,
}
use mini_siem.Forwarder.{
  Row, Manager, Forwarder, signature_of, is_self_loop, updated, keep_seen, builds, reload_rows,
  reload, remove_deleted, skipped, loaded, bool_beq, same_signature, Signature,
}

abbrev pub find_row : ℕ → List Row → Option Row
find_row k [] = none
find_row k (r ∷ rows) = if r.id == k then some r else find_row k rows

-- Ids are a primary key: each stands once.
abbrev pub UniqueIds : List Row → Type 0
UniqueIds [] = Unit
UniqueIds (r ∷ rows) = All (λ (x : Row). (x.id == r.id) ≡ false) rows × UniqueIds rows

abbrev pub after_row : Bool → Row → Option Forwarder → Option Forwarder
after_row true r old = none
after_row false r old = some (updated (signature_of r) old)

abbrev after_rows : ℕ → Option Row → Option Forwarder → Option Forwarder
after_rows listen_port none old = old
after_rows listen_port (some r) old = after_row (is_self_loop listen_port r) r old

abbrev stays : ℕ → Option Row → Bool
stays listen_port none = false
stays listen_port (some r) = not (is_self_loop listen_port r)

find_row-fresh :
    (k : ℕ) (rows : List Row) → All (λ (x : Row). (x.id == k) ≡ false) rows → find_row k rows ≡ none
find_row-fresh k [] h = refl
find_row-fresh k (r ∷ rows) h = rw h.0 (find_row-fresh k rows h.1)

lookup-keep_seen :
    (k : ℕ) (seen : List ℕ) (d : Dict ℕ Forwarder)
    → lookup k (keep_seen seen d) ≡ (if elem k seen then lookup k d else none)
lookup-keep_seen k seen [] = elim (Bool-cases (elem k seen)) [
  | inl e ↦ rw e refl
  | inr e ↦ rw e refl
]
lookup-keep_seen k seen ((j, f) ∷ d) = elim (Bool-cases (j == k)) [
  | inl e ↦
      let same = nat_beq_iff j k in
      ground (arith, lookup-keep_seen k seen d, ap (λ (x : ℕ). elem x seen) (same.0 e))
  | inr e ↦ ground (arith, lookup-keep_seen k seen d)
]

bool_beq-eq : (a b : Bool) → (bool_beq a b ≡ true) ↔ (a ≡ b)
bool_beq-eq a b = ground arith

nine :
    (a b c d e f g h i : Bool)
    → (a && b && c && d && e && f && g && h && i) ≡ true
    → (a ≡ true)
      × (b ≡ true)
      × (c ≡ true)
      × (d ≡ true)
      × (e ≡ true)
      × (f ≡ true)
      × (g ≡ true)
      × (h ≡ true)
      × (i ≡ true)
nine a b c d e f g h i q = ground arith

-- The comparison of two configurations is equality.
same_signature-eq : (a b : Signature) → (same_signature a b ≡ true) ↔ (a ≡ b)
unfolding same_signature
same_signature-eq a b = (
  λ q.
      let (n, h, p, r, e, f, m, o, t) =
        nine (a.name == b.name) (a.host == b.host) (a.port == b.port) (a.protocol == b.protocol)
          (bool_beq a.enabled b.enabled) (a.filter_pattern == b.filter_pattern)
          (a.min_severity == b.min_severity) (a.origin_mode == b.origin_mode)
          (a.tcp_framing == b.tcp_framing) q in
      λ i. record {
        name = (text_beq_iff a.name b.name).0 n i;
        host = (text_beq_iff a.host b.host).0 h i;
        port = (nat_beq_iff a.port b.port).0 p i;
        protocol = (text_beq_iff a.protocol b.protocol).0 r i;
        enabled = (bool_beq-eq a.enabled b.enabled).0 e i;
        filter_pattern = (text_beq_iff a.filter_pattern b.filter_pattern).0 f i;
        min_severity = (text_beq_iff a.min_severity b.min_severity).0 m i;
        origin_mode = (text_beq_iff a.origin_mode b.origin_mode).0 o i;
        tcp_framing = (text_beq_iff a.tcp_framing b.tcp_framing).0 t i;
      },
  λ q. ap (λ (c : Signature). same_signature a c) (sym q) ∙ self,
)
  where
    self : same_signature a a ≡ true
    self =
        rw
          (
            beq_refl a.name,
            beq_refl a.host,
            beq_refl a.port,
            beq_refl a.protocol,
            (bool_beq-eq a.enabled a.enabled).1 refl,
            beq_refl a.filter_pattern,
            beq_refl a.min_severity,
            beq_refl a.origin_mode,
            beq_refl a.tcp_framing,
          )
          refl

here : (s s0 e l t : Bool) → e ≡ true → l ≡ t → s ≡ (s0 || (e && l)) → (s || false) ≡ (s0 || t)
here s s0 e l t h k q = ground arith

not_here : (s s0 e l t : Bool) → e ≡ false → s ≡ (s0 || (e && l)) → (s || t) ≡ (s0 || t)
not_here s s0 e l t h q = ground arith

module _ (compiles : Text → Bool) (listen_port k : ℕ) where
  -- what the loop over the rows leaves at the id `k`
  abbrev AtKey : List Row → Manager → List ℕ → Manager × List ℕ × Bool → Type 0
  AtKey rows m seen (m', seen', ok) =
      (ok ≡ true)
      × (lookup k m'.forwarders ≡ after_rows listen_port (find_row k rows) (lookup k m.forwarders))
      × (elem k seen' ≡ (elem k seen || stays listen_port (find_row k rows)))

  reload_rows-AtKey :
      (rows : List Row) (m : Manager) (seen : List ℕ)
      → UniqueIds rows
      → All (λ (r : Row). builds compiles (signature_of r) ≡ true) rows
      → AtKey rows m seen (reload_rows compiles listen_port rows m seen)
  unfolding reload_rows
  reload_rows-AtKey [] m seen u b = (refl, refl, ground arith)
  reload_rows-AtKey (r ∷ rows) m seen u b =
      at_row (is_self_loop listen_port r) refl (builds compiles (signature_of r)) b.0
        (λ m' seen'. reload_rows-AtKey rows m' seen' u.1 b.1)
    where
      go : Bool → Bool → Manager × List ℕ × Bool
      go loop ok = elim loop [
        | true ↦ reload_rows compiles listen_port rows (skipped r m) seen
        | false ↦ elim ok [
          | true ↦ reload_rows compiles listen_port rows (loaded r m) (r.id ∷ seen)
          | false ↦ (m, r.id ∷ seen, false)
        ]
      ]

      -- the rest of the rows leaves the id of this row alone
      over :
          (m' : Manager) (seen' : List ℕ) (out : Manager × List ℕ × Bool) (loop : Bool)
          → is_self_loop listen_port r ≡ loop
          → AtKey rows m' seen' out
          → (lookup k m'.forwarders ≡ (
              if r.id == k
              then after_row loop r (lookup r.id m.forwarders)
              else lookup k m.forwarders))
          → (elem k seen' ≡ (elem k seen || ((r.id == k) && not loop)))
          → AtKey (r ∷ rows) m seen out
      over m' seen' out loop is_loop ih at_k in_seen = elim (Bool-cases (r.id == k)) [
        | inl e ↦
            let same = (nat_beq_iff r.id k).0 e in
            let gone =
              find_row-fresh k rows
                (subst (λ (x : ℕ). All (λ (y : Row). (y.id == x) ≡ false) rows) same u.0) in
            (
              ih.0,
              ih.1
                  ∙ ap (λ o. after_rows listen_port o (lookup k m'.forwarders)) gone
                  ∙ at_k
                  ∙ rw e (
                      ap₂ (λ (l : Bool) (x : ℕ). after_row l r (lookup x m.forwarders))
                        (sym is_loop) same),
              ih.2
                  ∙ ap (λ o. elem k seen' || stays listen_port o) gone
                  ∙ here _ _ _ (not loop) (stays listen_port (some r)) e (ap not (sym is_loop))
                      in_seen
                  ∙ rw e refl,
            )
        | inr e ↦ (
          ih.0,
          ih.1 ∙ ap (after_rows listen_port (find_row k rows)) at_k ∙ rw e refl,
          ih.2
              ∙ not_here _ _ _ (not loop) (stays listen_port (find_row k rows)) e in_seen
              ∙ rw e refl,
        )
      ]

      at_row :
          (loop : Bool)
          → is_self_loop listen_port r ≡ loop
          → (ok : Bool) → ok ≡ true
          → ((m' : Manager) (seen' : List ℕ)
              → AtKey rows m' seen' (reload_rows compiles listen_port rows m' seen'))
          → AtKey (r ∷ rows) m seen (go loop ok)
      at_row true is_loop ok h ih =
          over (skipped r m) seen (go true ok) true is_loop (ih (skipped r m) seen)
            (lookup-erase r.id k m.forwarders) (ground arith)
      at_row false is_loop true h ih =
          over (loaded r m) (r.id ∷ seen) (go false true) false is_loop
            (ih (loaded r m) (r.id ∷ seen))
            (lookup-insert r.id k (updated (signature_of r) (lookup r.id m.forwarders))
              m.forwarders)
            (ground arith)
      at_row false is_loop false h ih = cc

  -- what a reload makes of the forwarder at an id: gone without a row or with a row that loops back,
  -- else set up by the row
  abbrev reloaded : Option Row → Option Forwarder → Option Forwarder
  reloaded none old = none
  reloaded (some r) old = after_row (is_self_loop listen_port r) r old

  reload-rows :
      (rows : List Row) (m : Manager)
      → UniqueIds rows
      → All (λ (r : Row). builds compiles (signature_of r) ≡ true) rows
      → lookup k (reload compiles listen_port rows m).forwarders
        ≡ reloaded (find_row k rows) (lookup k m.forwarders)
  unfolding reload
  reload-rows rows m u b =
      finish (reload_rows compiles listen_port rows m []) (reload_rows-AtKey rows m [] u b)
        (find_row k rows) refl
    where
      finish :
          (out : Manager × List ℕ × Bool)
          → AtKey rows m [] out
          → (o : Option Row) → find_row k rows ≡ o
          → lookup k (remove_deleted compiles out).forwarders ≡ reloaded o (lookup k m.forwarders)
      finish (m', seen', false) h o e = cc
      finish (m', seen', true) h o e =
          lookup-keep_seen k seen' m'.forwarders
          ∙ by_row o e (h.2 ∙ ap (stays listen_port) e)
              (h.1 ∙ ap (λ x. after_rows listen_port x (lookup k m.forwarders)) e)
        where
          by_row :
              (o : Option Row)
              → find_row k rows ≡ o
              → elem k seen' ≡ stays listen_port o
              → lookup k m'.forwarders ≡ after_rows listen_port o (lookup k m.forwarders)
              → (if elem k seen' then lookup k m'.forwarders else none)
                ≡ reloaded o (lookup k m.forwarders)
          by_row none e s l = rw s refl
          by_row (some r) e s l = elim (Bool-cases (is_self_loop listen_port r)) [
            | inl t ↦ rw (s, t) refl
            | inr f ↦ rw (s, f) (l ∙ rw f refl)
          ]

  -- A forwarder with its connection closed and no error.
  abbrev pub setup : Signature → ℕ → Option ℕ → Forwarder
  setup c pending last = record {
    config = c;
    is_open = false;
    pending_count = pending;
    last_forward_at = last;
    last_error = none;
  }

  -- what a reload leaves of a forwarder that was there or not, for a configuration
  abbrev pub Renewed : Signature → Option Forwarder → Option Forwarder → Type 0
  Renewed c none after = after ≡ some (setup c 0 none)
  Renewed c (some old) after =
      (old.config ≡ c) × (after ≡ some old)
      ⊎ (old.config ≢ c) × (after ≡ some (setup c old.pending_count old.last_forward_at))

  abbrev pub Reloaded : Option Row → Option Forwarder → Option Forwarder → Type 0
  Reloaded none old after = after ≡ none
  Reloaded (some r) old after =
      (is_self_loop listen_port r ≡ true) × (after ≡ none)
      ⊎ (is_self_loop listen_port r ≡ false) × Renewed (signature_of r) old after

  Renewed-updated : (c : Signature) (old : Option Forwarder) → Renewed c old (some (updated c old))
  Renewed-updated c none = refl
  Renewed-updated c (some old) = elim (Bool-cases (same_signature old.config c)) [
    | inl e ↦ inl ((same_signature-eq old.config c).0 e, rw e refl)
    | inr e ↦ inr (λ q. clash (sym e ∙ (same_signature-eq old.config c).1 q), rw e refl)
  ]
    where
      clash : false ≡ true → ⊥
      clash q = cc

  -- Where the ids of the rows are unique and every pattern compiles, the forwarders after a reload
  -- are: none for an id that has no row or whose row points at the listener's own port; for any
  -- other row, the forwarder that it had, as it was, when the configuration is the same, and else
  -- one of the new configuration, not connected, that keeps the pending count and the last time.
  pub reload-Reloaded :
      (rows : List Row) (m : Manager)
      → UniqueIds rows
      → All (λ (r : Row). builds compiles (signature_of r) ≡ true) rows
      → Reloaded
          (find_row k rows)
          (lookup k m.forwarders)
          (lookup k (reload compiles listen_port rows m).forwarders)
  reload-Reloaded rows m u b =
      subst (Reloaded (find_row k rows) (lookup k m.forwarders)) (sym (reload-rows rows m u b))
        (by_row (find_row k rows))
    where
      by_row :
          (o : Option Row) → Reloaded o (lookup k m.forwarders) (reloaded o (lookup k m.forwarders))
      by_row none = refl
      by_row (some r) = elim (Bool-cases (is_self_loop listen_port r)) [
        | inl e ↦ inl (e, rw e refl)
        | inr e ↦ inr (e, rw e (Renewed-updated (signature_of r) (lookup k m.forwarders)))
      ]
