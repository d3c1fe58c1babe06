-- ===== src/Database/Sessions/Pacing.antt =====
-- The pacing slot of a connection.
use whatsapp_notification_pl.Prelude.{
  ℕ, suc, ◌+◌, ◌*◌, ◌≤◌, ◌<◌, ◌≡◌, refl, sym, ap, ◌∙◌, Bool, true, false, ◌&&◌, Option, none, some,
  List, [], ◌∷◌, arith, leb, ◌==◌, if◌then◌else◌, get_or, is_some, find?, update_where,
}
use whatsapp_notification_pl.Database.Records.{WhatsAppSession, Database}
use whatsapp_notification_pl.Database.Sessions.{
  find_by_id_without_tenant_scope, reserve_send_slot, pacing_interval,
}

-- How many rows the connection has: one, since its identifier is the primary key.
abbrev pub sessions_of : ℕ → List WhatsAppSession → ℕ
sessions_of id [] = 0
sessions_of id (r ∷ rows) = let rest = sessions_of id rows in if r.id == id then suc rest else rest

module _ (id t u : ℕ) (draw : ℕ → ℕ → ℕ) where
  abbrev open_at : ℕ → WhatsAppSession → Bool
  open_at moment r = r.id == id && leb r.next_send_allowed_at moment

  abbrev reserved : WhatsAppSession → WhatsAppSession
  reserved r = record r { next_send_allowed_at = u + pacing_interval draw r; updated_at = t }

  absent_slot :
      (later : ℕ) (rows : List WhatsAppSession)
      → sessions_of id rows ≡ 0
      → (find? (open_at t) rows ≡ none)
        × (find? (open_at later) (update_where (open_at t) reserved rows) ≡ none)
  absent_slot later [] h = (refl, refl)
  absent_slot later (r ∷ rows) h =
      let rest = absent_slot later rows (ground (arith, h)) in
      (ground (arith, h, rest.0), ground (arith, h, rest.1))

  taken_slot :
      (later : ℕ) (rows : List WhatsAppSession) (r : WhatsAppSession)
      → sessions_of id rows ≤ 1
      → find? (λ s. s.id == id) rows ≡ some r
      → is_some (find? (open_at t) rows) ≡ true
      → later < u + r.send_pacing_minimum_seconds * 1000
      → find? (open_at later) (update_where (open_at t) reserved rows) ≡ none
  taken_slot later [] r unique e h soon = refl
  taken_slot later (s ∷ rows) r unique e h soon =
      go (taken_slot later rows r) (absent_slot later rows) (s.id == id) refl
    where
      go :
          (sessions_of id rows ≤ 1
            → find? (λ s. s.id == id) rows ≡ some r
            → is_some (find? (open_at t) rows) ≡ true
            → later < u + r.send_pacing_minimum_seconds * 1000
            → find? (open_at later) (update_where (open_at t) reserved rows) ≡ none)
          → (sessions_of id rows ≡ 0
              → (find? (open_at t) rows ≡ none)
                × (find? (open_at later) (update_where (open_at t) reserved rows) ≡ none))
          → (b : Bool) → (s.id == id) ≡ b
          → find? (open_at later) (update_where (open_at t) reserved (s ∷ rows)) ≡ none
      go next rest true same =
          let others = rest (ground (arith, unique, same)) in
          let is_r = ap (λ o. get_or o s) {x = some s} {y = some r} (sym (rw same refl) ∙ e) in
          let minimum : s.send_pacing_minimum_seconds ≡ r.send_pacing_minimum_seconds =
            ap (λ x. x.send_pacing_minimum_seconds) is_r in
          ground (arith, others.0, others.1, h, same, soon, minimum)
      go next rest false other =
          let found =
            next (ground (arith, unique, other)) (sym (rw other refl) ∙ e)
              (ground (arith, h, other)) soon in
          ground (arith, found, other)

closed_slot :
    (id t u : ℕ) (draw : ℕ → ℕ → ℕ) (db : Database)
    → find? (open_at id t u draw t) db.sessions ≡ none
    → (reserve_send_slot id t u draw db).1.0 ≡ false
unfolding reserve_send_slot
closed_slot id t u draw db h = closed _ (find? (open_at id t u draw t) db.sessions) h
  where
    closed :
        (d : ℕ) (o : Option WhatsAppSession)
        → o ≡ none
        → (elim o as (λ _. Bool × ℕ) [
          | some row ↦ (true, u + pacing_interval draw row)
          | none ↦ (false, d)
        ]).0
          ≡ false
    closed d none k = refl
    closed d (some x) k = cc

-- Two slots of a connection are reserved at least its minimum interval apart: where one row has the
-- identifier and a send slot is reserved, the reservation that follows is refused at any time of the
-- clock of its worker that is less than that interval after the time of the database at the first,
-- whatever is drawn.
pub reserve_send_slot-spacing :
    (id t u later v : ℕ) (draw draw' : ℕ → ℕ → ℕ) (db : Database) (r : WhatsAppSession)
    → sessions_of id db.sessions ≡ 1
    → find_by_id_without_tenant_scope id db ≡ some r
    → (reserve_send_slot id t u draw db).1.0 ≡ true
    → later < u + r.send_pacing_minimum_seconds * 1000
    → (reserve_send_slot id later v draw' (reserve_send_slot id t u draw db).0).1.0 ≡ false
unfolding reserve_send_slot find_by_id_without_tenant_scope
reserve_send_slot-spacing id t u later v draw draw' db r unique e h soon =
    closed_slot id later v draw' (reserve_send_slot id t u draw db).0 (
      taken_slot id t u draw later db.sessions r (omega (arith, unique)) e
        (was_open _ (find? (open_at id t u draw t) db.sessions) h) soon)
  where
    was_open :
        (d : ℕ) (o : Option WhatsAppSession)
        → (elim o as (λ _. Bool × ℕ) [
          | some row ↦ (true, u + pacing_interval draw row)
          | none ↦ (false, d)
        ]).0
          ≡ true
        → is_some o ≡ true
    was_open d none k = cc
    was_open d (some x) k = refl
