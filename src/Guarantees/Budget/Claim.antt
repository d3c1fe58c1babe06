-- ===== src/Guarantees/Budget/Claim.antt =====
-- A claim returns the row as it is in the table, so a dispatch knows its maximum of attempts.
use whatsapp_notification_pl.Prelude.{
  ℕ, ◌≡◌, refl, ◌&&◌, Option, none, some, arith, map_option, find?,
}
use whatsapp_notification_pl.Database.Records.{Notification}
use whatsapp_notification_pl.Database.Notifications
use whatsapp_notification_pl.Database.Notifications.{Changes, no_changes}
use whatsapp_notification_pl.Domain.Status.{scheduled, retrying}
use whatsapp_notification_pl.Configuration.{Configuration}
use whatsapp_notification_pl.Program.{done, ◌>>=◌, ◌>>◌, now, atomic, query}
use whatsapp_notification_pl.Program.Logic.{>>-Every, now-Every, atomic-Every, query-Every}
use whatsapp_notification_pl.Services.Dispatch.{
  DispatchInput, not_yet_scheduled, not_yet_due, claimed, unclaimable, not_due,
  explain_failed_claim, note_promotion, claim,
}
use whatsapp_notification_pl.Services.Dispatch.Entry.{put_off, dispatch}
use whatsapp_notification_pl.Contract.Waiting.{reschedule-Every}
use whatsapp_notification_pl.Database.Notifications.{
  update_returning, has_key, is_claimable, promote_scheduled, claim_for_dispatch, begin_attempt,
  append_event, attempt_count_of,
}
use whatsapp_notification_pl.Guarantees.Rows.{Advances}
use whatsapp_notification_pl.Guarantees.Lifecycle.{Advances-admits}
use whatsapp_notification_pl.Guarantees.Budget.Attempts.{
  Moves-cap, Moves-SameMaximum, find-SameMaximum,
}
use whatsapp_notification_pl.Guarantees.Budget.Logic.{Funded, Paid, >>=-Funded, quiet-Funded}
use whatsapp_notification_pl.Guarantees.Budget.Tickets.{Silent, Known, KnownClaim}
use whatsapp_notification_pl.Contract.Waiting.{note_promotion-Every}
use whatsapp_notification_pl.Guarantees.Budget.Dispatch.{proceed-Funded}
use whatsapp_notification_pl.Services.Dispatch.{waits_until}

module _ (id maximum : ℕ) where
  abbrev KnownRow : ℕ → Option Notification → Type 0
  KnownRow t none = Unit
  KnownRow t (some n) = Known id maximum n

  explain-Known :
      (u : ℕ) (o : Option Notification) (t : ℕ) → KnownClaim id maximum u (explain_failed_claim o t)
  unfolding explain_failed_claim
  explain-Known u none t = tt
  explain-Known u (some n) t =
      go (waits_until n.status scheduled n.scheduled_at t)
        (waits_until n.status retrying n.next_attempt_at t)
    where
      go :
          (o₁ o₂ : Option ℕ)
          → KnownClaim id maximum u (elim o₁ [
            | some due ↦ not_due due not_yet_scheduled
            | none ↦ elim o₂ [ some due ↦ not_due due not_yet_due | none ↦ unclaimable ]
          ])
      go (some due) o₂ = tt
      go none (some due) = tt
      go none none = tt

  map-Known :
      (f : Notification → Notification) (o : Option Notification) (t : ℕ)
      → ((r : Notification) → o ≡ some r → Known id maximum (f r))
      → KnownRow t (map_option f o)
  map-Known f none t h = tt
  map-Known f (some r) t h = h r refl

  claim_row-Funded :
      (a n token u t : ℕ)
      → Funded id maximum KnownRow t (atomic (Notifications.claim_for_dispatch a n token u))
  unfolding atomic Notifications.claim_for_dispatch
  claim_row-Funded a n token u t db sane = (
    Moves-SameMaximum id maximum _ _ (Advances-admits.claim a n token u db) sane,
    t,
    omega (arith, Moves-cap id maximum _ _ (Advances-admits.claim a n token u db)),
    map-Known _ (find? (λ r. has_key a n r && is_claimable u r) db.notifications) t (λ r e same.
        find-SameMaximum id maximum (λ s. has_key a n s && is_claimable u s) db.notifications r sane
          e same),
  )

  explained-Funded :
      (input : DispatchInput) (u t : ℕ) (o : Option Notification)
      → KnownRow t o
      → Funded id maximum (KnownClaim id maximum) t (elim o [
        | some notification ↦ done (claimed notification)
        | none ↦ do
          existing ← query (Notifications.find_by_id input.application_id input.notification_id)
          done (explain_failed_claim existing u)
      ])
  explained-Funded input u t (some n) known = known
  explained-Funded input u t none known =
      >>=-Funded id maximum (Paid id maximum) (KnownClaim id maximum) t
        (query (Notifications.find_by_id input.application_id input.notification_id)) _
        (quiet-Funded id maximum t
          (query (Notifications.find_by_id input.application_id input.notification_id))
          (query-Every Advances Silent _ Advances-admits.stays))
        (λ v o _. explain-Known v o u)

  claim-Funded :
      (input : DispatchInput) (token t : ℕ)
      → Funded id maximum (KnownClaim id maximum) t (claim input token)
  unfolding claim ◌>>◌
  claim-Funded input token t =
      >>=-Funded id maximum (Paid id maximum) (KnownClaim id maximum) t now _
        (quiet-Funded id maximum t now (now-Every Advances Silent))
        (λ u₁ started _.
          >>=-Funded id maximum (Paid id maximum) (KnownClaim id maximum) u₁
            (atomic
              (Notifications.promote_scheduled input.application_id input.notification_id started))
            _
            (quiet-Funded id maximum u₁
              (atomic (
                Notifications.promote_scheduled input.application_id input.notification_id started))
              (atomic-Every Advances Silent _ (Advances-admits.promote _ _ _)))
            (λ u₂ promoted _.
              >>=-Funded id maximum (Paid id maximum) (KnownClaim id maximum) u₂
                (note_promotion input promoted) _
                (quiet-Funded id maximum u₂ (note_promotion input promoted)
                  (note_promotion-Every Silent Advances-admits input promoted))
                (λ u₃ _ _.
                  >>=-Funded id maximum KnownRow (KnownClaim id maximum) u₃
                    (atomic (
                      Notifications.claim_for_dispatch input.application_id input.notification_id
                        token started))
                    _ (claim_row-Funded input.application_id input.notification_id token started u₃)
                    (λ u₄ o known. explained-Funded input started u₄ o known))))

  pub dispatch-Funded :
      (config : Configuration) (token : ℕ) (input : DispatchInput) (t : ℕ)
      → Funded id maximum (Paid id maximum) t (dispatch config token input)
  unfolding dispatch put_off
  dispatch-Funded config token input t =
      >>=-Funded id maximum (KnownClaim id maximum) (Paid id maximum) t (claim input token) _
        (claim-Funded input token t)
        (λ u. elim [
          | unclaimable ↦ λ _. tt
          | not_due due why ↦ λ _.
              quiet-Funded id maximum u (put_off input due why) (
                >>-Every Advances Silent _ _ (reschedule-Every Silent Advances-admits input due) tt)
          | claimed n ↦ λ known. proceed-Funded id maximum config n token input known u
        ])
