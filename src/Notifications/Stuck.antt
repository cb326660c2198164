-- ===== src/Notifications/Stuck.antt =====
-- A notification that a worker has claimed and not yet delivered.
use soomsuite_agent.Prelude.{
  ℕ, ◌≡◌, refl, ◌∙◌, inl, inr, String, Bool, true, false, ◌&&◌, Option, none, some, List, [], ◌∷◌,
  ◌==◌, Bool-cases, All, find, leb, ltb, opt_eq, ◌=?◌, arith,
}
use soomsuite_agent.Errors.{Result, ok, err}
use soomsuite_agent.Schemas.Notification.{notification_status_enum, scheduled, sending}
use soomsuite_agent.Store.{find-append, find-save_other, find-update_all, find-key}
use soomsuite_agent.Notifications.{Notification, Queue, NotificationExternals}
use soomsuite_agent.Notifications.Service.{
  NotificationIn, has_id, has_key, same_text, enqueue_unless, enqueue_accepted, accepted, enqueue,
  cancelled_row, new_row, cancel_related, is_related, is_claimed, claimed_row, claim,
}
use soomsuite_agent.Notifications.Templates.{template_for}
use soomsuite_agent.Notifications.Delivery.{
  Sending, accepted_as, skipped, failing, crashed, send, settled, deliver_found, deliver,
}
use soomsuite_agent.Notifications.Queueing.{
  Call, enqueue_call, cancel_call, claim_call, deliver_call, perform, run,
}

abbrev pub is_delivery : ℕ → ℕ → Call → Bool
is_delivery tenant id (deliver_call now t i) = t == tenant && i == id
is_delivery tenant id _ = false

fourth_false : (a b c d e : Bool) → d ≡ false → (a && b && c && d && e) ≡ false
fourth_false a b c d e h = ground arith

module _ (tenant id : ℕ) where
  abbrev key : Notification → Bool
  key = has_id tenant id

  module _ (ext : NotificationExternals) (max_attempts : ℕ) where
    key-settled :
        (now : ℕ) (s : Sending) (n : Notification) → key (settled ext max_attempts now s n) ≡ key n
    unfolding settled
    key-settled now (accepted_as ref) n = refl
    key-settled now (skipped reason) n = refl
    key-settled now (failing e) n = elim (Bool-cases (leb max_attempts n.attempts)) [
      | inl last ↦ rw last refl
      | inr early ↦ rw early refl
    ]
    key-settled now crashed n = refl

    unless-find :
        (t uuid now : ℕ) (body : NotificationIn) (caller : String) (o : Option Notification)
        (q : Queue) (n : Notification)
        → find key q ≡ some n
        → find key (enqueue_unless t uuid now body caller o q).1 ≡ some n
    unless-find t uuid now body caller (some m) q n found = found
    unless-find t uuid now body caller none q n found =
        find-append key q n (new_row t uuid now body caller) found

    accepted-find :
        (t uuid now : ℕ) (body : NotificationIn) (caller : String) (r : Result (Unit {0}))
        (q : Queue) (n : Notification)
        → find key q ≡ some n
        → find key (enqueue_accepted t uuid now body caller r q).1 ≡ some n
    accepted-find t uuid now body caller (err e) q n found = found
    accepted-find t uuid now body caller (ok _) q n found =
        unless-find t uuid now body caller (find (has_key t body.idempotency_key) q) q n found

    delivered-find :
        (now t i : ℕ) (o : Option Notification) (q : Queue)
        → find (has_id t i) q ≡ o
        → (t == tenant && i == id) ≡ false
        → find key (deliver_found ext max_attempts now o q) ≡ find key q
    unfolding deliver_found
    delivered-find now t i none q found apart = refl
    delivered-find now t i (some m) q found apart = elim (Bool-cases (m.status =? sending)) [
      | inr other ↦ rw other refl
      | inl claimed ↦
          let is_it : has_id t i m ≡ true = find-key (has_id t i) q m found in
          let not_ours : key m ≡ false = ground arith in
          rw claimed (
            find-save_other key (has_id m.tenant_id m.id)
              (settled ext max_attempts now (send ext m) m) q
              (key-settled now (send ext m) m ∙ not_ours) (λ r met. ground arith))
    ]

    perform_stuck :
        (c : Call) (q : Queue) (n : Notification)
        → n.status ≡ sending
        → is_delivery tenant id c ≡ false
        → find key q ≡ some n
        → find key (perform ext max_attempts c q) ≡ some n
    unfolding perform enqueue cancel_related claim deliver is_claimed
    perform_stuck (enqueue_call t uuid now body caller) q n busy other found =
        accepted-find t uuid now body caller (accepted body (template_for body.template caller)) q n
          found
    perform_stuck (cancel_call t now related_type related_id) q n busy other found =
        let kept : is_related t now related_type related_id n ≡ false =
          fourth_false (n.tenant_id == t) (same_text n.related_type related_type)
            (opt_eq n.related_id (some related_id)) (n.status =? scheduled)
            (ltb now n.scheduled_for) (rw busy refl) in
        find-update_all key (is_related t now related_type related_id) cancelled_row (λ r. refl) q n
          found
        ∙ rw kept refl
    perform_stuck (claim_call now limit) q n busy other found =
        let kept : is_claimed now limit q n ≡ false = rw busy refl in
        find-update_all key (is_claimed now limit q) claimed_row (λ r. refl) q n found
        ∙ rw kept refl
    perform_stuck (deliver_call now t i) q n busy other found =
        delivered-find now t i (find (has_id t i) q) q refl other ∙ found

    -- A notification whose status is SENDING stays exactly as it is, whatever is enqueued,
    -- cancelled, claimed and delivered, unless it is itself delivered.
    pub run_stuck :
        (cs : List Call) (q : Queue) (n : Notification)
        → n.status ≡ sending
        → All (λ c. is_delivery tenant id c ≡ false) cs
        → find key q ≡ some n
        → find key (run ext max_attempts cs q) ≡ some n
    unfolding run
    run_stuck [] q n busy others found = found
    run_stuck (c ∷ cs) q n busy others found =
        run_stuck cs (perform ext max_attempts c q) n busy others.1
          (perform_stuck c q n busy others.0 found)
