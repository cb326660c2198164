-- ===== src/Notifications/Queueing.antt =====
-- The queue of notifications over time: any calls, and any work of any workers, in any order.
use soomsuite_agent.Prelude.{
  ℕ, ◌+◌, ◌≤◌, ◌<◌, ◌≡◌, subst, inl, inr, String, Bool, true, false, Option, none, some, List, [],
  ◌∷◌, Bool-cases, Option-cases, All, All-append, find, any, and_true, =?→eq, leb, ltb, ◌=?◌,
  if◌then◌else◌, arith,
}
use soomsuite_agent.Errors.{Result, ok, err}
use soomsuite_agent.Schemas.Notification.{
  NotificationStatus, notification_status_enum, scheduled, sending, sent, delivered, read, failed,
  cancelled,
}
use soomsuite_agent.Store.{update_all, All-find, All-update_first}
use soomsuite_agent.Notifications.{Notification, Queue, NotificationExternals}
use soomsuite_agent.Notifications.Service.{
  NotificationIn, new_row, due_time, has_id, has_key, enqueue_unless, enqueue_accepted, accepted,
  enqueue, cancelled_row, cancel_related, is_related, is_claimed, claimed_row, claim, is_same,
  picked,
}
use soomsuite_agent.Notifications.Templates.{template_for}
use soomsuite_agent.Notifications.Delivery.{
  Sending, accepted_as, skipped, failing, crashed, send, settled, deliver_found, deliver,
}

pub data Call : Type 0 where
  enqueue_call : (tenant uuid now : ℕ) (body : NotificationIn) (caller : String) → Call
  cancel_call : (tenant now : ℕ) (related_type : String) (related_id : ℕ) → Call
  claim_call : (now limit : ℕ) → Call
  deliver_call : (now tenant id : ℕ) → Call

module _ {P : Notification → Type 0} where
  All-update_all :
      (test : Notification → Bool) (f : Notification → Notification) (q : Queue)
      → ((n : Notification) → test n ≡ true → P n → P (f n))
      → All P q
      → All P (update_all test f q)
  All-update_all test f [] keeps h = tt
  All-update_all test f (n ∷ q) keeps h = elim (Bool-cases (test n)) [
    | inl met ↦ rw met (keeps n met h.0, All-update_all test f q keeps h.1)
    | inr unmet ↦ rw unmet (h.0, All-update_all test f q keeps h.1)
  ]

module _ (ext : NotificationExternals) (max_attempts : ℕ) where
  unfoldable pub perform : Call → Queue → Queue
  unfolding enqueue cancel_related claim deliver
  perform (enqueue_call tenant uuid now body caller) q = (enqueue tenant uuid now body caller q).1
  perform (cancel_call tenant now related_type related_id) q =
      (cancel_related tenant now related_type related_id q).1
  perform (claim_call now limit) q = (claim now limit q).1
  perform (deliver_call now tenant id) q = deliver ext max_attempts now tenant id q

  unfoldable pub run : List Call → Queue → Queue
  unfolding perform
  run [] q = q
  run (c ∷ cs) q = run cs (perform c q)

  -- Attempts are bounded, and one that is to come is within the bound.
  abbrev pub BoundOf : NotificationStatus → ℕ → Type 0
  BoundOf scheduled attempts = attempts < max_attempts
  BoundOf _ attempts = attempts ≤ max_attempts

  abbrev pub IsWithin : Notification → Type 0
  IsWithin n = BoundOf n.status n.attempts

  BoundOf-le : (s : NotificationStatus) (n : ℕ) → BoundOf s n → n ≤ max_attempts
  BoundOf-le scheduled n h = omega (arith, h)
  BoundOf-le sending n h = h
  BoundOf-le sent n h = h
  BoundOf-le delivered n h = h
  BoundOf-le read n h = h
  BoundOf-le failed n h = h
  BoundOf-le cancelled n h = h

  claimed_row-IsWithin :
      (now limit : ℕ) (q : Queue) (n : Notification)
      → is_claimed now limit q n ≡ true
      → IsWithin n
      → IsWithin (claimed_row n)
  unfolding is_claimed
  claimed_row-IsWithin now limit q n h within =
      let (due, _) = and_true (n.status =? scheduled) (any (is_same n) (picked now limit q)) h in
      let waiting : n.status ≡ scheduled = =?→eq n.status scheduled due in
      let before : n.attempts < max_attempts = subst (λ s. BoundOf s n.attempts) waiting within in
      omega (arith, before)

  settled-IsWithin :
      (now : ℕ) (s : Sending) (n : Notification)
      → n.status ≡ sending
      → IsWithin n
      → IsWithin (settled ext max_attempts now s n)
  unfolding settled
  settled-IsWithin now (accepted_as ref) n h within = BoundOf-le n.status n.attempts within
  settled-IsWithin now (skipped reason) n h within = BoundOf-le n.status n.attempts within
  settled-IsWithin now (failing e) n h within = elim (Bool-cases (leb max_attempts n.attempts)) [
    | inl last ↦ rw last (BoundOf-le n.status n.attempts within)
    | inr early ↦ let more : n.attempts < max_attempts = ground arith in rw early more
  ]
  settled-IsWithin now crashed n h within = within

  fresh-IsWithin :
      (late : Bool) → 1 ≤ max_attempts → BoundOf (if late then cancelled else scheduled) 0
  fresh-IsWithin true positive = omega arith
  fresh-IsWithin false positive = omega (arith, positive)

  enqueue_unless-IsWithin :
      (tenant uuid now : ℕ) (body : NotificationIn) (caller : String) (o : Option Notification)
      (q : Queue)
      → 1 ≤ max_attempts
      → All IsWithin q
      → All IsWithin (enqueue_unless tenant uuid now body caller o q).1
  enqueue_unless-IsWithin tenant uuid now body caller (some n) q positive h = h
  enqueue_unless-IsWithin tenant uuid now body caller none q positive h =
      All-append IsWithin q (new_row tenant uuid now body caller ∷ []) h
        (fresh-IsWithin (ltb (due_time now body.scheduled_for + 300) now) positive, tt)

  enqueue_accepted-IsWithin :
      (tenant uuid now : ℕ) (body : NotificationIn) (caller : String) (r : Result (Unit {0}))
      (q : Queue)
      → 1 ≤ max_attempts
      → All IsWithin q
      → All IsWithin (enqueue_accepted tenant uuid now body caller r q).1
  enqueue_accepted-IsWithin tenant uuid now body caller (err e) q positive h = h
  enqueue_accepted-IsWithin tenant uuid now body caller (ok _) q positive h =
      enqueue_unless-IsWithin tenant uuid now body caller
        (find (has_key tenant body.idempotency_key) q) q positive h

  perform-IsWithin :
      (c : Call) (q : Queue) → 1 ≤ max_attempts → All IsWithin q → All IsWithin (perform c q)
  unfolding perform enqueue cancel_related claim deliver deliver_found
  perform-IsWithin (enqueue_call tenant uuid now body caller) q positive h =
      enqueue_accepted-IsWithin tenant uuid now body caller
        (accepted body (template_for body.template caller)) q positive h
  perform-IsWithin (cancel_call tenant now related_type related_id) q positive h =
      All-update_all (is_related tenant now related_type related_id) cancelled_row q
        (λ n met within. BoundOf-le n.status n.attempts within) h
  perform-IsWithin (claim_call now limit) q positive h =
      All-update_all (is_claimed now limit q) claimed_row q (claimed_row-IsWithin now limit q) h
  perform-IsWithin (deliver_call now tenant id) q positive h =
      elim (Option-cases (find (has_id tenant id) q)) [
        | inl missing ↦ rw missing h
        | inr (n, found) ↦ elim (Bool-cases (n.status =? sending)) [
          | inr other ↦ rw (found, other) h
          | inl claimed ↦
              rw (found, claimed)
                (All-update_first IsWithin (has_id n.tenant_id n.id) q
                  (settled ext max_attempts now (send ext n) n) h
                  (settled-IsWithin now (send ext n) n (=?→eq n.status sending claimed)
                    (All-find IsWithin (has_id tenant id) q n h found)))
        ]
      ]

  -- If no notification was attempted more often than the bound, which is positive, and each that is
  -- scheduled has attempts left, then this stays so, whatever is enqueued, cancelled, claimed and
  -- delivered, in whatever order.
  pub run-IsWithin :
      (cs : List Call) (q : Queue) → 1 ≤ max_attempts → All IsWithin q → All IsWithin (run cs q)
  unfolding run
  run-IsWithin [] q positive h = h
  run-IsWithin (c ∷ cs) q positive h =
      run-IsWithin cs (perform c q) positive (perform-IsWithin c q positive h)
