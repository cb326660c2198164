-- ===== src/Notifications/Repeat.antt =====
-- Notifications that are enqueued under one idempotency key.
use soomsuite_agent.Prelude.{
  ℕ, ◌≡◌, refl, sym, ap, ◌∙◌, inl, inr, String, str_eq, str_eq_iff, true, false, Option, none, some,
  List, [], ◌∷◌, ◌++◌, ==_refl, find, Bool, Bool-cases, leb, ◌=?◌, if◌then◌else◌, Option-cases,
  subst, arith,
}
use soomsuite_agent.Errors.{Result, ok, err}
use soomsuite_agent.Schemas.Notification.{notification_status_enum, sending}
use soomsuite_agent.Store.{find-append, find-append_new, find-update_all, find-key, update_first}
use soomsuite_agent.Notifications.{Notification, Queue, NotificationExternals}
use soomsuite_agent.Notifications.Service.{
  NotificationIn, has_id, has_key, new_row, accepted, enqueue_unless, enqueue_accepted, enqueue,
  cancel_related, cancelled_row, is_related, is_claimed, claimed_row, claim,
}
use soomsuite_agent.Notifications.Templates.{template_for}
use soomsuite_agent.Notifications.Delivery.{
  Sending, accepted_as, skipped, failing, crashed, send, settled, deliver_found, deliver,
}
use soomsuite_agent.Notifications.Queueing.{
  Call, enqueue_call, cancel_call, claim_call, deliver_call, perform, run,
}

module _ (tenant : ℕ) (key : String) where
  abbrev ours : Notification → Bool
  ours = has_key tenant key

  -- The notification of the key is on record, under this identifier.
  abbrev IsHeld : ℕ → Queue → Type 0
  IsHeld id q = (n : Notification) × (find ours q ≡ some n) × (n.id ≡ id)

  unless-IsHeld :
      (t uuid now id : ℕ) (body : NotificationIn) (caller : String) (o : Option Notification)
      (q : Queue)
      → IsHeld id q
      → IsHeld id (enqueue_unless t uuid now body caller o q).1
  unless-IsHeld t uuid now id body caller (some m) q h = h
  unless-IsHeld t uuid now id body caller none q (n, found, same) =
      (n, find-append ours q n (new_row t uuid now body caller) found, same)

  accepted-IsHeld :
      (t uuid now id : ℕ) (body : NotificationIn) (caller : String) (r : Result (Unit {0}))
      (q : Queue)
      → IsHeld id q
      → IsHeld id (enqueue_accepted t uuid now body caller r q).1
  accepted-IsHeld t uuid now id body caller (err e) q h = h
  accepted-IsHeld t uuid now id body caller (ok _) q h =
      unless-IsHeld t uuid now id body caller (find (has_key t body.idempotency_key) q) q h

  id_of_either : (c : Bool) (n m : Notification) → m.id ≡ n.id → (if c then m else n).id ≡ n.id
  id_of_either true n m e = e
  id_of_either false n m e = refl

  -- The flush of a row with the key and the identifier of the row that was read.
  saved-IsHeld :
      (test : Notification → Bool) (id : ℕ) (m x : Notification) (q : Queue)
      → find test q ≡ some m
      → ours x ≡ ours m
      → x.id ≡ m.id
      → IsHeld id q
      → IsHeld id (update_first test (λ _. x) q)
  saved-IsHeld test id m x [] found same_key same_id h = absurd (cc)
  saved-IsHeld test id m x (r ∷ q) found same_key same_id (n, held, named) =
      elim (Bool-cases (test r)) [
        | inl met ↦
            let first : some r ≡ some m = rw met at found in
            let is_it : r ≡ m = cc in
            let keyed : ours x ≡ ours r = same_key ∙ ap ours (sym is_it) in
            let named' : x.id ≡ r.id = same_id ∙ ap (λ (y : Notification). y.id) (sym is_it) in
            elim (Bool-cases (ours r)) [
              | inl hit ↦
                  let here : some r ≡ some n = rw hit at held in
                  let row : r ≡ n = cc in
                  rw met
                    (x, rw (keyed, hit) refl, named' ∙ ap (λ (y : Notification). y.id) row ∙ named)
              | inr miss ↦ rw met (n, rw (keyed, miss) (rw miss at held), named)
            ]
        | inr unmet ↦ elim (Bool-cases (ours r)) [
          | inl hit ↦ rw unmet (n, rw hit (rw hit at held), named)
          | inr miss ↦
              let (n', held', named') =
                saved-IsHeld test id m x q (rw unmet at found) same_key same_id
                  (n, rw miss at held, named) in
              rw unmet (n', rw miss held', named')
        ]
      ]

  module _ (ext : NotificationExternals) (max_attempts : ℕ) where
    settled_same :
        (now : ℕ) (s : Sending) (n : Notification)
        → (ours (settled ext max_attempts now s n) ≡ ours n)
          × ((settled ext max_attempts now s n).id ≡ n.id)
    unfolding settled
    settled_same now (accepted_as ref) n = (refl, refl)
    settled_same now (skipped reason) n = (refl, refl)
    settled_same now (failing e) n = elim (Bool-cases (leb max_attempts n.attempts)) [
      | inl last ↦ rw last (refl, refl)
      | inr early ↦ rw early (refl, refl)
    ]
    settled_same now crashed n = (refl, refl)

    delivered-IsHeld :
        (now t i id : ℕ) (o : Option Notification) (q : Queue)
        → find (has_id t i) q ≡ o
        → IsHeld id q
        → IsHeld id (deliver_found ext max_attempts now o q)
    unfolding deliver_found
    delivered-IsHeld now t i id none q found h = h
    delivered-IsHeld now t i id (some m) q found h = elim (Bool-cases (m.status =? sending)) [
      | inr other ↦ rw other h
      | inl claimed ↦
          let (same_key, same_id) = settled_same now (send ext m) m in
          rw claimed (
            saved-IsHeld (has_id m.tenant_id m.id) id m
              (settled ext max_attempts now (send ext m) m) q (found_by_own t i m q found) same_key
              same_id h)
    ]
      where
        found_by_own :
            (t i : ℕ) (m : Notification) (q : Queue)
            → find (has_id t i) q ≡ some m
            → find (has_id m.tenant_id m.id) q ≡ some m
        found_by_own t i m q found =
            let is_it : has_id t i m ≡ true = find-key (has_id t i) q m found in
            let its_tenant : m.tenant_id ≡ t = ground arith in
            let its_id : m.id ≡ i = ground arith in
            subst (λ k. find (has_id k m.id) q ≡ some m) (sym its_tenant)
              (subst (λ k. find (has_id t k) q ≡ some m) (sym its_id) found)

    perform-IsHeld :
        (c : Call) (id : ℕ) (q : Queue) → IsHeld id q → IsHeld id (perform ext max_attempts c q)
    unfolding perform enqueue cancel_related claim deliver
    perform-IsHeld (enqueue_call t uuid now body caller) id q h =
        accepted-IsHeld t uuid now id body caller
          (accepted body (template_for body.template caller)) q h
    perform-IsHeld (cancel_call t now related_type related_id) id q (n, found, named) =
        let test = is_related t now related_type related_id in
        (
          if test n then cancelled_row n else n,
          find-update_all ours test cancelled_row (λ r. refl) q n found,
          id_of_either (test n) n (cancelled_row n) refl ∙ named,
        )
    perform-IsHeld (claim_call now limit) id q (n, found, named) =
        let test = is_claimed now limit q in
        (
          if test n then claimed_row n else n,
          find-update_all ours test claimed_row (λ r. refl) q n found,
          id_of_either (test n) n (claimed_row n) refl ∙ named,
        )
    perform-IsHeld (deliver_call now t i) id q h =
        delivered-IsHeld now t i id (find (has_id t i) q) q refl h

    run-IsHeld :
        (cs : List Call) (id : ℕ) (q : Queue) → IsHeld id q → IsHeld id (run ext max_attempts cs q)
    unfolding run
    run-IsHeld [] id q h = h
    run-IsHeld (c ∷ cs) id q h =
        run-IsHeld cs id (perform ext max_attempts c q) (perform-IsHeld c id q h)

enqueued-IsHeld :
    (tenant uuid now id : ℕ) (body : NotificationIn) (caller : String) (r : Result (Unit {0}))
    (q q' : Queue)
    → enqueue_accepted tenant uuid now body caller r q ≡ (ok id, q')
    → IsHeld tenant body.idempotency_key id q'
enqueued-IsHeld tenant uuid now id body caller (err e) q q' h = absurd (cc)
enqueued-IsHeld tenant uuid now id body caller (ok _) q q' h =
    elim (Option-cases (find (has_key tenant body.idempotency_key) q)) [
      | inr (n, found) ↦
          let e : ◌≡◌ {A = Result ℕ × Queue} (ok n.id, q) (ok id, q') = rw found at h in
          let kept : q ≡ q' = ap (λ (x : Result ℕ × Queue). x.1) e in
          let answer : ok n.id ≡ ok id = ap (λ (x : Result ℕ × Queue). x.0) e in
          (n, rw (← kept) found, cc)
      | inl fresh ↦
          let row = new_row tenant uuid now body caller in
          let e : ◌≡◌ {A = Result ℕ × Queue} (ok uuid, q ++ (row ∷ [])) (ok id, q') =
            rw fresh at h in
          let kept : q ++ (row ∷ []) ≡ q' = ap (λ (x : Result ℕ × Queue). x.1) e in
          let answer : ok uuid ≡ ok id = ap (λ (x : Result ℕ × Queue). x.0) e in
          let same : str_eq body.idempotency_key body.idempotency_key ≡ true =
            (str_eq_iff body.idempotency_key body.idempotency_key).1 refl in
          let there : find (has_key tenant body.idempotency_key) (q ++ (row ∷ [])) ≡ some row =
            find-append_new (has_key tenant body.idempotency_key) q row fresh
            ∙ rw (==_refl tenant, same) refl in
          (row, rw (← kept) there, cc)
    ]

-- Once a notification was enqueued, whatever else is enqueued, cancelled, claimed and delivered
-- since, every other that passes the checks and comes under its key, whatever it says and whoever
-- sends it, is answered by the same identifier, and nothing is added or changed.
pub enqueue_again :
    (tenant uuid uuid' now now' id : ℕ) (body body' : NotificationIn) (caller caller' : String)
    (q q' : Queue) (ext : NotificationExternals) (max_attempts : ℕ) (cs : List Call)
    → enqueue tenant uuid now body caller q ≡ (ok id, q')
    → body'.idempotency_key ≡ body.idempotency_key
    → accepted body' (template_for body'.template caller') ≡ ok tt
    → enqueue tenant uuid' now' body' caller' (run ext max_attempts cs q')
      ≡ (ok id, run ext max_attempts cs q')
unfolding enqueue
enqueue_again tenant uuid uuid' now now' id body body' caller caller' q q' ext max_attempts cs h
      same_key passes =
    let (n, found, named) = run-IsHeld tenant body.idempotency_key ext max_attempts cs id q' (
      enqueued-IsHeld tenant uuid now id body caller
        (accepted body (template_for body.template caller)) q q' h) in
    rw (passes, same_key, found, named) refl
