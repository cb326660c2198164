-- ===== src/Defense/Changes.antt =====
-- A safe defensive action, and that each session of the workflow keeps the action that it changes
-- safe.
use soomsuite_agent.Prelude.{
  ℕ, ◌≤◌, ◌==◌, ◌≡◌, sym, subst, refl, ◌⊎◌, inl, inr, String, Bool, true, false, Option, none, some,
  List, [], ◌∷◌, arith, Bool-cases, Option-cases, contains, is_some, All, ◌=?◌, if◌then◌else◌,
}
use soomsuite_agent.Errors.{Result, ok, err, Result-cases, upstream_unavailable}
use soomsuite_agent.Schemas.Defense.{
  defense_action_enum, FatmaMode, DefenseActionStatus, defense_status_enum, recommended,
  pending_approval, approved, executing, active, expired, failed, reverted, dismissed,
}
use soomsuite_agent.Store.{All-find, All-update_first, update_first}
use soomsuite_agent.Defense.{WafAction, DefenseExternals, DefenseDb, human_approved}
use soomsuite_agent.Defense.Target.{action_payload}
use soomsuite_agent.Defense.Service.{
  is_low, is_bad_ttl, ttl_or_default, has_id, find_action, get, Recommendation, new_action, applied,
  activated, failed_with, execute, request_approval, execute_action, revert_action, dismiss_action,
  is_preapproved_mode, may_preapprove, granted, settle_preapproval, try_preapproved,
}

-- The statuses that only an approved action reaches.
abbrev pub needs_approval : List DefenseActionStatus
needs_approval = pending_approval ∷ approved ∷ executing ∷ active ∷ expired ∷ failed ∷ reverted ∷ []

-- A time to live of a minute to an hour at low risk; otherwise none, or one of a minute to a week.
abbrev pub IsBoxed : Bool → Option ℕ → Type 0
IsBoxed true none = ⊥
IsBoxed true (some t) = (60 ≤ t) × (t ≤ 3600)
IsBoxed false none = Unit
IsBoxed false (some t) = (60 ≤ t) × (t ≤ 604800)

in_range : (low : Bool) (t : ℕ) → is_bad_ttl low (some t) ≡ false → IsBoxed low (some t)
in_range true t good = ground arith
in_range false t good = ground arith

ttl-IsBoxed :
    (low : Bool) (ttl : Option ℕ)
    → is_bad_ttl low (ttl_or_default low ttl) ≡ false
    → IsBoxed low (ttl_or_default low ttl)
ttl-IsBoxed true none good = in_range true 900 good
ttl-IsBoxed false none good = tt
ttl-IsBoxed true (some t) good = elim (Bool-cases (t == 0)) [
  | inl zero ↦ rw zero (in_range true 900 refl)
  | inr given ↦ rw given (in_range true t (rw given at good))
]
ttl-IsBoxed false (some t) good = elim (Bool-cases (t == 0)) [
  | inl zero ↦ rw zero tt
  | inr given ↦ rw given (in_range false t (rw given at good))
]

module _ (ext : DefenseExternals) (tenant : ℕ) where
  pub record IsSafe (a : WafAction) : Type 0 where
    pub boxed : IsBoxed (is_low a.action_type) a.ttl_seconds
    pub low : is_preapproved_mode ext tenant a.mode ≡ true → is_low a.action_type ≡ true
    pub backed : contains needs_approval a.status ≡ true → is_some a.approval_id ≡ true

  applied-IsSafe :
      (now : ℕ) (by : String) (a done : WafAction) (r : Result String)
      → applied ext tenant now by a r ≡ ok done
      → is_some a.approval_id ≡ true
      → IsSafe a
      → IsSafe done
  unfolding applied failed_with
  applied-IsSafe now by a done (ok ref) h known s =
      let eq : activated ext tenant now by ref a ≡ done = cc in
      subst IsSafe eq (record { boxed = s.boxed; low = s.low; backed = λ _. known })
  applied-IsSafe now by a done (err (upstream_unavailable m)) h known s =
      let eq : failed_with ext tenant m a ≡ done = cc in
      subst IsSafe eq (record { boxed = s.boxed; low = s.low; backed = λ _. known })
  applied-IsSafe now by a done (err _) h known s = absurd (cc)

  execute-IsSafe :
      (now : ℕ) (by : String) (a done : WafAction)
      → execute ext tenant now by a ≡ ok done
      → is_some a.approval_id ≡ true
      → IsSafe a
      → IsSafe done
  unfolding execute
  execute-IsSafe now by a done h known s =
      elim (Bool-cases (contains (pending_approval ∷ approved ∷ []) a.status)) [
        | inr closed ↦ absurd (ground arith)
        | inl awaiting ↦
            applied-IsSafe now by (record a { status = executing }) done _ (rw awaiting at h) known
              (record { boxed = s.boxed; low = s.low; backed = λ _. known })
      ]

  -- What a session may do: nothing, or the change of one action that keeps it safe.
  abbrev pub Changes : ℕ → DefenseDb → DefenseDb → Type 0
  Changes id db db' =
      (db'.actions ≡ db.actions)
      ⊎ ((a : WafAction) × (new : WafAction) × (find_action id db ≡ some a)
          × (IsSafe a → IsSafe new)
          × (db'.actions ≡ update_first (has_id id) (λ _. new) db.actions))

  pub Changes-IsSafe :
      (id : ℕ) (db db' : DefenseDb)
      → Changes id db db'
      → All IsSafe db.actions
      → All IsSafe db'.actions
  Changes-IsSafe id db db' (inl same) h = subst (All IsSafe) (sym same) h
  Changes-IsSafe id db db' (inr (a, new, found, keeps, saved)) h = subst (All IsSafe) (sym saved) (
      All-update_first IsSafe _ db.actions new h
        (keeps (All-find IsSafe (has_id id) db.actions a h found)))

  pub dismiss-Changes :
      (id : ℕ) (db : DefenseDb) → Changes id db (dismiss_action ext tenant id db).1
  unfolding dismiss_action get
  dismiss-Changes id db = elim (Option-cases (find_action id db)) [
    | inl missing ↦ inl (ground arith)
    | inr (a, found) ↦ elim (Bool-cases (a.status =? recommended)) [
      | inr other ↦ inl (ground arith)
      | inl held ↦ inr (
        a,
        record a { status = dismissed },
        found,
        (λ s. record { boxed = s.boxed; low = s.low; backed = λ h. absurd (cc) }),
        ground arith,
      )
    ]
  ]

  pub revert-Changes :
      (id : ℕ) (e : Bool) (db : DefenseDb) → Changes id db (revert_action ext tenant id e db).1
  unfolding revert_action get
  revert-Changes id e db = elim (Option-cases (find_action id db)) [
    | inl missing ↦ inl (ground arith)
    | inr (a, found) ↦ elim (Bool-cases (a.status =? active)) [
      | inr other ↦ inl (ground arith)
      | inl held ↦ elim (Result-cases (ext.revert a.provider a)) [
        | inr (x, refused) ↦ inl (ground arith)
        | inl (_, done) ↦ inr (
          a,
          record a { status = if e then expired else reverted },
          found,
          (λ s. record { boxed = s.boxed; low = s.low; backed = λ h. s.backed (ground arith) }),
          ground arith,
        )
      ]
    ]
  ]

  pub request-Changes :
      (id : ℕ) (db : DefenseDb) → Changes id db (request_approval ext tenant id db).1
  unfolding request_approval get
  request-Changes id db = elim (Option-cases (find_action id db)) [
    | inl missing ↦ inl (ground arith)
    | inr (a, found) ↦ elim (Bool-cases (a.status =? recommended)) [
      | inr other ↦ inl (ground arith)
      | inl held ↦
          elim (Result-cases (ext.request_approval (action_payload tenant a) a.rationale)) [
            | inr (x, refused) ↦ inl (ground arith)
            | inl (approval, made) ↦ inr (
              a,
              record a {
                approval_id = some approval;
                status = pending_approval;
                mode = human_approved;
              },
              found,
              (λ s. record { boxed = s.boxed; low = λ h. absurd (cc); backed = λ _. refl }),
              ground arith,
            )
          ]
    ]
  ]

  pub execute-Changes :
      (now id : ℕ) (user : String) (db : DefenseDb)
      → Changes id db (execute_action ext tenant now id user db).1
  unfolding execute_action get
  execute-Changes now id user db = elim (Option-cases (find_action id db)) [
    | inl missing ↦ inl (ground arith)
    | inr (a, found) ↦ elim (Option-cases a.approval_id) [
      | inl unapproved ↦ inl (ground arith)
      | inr (approval, known) ↦
          elim (Result-cases (ext.consume approval (action_payload tenant a))) [
            | inr (x, refused) ↦ inl (ground arith)
            | inl (_, consumed) ↦ elim (Result-cases (execute ext tenant now user a)) [
              | inr (x, broken) ↦ inl (ground arith)
              | inl (done, executed) ↦ inr (
                a,
                done,
                found,
                execute-IsSafe now user a done executed (rw known refl),
                ground arith,
              )
            ]
          ]
    ]
  ]

  pub preapproved-Changes :
      (now id : ℕ) (db : DefenseDb) → Changes id db (try_preapproved ext tenant now id db).1
  unfolding try_preapproved get settle_preapproval
  preapproved-Changes now id db = elim (Option-cases (find_action id db)) [
    | inl missing ↦ inl (ground arith)
    | inr (a, found) ↦ elim (Bool-cases (may_preapprove ext tenant a)) [
      | inr other ↦ inl (ground arith)
      | inl may ↦ elim (Result-cases (ext.preapprove (action_payload tenant a) a.rationale)) [
        | inr (x, refused) ↦ inl (ground arith)
        | inl (approval, made) ↦
            elim (Result-cases (ext.consume approval (action_payload tenant a))) [
              | inr (x, refused) ↦ inl (ground arith)
              | inl (_, consumed) ↦
                  elim (Result-cases
                    (execute ext tenant now "policy:preapproved" (granted ext tenant approval a))) [
                      | inr (x, broken) ↦ inl (ground arith)
                      | inl (done, executed) ↦ inr (
                        a,
                        done,
                        found,
                        (λ s.
                            execute-IsSafe now "policy:preapproved" (granted ext tenant approval a)
                              done executed refl
                              (record { boxed = s.boxed; low = s.low; backed = λ _. refl })),
                        ground arith,
                      )
                    ]
            ]
      ]
    ]
  ]

  pub new_action-IsSafe :
      (uuid : ℕ) (r : Recommendation) (target : String) (mode : Option FatmaMode)
      → is_bad_ttl (is_low r.action_type) (ttl_or_default (is_low r.action_type) r.ttl_seconds)
        ≡ false
      → IsSafe (new_action ext tenant uuid r target mode)
  unfolding new_action
  new_action-IsSafe uuid r target mode good = record {
    boxed = ttl-IsBoxed (is_low r.action_type) r.ttl_seconds good;
    low = λ h. elim (Bool-cases (is_low r.action_type)) [
      | inl low ↦ low
      | inr risky ↦ absurd (ground arith)
    ];
    backed = λ h. absurd (cc);
  }
