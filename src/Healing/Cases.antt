-- ===== src/Healing/Cases.antt =====
-- The life of a healing case: the calls of the store as a step relation.
use allas_code_blueprint.Prelude.{
  String, ◌≡◌, ◌∙◌, ◌≢◌, sym, ap, inl, inr, false, Bool-cases, Option-cases, Option, none, some, [],
  ◌∷◌, ℕ, ◌+◌, ◌==◌, eq_iff, arith,
}
use allas_code_blueprint.Prelude.Dict.{Dict, get, get-put, get-put_self}
use allas_code_blueprint.Healing.Store.{
  resumed, expired, is_pending, HealingInput, HealingCase, HealingStore, returned, thrown, audit,
  expire, expire_all, list_pending, new_case, escalate, consume_resume,
}

module _ {P : Type 0} (hash : P → String) where
  -- One call of the store: a random identifier of a new case is not one that is in use.
  pub data Call (s : HealingStore P) : HealingStore P → Type 0 where
    by_audit :
        (at : ℕ) (id : Option String) (kind agent action detail : String)
        → Call s (audit at id kind agent action detail s)
    by_list : (now : ℕ) → Call s (list_pending now s).1
    by_escalate :
        (id token : String) (now ttl : ℕ) (input : HealingInput P)
        → get id s.cases ≡ none
        → Call s (escalate hash id token now ttl input s).1
    by_resume : (id token : String) (now : ℕ) → Call s (consume_resume id token now s).1

  pub data Calls (s : HealingStore P) : HealingStore P → Type 0 where
    stop : Calls s s
    step : {t u : HealingStore P} → Calls s t → Call t u → Calls s u

  get-expire_all :
      (id : String) (now : ℕ) (value : HealingCase P) (cases : Dict (HealingCase P))
      → get id cases ≡ some value
      → get id (expire_all now cases) ≡ some (expire now value)
  unfolding get expire_all
  get-expire_all id now value [] there = ground arith
  get-expire_all id now value ((k, v) ∷ cases) there = elim (Bool-cases (k == id)) [
    | inl same ↦ ground arith
    | inr other ↦
        let rest : get id cases ≡ some value = ground arith in
        let kept = get-expire_all id now value cases rest in ground arith
  ]

  -- The case is stored and not pending.
  abbrev pub Closed : String → HealingCase P → HealingStore P → Type 0
  Closed id value s = (get id s.cases ≡ some value) × (is_pending value.status ≡ false)

  list_pending-Closed :
      (id : String) (now : ℕ) (value : HealingCase P) (s : HealingStore P)
      → Closed id value s
      → Closed id value (list_pending now s).1
  unfolding list_pending
  list_pending-Closed id now value s (there, shut) =
      let kept = get-expire_all id now value s.cases there in (kept ∙ ground arith, shut)

  pub escalate_other-Closed :
      (id other token : String) (now ttl : ℕ) (input : HealingInput P) (value : HealingCase P)
      (s : HealingStore P)
      → other ≢ id
      → Closed id value s
      → Closed id value (escalate hash other token now ttl input s).1
  unfolding escalate
  escalate_other-Closed id other token now ttl input value s differ closed =
      let (there, shut) = closed in
      let (kept, _) = list_pending-Closed id now value s closed in
      let swept = (list_pending now s).1 in
      let added = new_case hash other token now ttl input in
      (ground (arith, get-put other id added swept.cases, eq_iff other id), shut)

  escalate-Closed :
      (id other token : String) (now ttl : ℕ) (input : HealingInput P) (value : HealingCase P)
      (s : HealingStore P)
      → get other s.cases ≡ none
      → Closed id value s
      → Closed id value (escalate hash other token now ttl input s).1
  escalate-Closed id other token now ttl input value s fresh closed =
      let (there, shut) = closed in
      escalate_other-Closed id other token now ttl input value s
        (λ same.
          let gone : none ≡ some value = sym fresh ∙ ap (λ k. get k s.cases) same ∙ there in cc)
        closed

  pub consume_resume-Closed :
      (id other token : String) (now : ℕ) (value : HealingCase P) (s : HealingStore P)
      → Closed id value s
      → Closed id value (consume_resume other token now s).1
  unfolding consume_resume
  consume_resume-Closed id other token now value s (there, shut) =
      elim (Option-cases (get other s.cases)) [
        | inl missing ↦ (ground arith, shut)
        | inr (found, stored) ↦ (
          ground (
            arith,
            get-put other id (record found { status = expired }) s.cases,
            get-put other id (record found { status = resumed; attempts = found.attempts + 1 })
                s.cases,
            eq_iff other id,
          ),
          shut,
        )
      ]

  Call-Closed :
      {s t : HealingStore P} (id : String) (value : HealingCase P)
      → Call s t
      → Closed id value s
      → Closed id value t
  Call-Closed id value (by_audit at case_id kind agent action detail) closed = closed
  Call-Closed id value (by_list now) closed = list_pending-Closed id now value _ closed
  Call-Closed id value (by_escalate other token now ttl input fresh) closed =
      escalate-Closed id other token now ttl input value _ fresh closed
  Call-Closed id value (by_resume other token now) closed =
      consume_resume-Closed id other token now value _ closed

  Calls-Closed :
      {s t : HealingStore P} (id : String) (value : HealingCase P)
      → Calls s t
      → Closed id value s
      → Closed id value t
  Calls-Closed id value stop closed = closed
  Calls-Closed id value (step calls call) closed =
      Call-Closed id value call (Calls-Closed id value calls closed)

  pub consume_resume-Returned :
      (id token : String) (now : ℕ) (value : HealingCase P) (s : HealingStore P)
      → (consume_resume id token now s).0 ≡ returned value
      → Closed id value (consume_resume id token now s).1
  unfolding consume_resume
  consume_resume-Returned id token now value s done = elim (Option-cases (get id s.cases)) [
    | inl missing ↦ ground arith
    | inr (found, stored) ↦
        let next = record found { status = resumed; attempts = found.attempts + 1 } in
        ground (arith, get-put_self id next s.cases)
  ]

  pub consume_resume-refuses :
      (id token : String) (now : ℕ) (value : HealingCase P) (s : HealingStore P)
      → Closed id value s
      → consume_resume id token now s ≡ (thrown "Healing case already consumed", s)
  unfolding consume_resume
  consume_resume-refuses id token now value s (there, shut) = ground arith

  -- Once a case was resumed, no sequence of calls of the store makes it resumable again: whatever
  -- the token and the time, a further resume reports that the case is consumed, and the stored case
  -- is the one that the first resume returned.
  pub consume_resume-once :
      (id token later_token : String) (now later : ℕ) (value : HealingCase P) (s t : HealingStore P)
      → (consume_resume id token now s).0 ≡ returned value
      → Calls (consume_resume id token now s).1 t
      → (consume_resume id later_token later t ≡ (thrown "Healing case already consumed", t))
        × (get id t.cases ≡ some value)
  consume_resume-once id token later_token now later value s t done calls =
      let closed =
        Calls-Closed id value calls (consume_resume-Returned id token now value s done) in
      (consume_resume-refuses id later_token later value t closed, closed.0)
