-- ===== src/Healing/Store.antt =====
-- runtime/healing-store.ts: HealingStoreBase in memory. A time is a number of milliseconds (the
-- texts of toISOString stand for them), the clock, the random identifiers and the hash are arguments,
-- and `changed`, which only the file adapter uses, has no counterpart. `P` is the type of payloads.
use allas_code_blueprint.Prelude.{
  String, Bool, true, false, not, ◌&&◌, Option, none, some, List, [], ◌∷◌, ◌++◌, ℕ, ◌+◌, leb, ◌==◌,
  if◌then◌else◌, find, select,
}
pub use allas_code_blueprint.Prelude.Attempt.{Attempt, returned, thrown}
use allas_code_blueprint.Prelude.Dict.{Dict, get, put, values}

pub data HealingCaseStatus : Type 0 where
  pending_human resumed expired terminal : HealingCaseStatus

abbrev pub is_pending : HealingCaseStatus → Bool
is_pending pending_human = true
is_pending resumed = false
is_pending expired = false
is_pending terminal = false

pub record HealingInput (P : Type 0) : Type 0 where
  pub intent : String
  pub agent : String
  pub action : String
  pub original_event : String
  pub original_payload : P
  pub error_event : String
  pub error_message : String
  pub correlation_id : String

pub record HealingCase (P : Type 0) : Type 0 where
  pub id : String
  pub input : HealingInput P
  pub original_payload_hash : String
  pub resume_token : String
  pub created_at : ℕ
  pub expires_at : ℕ
  pub status : HealingCaseStatus
  pub attempts : ℕ

pub record HealingAuditEntry : Type 0 where
  pub at : ℕ
  pub case_id : Option String
  pub kind : String
  pub agent : String
  pub action : String
  pub detail : String

pub record HealingStore (P : Type 0) : Type 0 where
  pub cases : Dict (HealingCase P)
  pub audits : List HealingAuditEntry

module _ {P : Type 0} where
  abbrev pub audit :
      (at : ℕ)
      → Option String
      → (kind agent action detail : String) → HealingStore P
      → HealingStore P
  audit at case_id kind agent action detail store = record store {
    audits =
        store.audits
        ++ (record {
          at = at;
          case_id = case_id;
          kind = kind;
          agent = agent;
          action = action;
          detail = detail;
        }
            ∷ []);
  }

  abbrev pub expire : ℕ → HealingCase P → HealingCase P
  expire now value =
      if is_pending value.status && leb value.expires_at now
      then record value { status = expired }
      else value

  -- The loop of `listPending` over the cases.
  unfoldable pub expire_all : ℕ → Dict (HealingCase P) → Dict (HealingCase P)
  expire_all now [] = []
  expire_all now ((id, value) ∷ cases) = (id, expire now value) ∷ expire_all now cases

  abbrev pub is_open : HealingCase P → Bool
  is_open value = is_pending value.status

  unfoldable pub list_pending : ℕ → HealingStore P → List (HealingCase P) × HealingStore P
  list_pending now store =
      let cases = expire_all now store.cases in
      (select is_open (values cases), record store { cases = cases })

  abbrev pub is_about : HealingInput P → HealingCase P → Bool
  is_about input value =
      (value.input.correlation_id == input.correlation_id) && (value.input.action == input.action)

  abbrev pub new_case :
      (hash : P → String) → (id resume_token : String) → ℕ → ℕ → HealingInput P → HealingCase P
  new_case hash id resume_token now ttl input = record {
    id = id;
    input = input;
    original_payload_hash = hash input.original_payload;
    resume_token = resume_token;
    created_at = now;
    expires_at = now + ttl;
    status = pending_human;
    attempts = 0;
  }

  unfoldable pub escalate :
      (hash : P → String)
      → (id resume_token : String) → (now ttl : ℕ) → HealingInput P
      → HealingStore P
      → HealingCase P × HealingStore P
  escalate hash id resume_token now ttl input store =
      let (pending, swept) = list_pending now store in
      elim (find (is_about input) pending) [
        | some existing ↦ (existing, swept)
        | none ↦
            let value = new_case hash id resume_token now ttl input in
            (
              value,
              audit now (some id) "human-escalation" input.agent input.action input.error_message
                  (record swept { cases = put id value swept.cases }),
            )
      ]

  unfoldable pub consume_resume :
      (case_id token : String)
      → (now : ℕ) → HealingStore P
      → Attempt (HealingCase P) × HealingStore P
  consume_resume case_id token now store = elim (get case_id store.cases) [
    | none ↦ (thrown "Healing case not found", store)
    | some value ↦
        if not (is_pending value.status)
        then (thrown "Healing case already consumed", store)
        else if not (value.resume_token == token)
        then (thrown "Invalid healing resume token", store)
        else if leb value.expires_at now
        then (
          thrown "Healing case expired",
          record store { cases = put case_id (record value { status = expired }) store.cases },
        )
        else let next = record value { status = resumed; attempts = value.attempts + 1 } in
          (
            returned next,
            audit now (some value.id) "resume" value.input.agent value.input.action
                "Human context accepted for single resume."
                (record store { cases = put case_id next store.cases }),
          )
  ]
