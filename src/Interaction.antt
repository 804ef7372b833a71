-- ===== src/Interaction.antt =====
-- `InteractionBroker` of apps/agent/src/v2/services/interaction-broker.ts: the approvals and questions of
-- app-server that wait for an answer from one of the devices. A request of app-server is a number, so
-- that what its callbacks get can be counted; the callbacks are a log, newest first. A JSON value is
-- its text; of the parameters of a request the model keeps the fields that the broker reads.
-- A listener of the events that throws is not modelled.
pub mod Answers
use codex_everywhere.Prelude.{
  ℕ, Bool, true, false, ◌||◌, not, List, [], ◌∷◌, ◌++◌, Option, none, some, String, same, map,
  if◌then◌else◌,
}
use Prim.Native.String.{◌++◌ as concat_texts}
use codex_everywhere.Table.{delete, exists, at, lookup}

pub data InteractionKind : Type 0 where
  approval user_question mcp_elicitation : InteractionKind

-- `payload.permissions`, where it is an object; a null field is left out.
pub record Permissions : Type 0 where
  pub network : Option String
  pub file_system : Option String

pub record Payload : Type 0 where
  pub thread_id : Option String
  pub turn_id : Option String
  pub permissions : Option Permissions

pub record ServerRequest : Type 0 where
  pub number : ℕ
  pub id : String
  pub method : String
  pub params : Option Payload

pub record Interaction : Type 0 where
  pub id : String
  pub thread_id : String
  pub turn_id : Option String
  pub kind : InteractionKind
  pub request_method : String
  pub payload : Payload

pub record BrokerEntry : Type 0 where
  pub interaction : Interaction
  pub request : ServerRequest

pub data Decision : Type 0 where
  accept decline : Decision

-- The JSON of answers and of content is its text.
pub data InteractionResponse : Type 0 where
  approves : Decision → InteractionResponse
  inputs : List (String × List String) → InteractionResponse
  elicits : String → Option String → InteractionResponse

pub data CallbackResult : Type 0 where
  grant : Permissions → CallbackResult
  decision : String → CallbackResult
  denied : String → CallbackResult
  answers : List (String × List String) → CallbackResult
  elicitation : String → Option String → CallbackResult

pub data Adapted : Type 0 where
  result : CallbackResult → Adapted
  error : String → Adapted

pub data BrokerError : Type 0 where
  not_an_object missing_thread_id lease_mismatch duplicate unsupported_method already_resolved
        kind_mismatch callback_failed :
      BrokerError

pub data BrokerEvent : Type 0 where
  created : Interaction → BrokerEvent
  resolved : String → BrokerEvent
  failed : String → String → BrokerEvent

-- What a request's callbacks were called with.
pub record Callback : Type 0 where
  pub number : ℕ
  pub adapted : Adapted

pub record Broker : Type 0 where
  pub entries : List BrokerEntry
  pub callbacks : List Callback
  pub events : List BrokerEvent

pub data Outcome {ℓ} (A : Type ℓ) : Type ℓ where
  returned : A → Outcome A
  thrown : BrokerError → Outcome A

abbrev pub entry_id : BrokerEntry → String
entry_id e = e.interaction.id

unfoldable pub interaction_kind : String → Option InteractionKind
interaction_kind m =
    if same m "item/tool/requestUserInput"
    then some user_question
    else if same m "mcpServer/elicitation/request"
    then some mcp_elicitation
    else if same m "item/commandExecution/requestApproval"
        || (same m "item/fileChange/requestApproval"
            || (same m "item/permissions/requestApproval"
                || (same m "applyPatchApproval" || same m "execCommandApproval")))
    then some approval
    else none

-- `interaction:${threadId}:${requestId}`.
unfoldable pub interaction_id : String → String → String
interaction_id thread_id request_id =
    concat_texts "interaction:" (concat_texts thread_id (concat_texts ":" request_id))

-- `optionalString`, and `requiredString` where `none` is its error.
abbrev pub non_empty : Option String → Option String
non_empty none = none
non_empty (some t) = if same t "" then none else some t

abbrev pub call_back : ServerRequest → Adapted → Broker → Broker
call_back r a b = record b { callbacks = record { number = r.number; adapted = a } ∷ b.callbacks }

abbrev pub emit : BrokerEvent → Broker → Broker
emit e b = record b { events = e ∷ b.events }

abbrev pub interaction_of :
    ServerRequest → Payload → String → String → InteractionKind → Interaction
interaction_of r p thread_id id kind = record {
  id = id;
  thread_id = thread_id;
  turn_id = non_empty p.turn_id;
  kind = kind;
  request_method = r.method;
  payload = p;
}

abbrev pub add_kind :
    ServerRequest
    → Payload
    → String
    → String
    → Broker
    → Option InteractionKind
    → Broker × Outcome Interaction
add_kind r p thread_id id b none = (b, thrown unsupported_method)
add_kind r p thread_id id b (some kind) =
    let i = interaction_of r p thread_id id kind in
    (
      emit (created i)
          (record b { entries = b.entries ++ record { interaction = i; request = r } ∷ [] }),
      returned i,
    )

abbrev pub add_at :
    ServerRequest → Payload → String → String → Broker → Broker × Outcome Interaction
add_at r p thread_id id b =
    if exists (at entry_id id) b.entries
    then (call_back r (error "Duplicate interaction") b, thrown duplicate)
    else add_kind r p thread_id id b (interaction_kind r.method)

abbrev pub add_thread :
    ServerRequest → Payload → String → Broker → Option String → Broker × Outcome Interaction
add_thread r p expected b none = (b, thrown missing_thread_id)
add_thread r p expected b (some thread_id) =
    if not (same thread_id expected)
    then (call_back r (error "Thread lease mismatch") b, thrown lease_mismatch)
    else add_at r p thread_id (interaction_id thread_id r.id) b

abbrev pub add_params :
    ServerRequest → String → Broker → Option Payload → Broker × Outcome Interaction
add_params r expected b none = (b, thrown not_an_object)
add_params r expected b (some p) = add_thread r p expected b (non_empty p.thread_id)

unfoldable pub add : ServerRequest → String → Broker → Broker × Outcome Interaction
unfolding interaction_kind interaction_id
add r expected b = add_params r expected b r.params

unfoldable pub list : Broker → List Interaction
list b = map (λ e. e.interaction) b.entries

abbrev pub no_permissions : Permissions
no_permissions = record { network = none; file_system = none }

unfoldable pub permission_grant : Payload → Permissions
permission_grant p = elim p.permissions [ none ↦ no_permissions | some q ↦ q ]

abbrev pub approval_result : String → Payload → Decision → Adapted
approval_result m p d =
    if same m "item/permissions/requestApproval"
    then elim d [
      | decline ↦ error "Declined by user"
      | accept ↦ result (grant (permission_grant p))
    ]
    else if same m "applyPatchApproval" || same m "execCommandApproval"
    then elim d [
      | accept ↦ result (decision "approved")
      | decline ↦ result (denied "Declined by user")
    ]
    else elim d [ accept ↦ result (decision "accept") | decline ↦ result (decision "decline") ]

-- `adaptInteractionResponse`; `none` where the kinds do not match.
unfoldable pub adapt_interaction_response : BrokerEntry → InteractionResponse → Option Adapted
unfolding permission_grant
adapt_interaction_response e response = by_kind e.interaction.kind response
  where
    by_kind : InteractionKind → InteractionResponse → Option Adapted
    by_kind approval (approves d) = some (approval_result e.request.method e.interaction.payload d)
    by_kind user_question (inputs a) = some (result (answers a))
    by_kind mcp_elicitation (elicits action content) = some (result (elicitation action content))
    by_kind _ _ = none

-- The entry is gone before the callback is called; the callback may fail.
abbrev pub respond_adapted :
    Bool → String → BrokerEntry → Broker → Option Adapted → Broker × Outcome (Unit {0})
respond_adapted works id e b none = (b, thrown kind_mismatch)
respond_adapted works id e b (some a) =
    let called = call_back e.request a (record b { entries = delete (at entry_id id) b.entries }) in
    if works
    then (emit (resolved id) called, returned tt)
    else (emit (failed id "response-failed") called, thrown callback_failed)

abbrev pub respond_entry :
    Bool → String → InteractionResponse → Broker → Option BrokerEntry → Broker × Outcome (Unit {0})
respond_entry works id response b none = (b, thrown already_resolved)
respond_entry works id response b (some e) =
    respond_adapted works id e b (adapt_interaction_response e response)

unfoldable pub respond : Bool → String → InteractionResponse → Broker → Broker × Outcome (Unit {0})
unfolding adapt_interaction_response
respond works id response b = respond_entry works id response b (lookup entry_id id b.entries)

abbrev pub fail_entries : String → List BrokerEntry → Broker → Broker
fail_entries reason [] b = b
fail_entries reason (e ∷ es) b =
    fail_entries reason es
      (emit (failed e.interaction.id reason) (call_back e.request (error reason) b))

-- `failAll`: the callbacks' own failures are ignored.
unfoldable pub fail_all : String → Broker → Broker
fail_all reason b = fail_entries reason b.entries (record b { entries = [] })
