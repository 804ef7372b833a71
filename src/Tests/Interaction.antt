-- ===== src/Tests/Interaction.antt =====
-- An approval that two devices answer; and the theorems on it.
use codex_everywhere.Prelude.{◌≤◌, refl, true, List, [], ◌∷◌, none, some}
use codex_everywhere.Interaction.{
  Interaction, Payload, ServerRequest, Broker, InteractionResponse, accept, decline, approval,
}
use codex_everywhere.Interaction.Answers.{
  Step, adds, responds, fails, answered, arrivals, run, answered-le-arrivals,
}

abbrev payload : Payload
payload = record { thread_id = some "th"; turn_id = none; permissions = none }

abbrev request : ServerRequest
request = record {
  number = 7;
  id = "1";
  method = "item/fileChange/requestApproval";
  params = some payload;
}

abbrev asked : Interaction
asked = record {
  id = "interaction:th:1";
  thread_id = "th";
  turn_id = none;
  kind = approval;
  request_method = "item/fileChange/requestApproval";
  payload = payload;
}

abbrev empty : Broker
empty = record { entries = []; callbacks = []; events = [] }

abbrev asking : Broker
asking = record {
  entries = record { interaction = asked; request = request } ∷ [];
  callbacks = [];
  events = [];
}

abbrev steps : List Step
steps =
    adds request "th"
    ∷ responds true "interaction:th:1" (InteractionResponse.approves accept)
    ∷ responds true "interaction:th:1" (InteractionResponse.approves decline)
    ∷ fails "closed"
    ∷ []

answered-le-arrivals_example : answered 7 (run steps empty).callbacks ≤ arrivals 7 steps
answered-le-arrivals_example = answered-le-arrivals 7 steps empty refl refl
