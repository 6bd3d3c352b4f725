-- ===== src/Adapter/Stream.antt =====
-- src/adapters/claude-code/stream.go: `Read`, `readResult`, `isDenial` and `collectStrings`. A line of
-- the stream is what encoding/json makes of it.
mod Ids
pub mod Counts
pub mod Whole
pub mod Cost
use foliot.Common.{
  ℕ, zero, suc, ◌+◌, String, ℤ, pos, ◌+ℤ◌, wrap_64, Bool, true, false, not, ◌&&◌, ◌||◌, Option,
  none, some, List, [], ◌∷◌, ◌++◌, map, is_none, length, if◌then◌else◌, ◌=s=◌, lookup, contains,
}
use foliot.Common.Float.{Float}
use foliot.Bench.Strings.{includes}
use foliot.Bench.Probe.{Reading}

-- json.Unmarshal into `any`; numbers, booleans and null hold no string.
mutual
  pub data Value : Type 0 where
    other : Value
    word : String → Value
    arr : Items → Value
    obj : Items → Value

  pub data Items : Type 0 where
    nil : Items
    cons : Value → Items → Items

-- `collectStrings`, in the order of the values.
unfoldable mutual
  pub collect_strings : Value → List String
  collect_strings other = []
  collect_strings (word s) = s ∷ []
  collect_strings (arr xs) = collect_items xs
  collect_strings (obj xs) = collect_items xs

  pub collect_items : Items → List String
  collect_items nil = []
  collect_items (cons x xs) = collect_strings x ++ collect_items xs

-- `contentBlock`
pub record Block : Type 0 where
  pub typ : String
  pub id : String
  pub input : String
  pub tool_use_id : String
  pub is_error : Bool
  pub content : String

-- `permissionDenial`
pub record Denial : Type 0 where
  pub tool_use_id : String
  pub tool_input : String

-- `modelUsage`
pub record ModelUsage (F : Type 0) : Type 0 where
  pub input_tokens : Option ℤ
  pub output_tokens : Option ℤ
  pub cache_read : Option ℤ
  pub cache_creation : Option ℤ
  pub cost_usd : Option F

-- `result`
pub record Outcome (F : Type 0) : Type 0 where
  pub subtype : String
  pub is_error : Bool
  pub total_cost_usd : Option F
  pub duration_ms : Option ℤ
  pub permission_denials : List Denial
  pub model_usage : List (String × ModelUsage F)

-- The fields of an event that `Read` looks at. `windows` is none without a rate_limit_info, `blocks`
-- is none without a message whose content is a list of blocks, and `outcome` is the line read as a
-- result.
pub record StreamEvent (F : Type 0) : Type 0 where
  pub typ : String
  pub subtype : String
  pub model : String
  pub api_key_source : String
  pub version : String
  pub windows : Option (List (String × Option F))
  pub blocks : Option (List Block)
  pub outcome : Option (Outcome F)
  pub value : Value

-- A line of the stream: an empty one or one that is no event is skipped.
pub data StreamLine (F : Type 0) : Type 0 where
  skipped : StreamLine F
  event : StreamEvent F → StreamLine F

abbrev pub denial_markers : List String
denial_markers =
    "Operation not permitted" ∷ "operation not permitted" ∷ "<sandbox_violations>"
    ∷ "denied by your permission settings" ∷ "has been denied" ∷ []

abbrev includes_any : String → List String → Bool
includes_any t [] = false
includes_any t (m ∷ ms) = if includes t m then true else includes_any t ms

-- `isDenial`
unfoldable pub is_denial : String → Bool
is_denial t = includes_any t denial_markers

-- A set of ids, in the order of their first insertion.
abbrev pub insert_id : String → List String → List String
insert_id i ids = if contains i ids then ids else ids ++ (i ∷ [])

-- The variables of `Read`: the reading's fields that the loop sets, the inputs and denials by id, and
-- the last result. `inputs` has the newest entry of an id first.
pub record Seen (F : Type 0) : Type 0 where
  pub model : String
  pub version : String
  pub billing : String
  pub week_used : Option F
  pub tool_uses : ℕ
  pub texts : List String
  pub inputs : List (String × String)
  pub denied : List String
  pub outcome : Option (Outcome F)

abbrev pub nothing_seen : {F : Type 0} → Seen F
nothing_seen = record {
  model = "";
  version = "";
  billing = "";
  week_used = none;
  tool_uses = 0;
  texts = [];
  inputs = [];
  denied = [];
  outcome = none;
}

-- An OAuth token shows apiKeySource none; any other source is an API key.
abbrev pub billing_of : String → String → String
billing_of source old =
    if source =s= "none" then "subscription" else if source =s= "" then old else "api"

abbrev pub add_input : String → String → List (String × String) → List (String × String)
add_input i t inputs = if is_none (lookup i inputs) then (i, t) ∷ inputs else inputs

module _ {F : Type 0} where
  abbrev pub see_system : StreamEvent F → Seen F → Seen F
  see_system e s =
      if e.subtype =s= "init"
      then record s {
        model = e.model;
        version = e.version;
        billing = billing_of e.api_key_source s.billing;
      }
      else s

  abbrev pub week_of : Option (List (String × Option F)) → Option F
  week_of none = none
  week_of (some ws) = elim (lookup "seven_day" ws) [ none ↦ none | some u ↦ u ]

  abbrev pub or_old : Option F → Option F → Option F
  or_old none old = old
  or_old (some u) old = some u

  abbrev pub see_block : Block → Seen F → Seen F
  see_block b s =
      if b.typ =s= "tool_use"
      then record s { tool_uses = s.tool_uses + 1; inputs = (b.id, b.input) ∷ s.inputs }
      else if (b.typ =s= "tool_result") && (b.is_error && is_denial b.content)
      then record s { denied = insert_id b.tool_use_id s.denied }
      else s

  abbrev pub see_blocks : List Block → Seen F → Seen F
  see_blocks [] s = s
  see_blocks (b ∷ bs) s = see_blocks bs (see_block b s)

  abbrev pub see_denials : List Denial → Seen F → Seen F
  see_denials [] s = s
  see_denials (d ∷ ds) s = see_denials ds (record s {
    denied = insert_id d.tool_use_id s.denied;
    inputs = add_input d.tool_use_id d.tool_input s.inputs;
  })

  -- A result that does not decode forgets the one before.
  abbrev pub see_result : Option (Outcome F) → Seen F → Seen F
  see_result none s = record s { outcome = none }
  see_result (some r) s = see_denials r.permission_denials (record s { outcome = some r })

  abbrev pub see_message : Option (List Block) → Seen F → Seen F
  see_message none s = s
  see_message (some bs) s = see_blocks bs s

  -- One round of the loop of `Read`.
  unfoldable pub see_event : StreamEvent F → Seen F → Seen F
  unfolding collect_strings is_denial
  see_event e s =
      let t = record s { texts = s.texts ++ collect_strings e.value } in
      if e.typ =s= "system"
      then see_system e t
      else if e.typ =s= "rate_limit_event"
      then record t { week_used = or_old (week_of e.windows) t.week_used }
      else if (e.typ =s= "assistant") || (e.typ =s= "user")
      then see_message e.blocks t
      else if e.typ =s= "result"
      then see_result e.outcome t
      else t

  unfoldable pub see_lines : List (StreamLine F) → Seen F → Seen F
  see_lines [] s = s
  see_lines (skipped ∷ ls) s = see_lines ls s
  see_lines (event e ∷ ls) s = see_lines ls (see_event e s)

-- How `readResult` names the end of a run.
abbrev pub ended_by_of : String → String
ended_by_of subtype =
    if subtype =s= "success"
    then "exit"
    else if subtype =s= "error_max_budget_usd"
    then "budget"
    else if subtype =s= "error_max_turns"
    then "cap"
    else "error"

-- `sum`, over the models: unknown if a model's entry lacks the field. int64 wraps around.
abbrev pub sum_from :
    {F : Type 0} → (ModelUsage F → Option ℤ) → ℤ → List (String × ModelUsage F) → Option ℤ
sum_from field n [] = some n
sum_from field n ((m, u) ∷ us) = elim (field u) [
  | none ↦ none
  | some v ↦ sum_from field (wrap_64 (n +ℤ v)) us
]

unfoldable pub token_sum :
    {F : Type 0} → (ModelUsage F → Option ℤ) → List (String × ModelUsage F) → Option ℤ
token_sum field [] = none
token_sum field (u ∷ us) = sum_from field (pos 0) (u ∷ us)

abbrev input_of : List (String × String) → String → String
input_of inputs i = elim (lookup i inputs) [ none ↦ "" | some t ↦ t ]

module _ (fl : Float) (tolerance : fl.F) where
  -- math.Abs of a difference
  abbrev pub distance : fl.F → fl.F → fl.F
  distance a b = let d = fl.sub a b in if fl.lt_f d fl.zero_f then fl.sub fl.zero_f d else d

  -- The sum of the models' costs: unknown if a model's entry lacks its cost.
  abbrev pub cost_parts : fl.F → List (String × ModelUsage fl.F) → Option fl.F
  cost_parts n [] = some n
  cost_parts n ((m, u) ∷ us) = elim u.cost_usd [ none ↦ none | some c ↦ cost_parts (fl.add n c) us ]

  abbrev close_to : fl.F → Option fl.F → Option fl.F
  close_to total none = none
  close_to total (some parts) =
      if fl.le_f (distance parts total) tolerance then some total else none

  abbrev known_cost : Option fl.F → List (String × ModelUsage fl.F) → Option fl.F
  known_cost none us = none
  known_cost (some total) [] = none
  known_cost (some total) (u ∷ us) = close_to total (cost_parts fl.zero_f (u ∷ us))

  -- The cost of a result, none unless the total and the models' costs agree.
  unfoldable pub cost_of_result : Outcome fl.F → Option fl.F
  cost_of_result r = known_cost r.total_cost_usd r.model_usage

  -- The reading before the result is read.
  abbrev pub reading_of : Seen fl.F → Reading fl.F
  reading_of s = record {
    model = s.model;
    billing = s.billing;
    version = s.version;
    week_used = s.week_used;
    tool_uses = s.tool_uses;
    denials = length s.denied;
    denied_inputs = map (input_of s.inputs) s.denied;
    texts = s.texts;
    ended = false;
    ended_by = "";
    claimed_done = false;
    cost_usd = none;
    input_tokens = none;
    output_tokens = none;
    cache_read = none;
    cache_write = none;
    duration_ms = none;
  }

  -- `readResult`
  unfoldable pub read_result : Option (Outcome fl.F) → Reading fl.F → Reading fl.F
  unfolding token_sum cost_of_result
  read_result none out = out
  read_result (some r) out = record out {
    ended = true;
    ended_by = ended_by_of r.subtype;
    claimed_done = (r.subtype =s= "success") && not r.is_error;
    duration_ms = r.duration_ms;
    input_tokens = token_sum (λ u. u.input_tokens) r.model_usage;
    output_tokens = token_sum (λ u. u.output_tokens) r.model_usage;
    cache_read = token_sum (λ u. u.cache_read) r.model_usage;
    cache_write = token_sum (λ u. u.cache_creation) r.model_usage;
    cost_usd = cost_of_result r;
  }

  -- `Read`, of the lines that the scanner gives; none if it fails.
  unfoldable pub read_stream : Option (List (StreamLine fl.F)) → Option (Reading fl.F)
  unfolding see_lines see_event read_result
  read_stream none = none
  read_stream (some ls) =
      let s = see_lines ls nothing_seen in some (read_result s.outcome (reading_of s))
