-- ===== src/Tests/Streams.antt =====
-- One stream of the adapter.
use foliot.Common.{
  ℕ, String, pos, ◌≡◌, ◌↔◌, refl, true, false, Option, none, some, List, [], ◌∷◌, arith,
}
use foliot.Bench.Probe.{Reading}
use foliot.Adapter.Stream.{
  other, word, arr, cons, nil, Block, ModelUsage, Outcome, StreamEvent, StreamLine, skipped, event,
  cost_of_result, token_sum, read_stream,
}
use foliot.Adapter.Stream.Cost.{Agrees, cost_of_result-Agrees, token_sum-total, total}
use foliot.Adapter.Stream.Whole.{Reads, read_stream-Reads}
use foliot.Tests.Numbers.{numbers}

abbrev usage_a : ModelUsage ℕ
usage_a = record {
  input_tokens = some (pos 10);
  output_tokens = some (pos 2);
  cache_read = none;
  cache_creation = none;
  cost_usd = some 4;
}

abbrev usage_b : ModelUsage ℕ
usage_b = record {
  input_tokens = some (pos 30);
  output_tokens = none;
  cache_read = none;
  cache_creation = none;
  cost_usd = some 5;
}

abbrev usages : List (String × ModelUsage ℕ)
usages = ("a", usage_a) ∷ ("b", usage_b) ∷ []

abbrev finished : Outcome ℕ
finished = record {
  subtype = "success";
  is_error = false;
  total_cost_usd = some 9;
  duration_ms = some (pos 100);
  permission_denials = record { tool_use_id = "u1"; tool_input = "{}" } ∷ [];
  model_usage = usages;
}

abbrev plain_event : StreamEvent ℕ
plain_event = record {
  typ = "assistant";
  subtype = "";
  model = "";
  api_key_source = "";
  version = "";
  windows = none;
  blocks = none;
  outcome = none;
  value = other;
}

abbrev call : Block
call = record {
  typ = "tool_use";
  id = "u1";
  input = "{\"command\":\"ls\"}";
  tool_use_id = "";
  is_error = false;
  content = "";
}

abbrev refusal : Block
refusal = record {
  typ = "tool_result";
  id = "";
  input = "";
  tool_use_id = "u1";
  is_error = true;
  content = "ls: Operation not permitted";
}

abbrev lines : List (StreamLine ℕ)
lines =
    skipped
    ∷ event (record plain_event { blocks = some (call ∷ []); value = word "hello" })
    ∷ event (record plain_event { typ = "user"; blocks = some (refusal ∷ []) })
    ∷ event (record plain_event {
      typ = "result";
      outcome = some finished;
      value = arr (cons (word "done") nil);
    })
    ∷ []

abbrev counts_of : Option (Reading ℕ) → ℕ × ℕ
counts_of none = (0, 0)
counts_of (some r) = (r.tool_uses, r.denials)

one_denial : counts_of (read_stream numbers 1 (some lines)) ≡ (1, 1)
unfolding read_stream
one_denial = refl

read_stream-Reads_example :
    (r : Reading ℕ) × (read_stream numbers 1 (some lines) ≡ some r) × Reads numbers 1 lines r
read_stream-Reads_example = read_stream-Reads numbers 1 lines

cost_of_result-Agrees_example :
    (cost_of_result numbers 1 finished ≡ some 9) ↔ Agrees numbers 1 finished 9
cost_of_result-Agrees_example = cost_of_result-Agrees numbers 1 finished 9

finished_cost : cost_of_result numbers 1 finished ≡ some 9
unfolding cost_of_result
finished_cost = refl

token_sum-total_example :
    token_sum (λ (u : ModelUsage ℕ). u.input_tokens) (("a", usage_a) ∷ ("b", usage_b) ∷ [])
    ≡ some (pos (total (10 ∷ 30 ∷ [])))
token_sum-total_example =
    token_sum-total (λ (u : ModelUsage ℕ). u.input_tokens) ("a", usage_a) (("b", usage_b) ∷ [])
      (10 ∷ 30 ∷ []) (refl, (refl, tt)) (omega arith)
