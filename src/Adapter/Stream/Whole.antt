-- ===== src/Adapter/Stream/Whole.antt =====
-- The reading that `Read` makes of a whole stream (src/adapters/claude-code/stream.go).
use foliot.Common.{
  suc, String, ◌≡◌, refl, ap, ◌∙◌, Bool, false, not, ◌&&◌, Option, none, some, List, [], ◌∷◌, map,
  length, ◌=s=◌, contains, is_none, arith,
}
use foliot.Common.Float.{Float}
use foliot.Bench.Probe.{Reading}
use foliot.Adapter.Stream.Ids.{Distinct}
use foliot.Adapter.Stream.Counts.{Adds, uses, texts, is_denied, last_result, see_lines-Adds}
use foliot.Adapter.Stream.{
  Outcome, StreamLine, Seen, nothing_seen, see_lines, read_result, reading_of, read_stream,
}

length-map : {A B : Type 0} (f : A → B) (xs : List A) → length (map f xs) ≡ length xs
length-map f [] = refl
length-map f (x ∷ xs) = ap suc (length-map f xs)

-- A finished run said that it succeeded.
abbrev pub claims_done : {F : Type 0} → Option (Outcome F) → Bool
claims_done none = false
claims_done (some r) = (r.subtype =s= "success") && not r.is_error

module _ (fl : Float) (tolerance : fl.F) where
  -- What a reading says of the lines of its stream.
  pub record Reads (ls : List (StreamLine fl.F)) (r : Reading fl.F) : Type 0 where
    pub counts_calls : r.tool_uses ≡ uses ls
    pub keeps_texts : r.texts ≡ texts ls
    pub refused :
        (ids : List String) × Distinct ids
        × ((i : String) → contains i ids ≡ is_denied i ls)
        × (r.denials ≡ length ids)
        × (length r.denied_inputs ≡ length ids)
    pub ends : r.ended ≡ not (is_none (last_result none ls))
    pub claims : r.claimed_done ≡ claims_done (last_result none ls)

  Reads-result :
      (ls : List (StreamLine fl.F)) (s : Seen fl.F) (o : Option (Outcome fl.F))
      → Adds nothing_seen s (uses ls) (texts ls) (λ i. is_denied i ls) (last_result none ls)
      → o ≡ last_result none ls
      → Reads ls (read_result fl tolerance o (reading_of fl tolerance s))
  unfolding read_result
  Reads-result ls s none a e = record {
    counts_calls = a.counted ∙ omega arith;
    keeps_texts = a.kept;
    refused = (s.denied, a.distinct tt, a.denies, refl, length-map _ s.denied);
    ends = ap (λ x. not (is_none x)) e;
    claims = ap claims_done e;
  }
  Reads-result ls s (some r) a e = record {
    counts_calls = a.counted ∙ omega arith;
    keeps_texts = a.kept;
    refused = (s.denied, a.distinct tt, a.denies, refl, length-map _ s.denied);
    ends = ap (λ x. not (is_none x)) e;
    claims = ap claims_done e;
  }

  -- A stream that is scanned to its end gives a reading. Its calls are the `tool_use` blocks of the
  -- messages, its texts are the strings of every event in order, its denials are the distinct ids
  -- that a tool result with a denial's words or a result's list names, and it is ended and claims to
  -- be done as the last result says.
  pub read_stream-Reads :
      (ls : List (StreamLine fl.F))
      → (r : Reading fl.F) × (read_stream fl tolerance (some ls) ≡ some r) × Reads ls r
  unfolding read_stream
  read_stream-Reads ls =
      let s = see_lines ls nothing_seen in
      let a = see_lines-Adds ls nothing_seen in (_, refl, Reads-result ls s s.outcome a a.ends)
