-- ===== src/Bench/Columns.antt =====
-- src/core/bench/harness.go: `columns` and `inScopeDenials`.
use foliot.Common.{
  ℕ, ℤ, pos, negsuc, String, not, ◌||◌, Option, none, some, List, [], ◌∷◌, if◌then◌else◌, leb,
  ◌=s=◌, ◌+◌,
}
use Prim.Native.String.{◌++◌ as text_append}
use foliot.Common.Float.{Float}
use foliot.Log.Data.{Column, null, number, word}
use foliot.Bench.Strings.{includes, remove_all}
use foliot.Bench.Probe.{Reading}

-- `Observed`
pub record Observed (F : Type 0) : Type 0 where
  pub wall_ms : ℕ
  pub cpu_ms : ℕ
  pub load_at_start : Option F

module _ (fl : Float) where
  abbrev pub number_or_null : Option fl.F → Column fl.F
  number_or_null none = null
  number_or_null (some x) = number x

  abbrev count_or_null : Option ℤ → Column fl.F
  count_or_null none = null
  count_or_null (some n) = number (fl.of_ℤ n)

  -- `inScopeDenials`, over the inputs of the denied calls.
  unfoldable pub in_scope_denials : List String → String → String → String → ℕ
  unfolding remove_all
  in_scope_denials [] run root real_home = 0
  in_scope_denials (x ∷ xs) run root real_home =
      let n = in_scope_denials xs run root real_home in
      let rest = remove_all run x in
      if includes rest root || (includes rest real_home || includes rest "/tmp") then n else n + 1

  -- The harness cannot have run longer than the runner watched it run.
  abbrev pub wall_column : Option ℤ → ℕ → Column fl.F
  wall_column none wall = null
  wall_column (some (negsuc d)) wall = null
  wall_column (some (pos d)) wall = if leb d wall then number (fl.of_ℕ d) else null

  abbrev pub billing_column : String → String → Column fl.F
  billing_column billing injected =
      if billing =s= injected
      then word injected
      else if not (billing =s= "")
      then word (text_append "mismatch:" billing)
      else null

  -- `columns`
  unfoldable pub columns :
      Reading fl.F → Observed fl.F → String → String → String → String → List (String × Column fl.F)
  unfolding in_scope_denials
  columns r o injected run root real_home =
      ("input_tokens", count_or_null r.input_tokens)
      ∷ ("output_tokens", count_or_null r.output_tokens)
      ∷ ("cache_read", count_or_null r.cache_read)
      ∷ ("cache_write", count_or_null r.cache_write)
      ∷ ("cost_usd", number_or_null r.cost_usd)
      ∷ ("wall_ms", wall_column r.duration_ms o.wall_ms)
      ∷ ("cpu_ms", number (fl.of_ℕ o.cpu_ms))
      ∷ ("load_at_start", number_or_null o.load_at_start)
      ∷ ("ended_by", word (if r.ended then r.ended_by else "unknown"))
      ∷ ("denials_in_scope", number (fl.of_ℕ (in_scope_denials r.denied_inputs run root real_home)))
      ∷ ("refusals_routed", number (fl.of_ℕ 0))
      ∷ ("questions_after", number (fl.of_ℕ 0))
      ∷ ("orchestrator_tokens", number (fl.of_ℕ 0))
      ∷ ("billing", billing_column r.billing injected)
      ∷ []
