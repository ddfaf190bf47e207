-- ===== src/Agents/Scan.antt =====
-- What the agents that scan a diff share: the lines that it adds, and a table of rules over them.
pub mod Rules
use Prim.Native.Char.{code}
use nitpicker_daemon.Prelude.{
  String, Bool, not, ◌&&◌, List, [], ◌∷◌, map, if◌then◌else◌, eqb, concat, join, keep, filled,
  starts_with, cons_head,
}
use nitpicker_daemon.Python.Json.{Json, str, get}
use nitpicker_daemon.Python.Regex.{Regex, search}
use nitpicker_daemon.Models.{Score, Finding, AgentDecision, AgentStatus}

-- an entry of `_RULES`
pub record Rule : Type 0 where
  pub code : String
  pub message : String
  pub pattern : Regex

-- the lines of a text, as `^` and `$` of re.MULTILINE see them
unfoldable pub text_lines : String → List String
text_lines String.[] = "" ∷ []
text_lines (String.◌∷◌ c s) =
    let rest = text_lines s in if eqb (code c) b'\n' then "" ∷ rest else cons_head c rest

-- a text without its first character
abbrev pub tail_text : String → String
tail_text String.[] = ""
tail_text (String.◌∷◌ c s) = s

-- `_ADDED_LINE_RE.match(line)`
abbrev pub is_added : String → Bool
is_added line = starts_with "+" line && not (starts_with "+++" line)

-- the groups of `_ADDED_LINE_RE.finditer(diff_text)`
unfoldable pub added_lines : String → List String
unfolding text_lines
added_lines diff_text = map tail_text (keep is_added (text_lines diff_text))

-- `_added_block`
unfoldable pub added_block : String → String
unfolding added_lines
added_block diff_text = join "\n" (added_lines diff_text)

abbrev pub finding_of : Rule → Finding
finding_of rule = ("code", str rule.code) ∷ ("message", str rule.message) ∷ []

-- the findings of the rules whose pattern occurs in a text
unfoldable pub scan_rules : List Rule → String → List Finding
scan_rules rules text = map finding_of (keep (λ rule. search rule.pattern text) rules)

abbrev text_value : Json → String
text_value (str s) = s
text_value _ = ""

-- `f"{f['code']}: {f['message']}"`; code and message of a finding are texts here
abbrev pub action_of : Finding → String
action_of f = concat (text_value (get "code" f) ∷ ": " ∷ text_value (get "message" f) ∷ [])

-- the decision on findings: `status` with `score` if there are any, else a pass
unfoldable pub decide_findings :
    String → AgentStatus → Score → Score → (Finding → String) → List Finding → AgentDecision
decide_findings name status score pass_score action findings =
    if filled findings
    then record {
      agent_name = name;
      status = status;
      confidence_score = score;
      findings = findings;
      suggested_actions = map action findings;
    }
    else record {
      agent_name = name;
      status = AgentStatus.pass;
      confidence_score = pass_score;
      findings = [];
      suggested_actions = [];
    }
