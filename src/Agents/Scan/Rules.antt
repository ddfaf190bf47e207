-- ===== src/Agents/Scan/Rules.antt =====
-- A table of rules finds something exactly if a pattern of it occurs in the text.
use nitpicker_daemon.Prelude.{
  String, true, none, List, [], ◌∷◌, ◌≡◌, ◌⊎◌, inl, inr, ◌↔◌, refl, sym, ◌∙◌, arith, codes, filled,
  any, Bool-cases, if◌then◌else◌,
}
use nitpicker_daemon.Python.Regex.{search}
use nitpicker_daemon.Python.Regex.Meaning.{Occurs, search-Occurs}
use nitpicker_daemon.Models.{Score, Finding, AgentStatus}
use nitpicker_daemon.Agents.Scan.{Rule, scan_rules, decide_findings}

-- the pattern of some rule of a table occurs in a text
abbrev pub SomeRule : String → List Rule → Type 0
SomeRule text [] = ⊥
SomeRule text (rule ∷ rules) = Occurs rule.pattern none (codes text) ⊎ SomeRule text rules

filled-scan :
    (rules : List Rule) (text : String)
    → filled (scan_rules rules text) ≡ any (λ rule. search rule.pattern text) rules
unfolding scan_rules
filled-scan [] text = refl
filled-scan (rule ∷ rules) text = ground (arith, filled-scan rules text)

any-SomeRule :
    (rules : List Rule) (text : String)
    → any (λ rule. search rule.pattern text) rules ≡ true
    → SomeRule text rules
any-SomeRule [] text h = cc
any-SomeRule (rule ∷ rules) text h = elim (Bool-cases (search rule.pattern text)) [
  | inl e ↦ inl ((search-Occurs rule.pattern text).0 e)
  | inr e ↦ inr (any-SomeRule rules text (ground arith))
]

SomeRule-any :
    (rules : List Rule) (text : String)
    → SomeRule text rules
    → any (λ rule. search rule.pattern text) rules ≡ true
SomeRule-any [] text h = absurd h
SomeRule-any (rule ∷ rules) text (inl o) = rw ((search-Occurs rule.pattern text).1 o) refl
SomeRule-any (rule ∷ rules) text (inr h) = let later = SomeRule-any rules text h in ground arith

pub scan_rules-SomeRule :
    (rules : List Rule) (text : String)
    → (filled (scan_rules rules text) ≡ true) ↔ SomeRule text rules
scan_rules-SomeRule rules text = (
  λ h. any-SomeRule rules text (sym (filled-scan rules text) ∙ h),
  λ h. filled-scan rules text ∙ SomeRule-any rules text h,
)

pub decide_findings-status :
    (name : String) (status : AgentStatus) (score pass_score : Score) (action : Finding → String)
    (findings : List Finding)
    → (decide_findings name status score pass_score action findings).status
      ≡ (if filled findings then status else AgentStatus.pass)
unfolding decide_findings
decide_findings-status name status score pass_score action findings = ground arith
