-- ===== src/Services/LlmReviewGate/Prompt.antt =====
-- services/llm_review_gate.py, `_build_user_prompt`: its parts, their bounds, and the request that
-- `review` makes of them.
use Prim.Native.String.{compare}
use Prim.Native.Nat.{lt}
use nitpicker_daemon.Prelude.{
  ℕ, zero, suc, ◌+◌, ◌≤◌, String, Bool, true, false, List, [], ◌∷◌, ◌++◌, arith, ltb, filled, map,
  concat, join, take_text, decimal, text_length, length-concat, if◌then◌else◌, Bool-cases, inl, inr,
}
use nitpicker_daemon.Python.Errors.{Result}
use nitpicker_daemon.Python.Json.{Json, str, Dict, get_or, text_of}
use nitpicker_daemon.Models.{ReviewRequest, ContextBundle, Finding}
use nitpicker_daemon.Services.LlmReviewGate.{Gate, review}

-- `text[:max] + note`, for a text that is longer
unfoldable pub clip : ℕ → String → String → String
clip max note text =
    if ltb max (text_length text) then concat (take_text max text ∷ note ∷ []) else text

abbrev Tier : Type 0
Tier = String × List String

abbrev precedes : String → String → Bool
precedes a b = elim (compare a b) [ lt ↦ true | _ ↦ false ]

insert_tier : Tier → List Tier → List Tier
insert_tier t [] = t ∷ []
insert_tier t (u ∷ rest) = if precedes u.0 t.0 then u ∷ insert_tier t rest else t ∷ u ∷ rest

-- the tiers, in the order of their names
sort_tiers : List Tier → List Tier
unfolding insert_tier
sort_tiers [] = []
sort_tiers (t ∷ rest) = insert_tier t (sort_tiers rest)

diff_part : ReviewRequest → String
diff_part request = concat (
    "[Git Diff]\n"
    ∷ clip 4000
        (concat
          ("\n... (truncated, " ∷ decimal (text_length request.diff_text) ∷ " chars total)" ∷ []))
        request.diff_text
    ∷ "\n"
    ∷ [])

tier_part : Tier → String
tier_part t =
    concat ("[Context: " ∷ t.0 ∷ "]\n" ∷ clip 2000 "\n... (truncated)" (join "\n" t.1) ∷ "\n" ∷ [])

tier_parts : List Tier → List String
unfolding tier_part
tier_parts [] = []
tier_parts (t ∷ rest) = if filled t.1 then tier_part t ∷ tier_parts rest else tier_parts rest

finding_line : (Json → String) → Finding → String
finding_line repr f = concat (
    "- ["
    ∷ text_of repr (get_or "code" (str "?") f)
    ∷ "] "
    ∷ text_of repr (get_or "message" (get_or "issue" (str "") f) f)
    ∷ [])

finding_parts : (Json → String) → List Finding → List String
unfolding finding_line
finding_parts repr [] = []
finding_parts repr (f ∷ rest) =
    concat
      ("[Pre-filter Agent Findings]\n" ∷ join "\n" (map (finding_line repr) (f ∷ rest)) ∷ "\n" ∷ [])
    ∷ []

prompt_parts : (Json → String) → ReviewRequest → ContextBundle → List Finding → List String
unfolding diff_part tier_parts sort_tiers finding_parts
prompt_parts repr request context findings =
    concat ("[Target File]\n" ∷ request.target_file ∷ "\n" ∷ [])
    ∷ diff_part request
    ∷ (tier_parts (sort_tiers context.tiers) ++ finding_parts repr findings)

unfoldable pub build_user_prompt :
    (Json → String) → ReviewRequest → ContextBundle → List Finding → String
unfolding prompt_parts
build_user_prompt repr request context findings =
    clip 8000 "\n... (prompt truncated)" (join "\n" (prompt_parts repr request context findings))

-- `review`, from the request on
unfoldable pub review_request : Gate → ReviewRequest → ContextBundle → List Finding → Result Dict
review_request g request context findings =
    review g (build_user_prompt g.repr request context findings)

length-take_text : (n : ℕ) (s : String) → text_length (take_text n s) ≤ n
unfolding take_text
length-take_text zero s = omega arith
length-take_text (suc n) String.[] = omega arith
length-take_text (suc n) (String.◌∷◌ c s) = omega (arith, length-take_text n s)

length-clip :
    (max : ℕ) (note text : String) → text_length (clip max note text) ≤ max + text_length note
unfolding clip concat
length-clip max note text = elim (Bool-cases (ltb max (text_length text))) [
  | inl e ↦ rw e (
      omega (
        arith,
        length-concat (take_text max text) (note ∷ []),
        length-concat note [],
        length-take_text max text,
      ))
  | inr e ↦ rw e (ground (arith, e))
]

-- The prompt of the L3 review has at most 8023 characters: the limit of 8000 and the note on what
-- was cut.
pub build_user_prompt_bounded :
    (repr : Json → String) (request : ReviewRequest) (context : ContextBundle)
    (findings : List Finding)
    → text_length (build_user_prompt repr request context findings) ≤ 8023
unfolding build_user_prompt
build_user_prompt_bounded repr request context findings =
    length-clip 8000 "\n... (prompt truncated)"
      (join "\n" (prompt_parts repr request context findings))
