-- ===== src/Providers/Ollama/Mini.antt =====
-- The answer that the reviewer of single files relies on: no answer is made up.
use nitpicker_daemon.Prelude.{String, Bool, true, false, codes, is_blank, ◌≡◌, refl, arith}
use nitpicker_daemon.Python.Errors.{Result, ok, raised}
use nitpicker_daemon.Python.Json.{Json}
use nitpicker_daemon.Providers.Ollama.{
  OllamaProvider, Server, available, build_prompt, http_post_streaming, mini_answer, mini_text,
  after_mini_check, generate_mini,
}

module _ (server : Server) where
  -- the model is there, and its text is the answer
  pub record Answered (system_prompt user_prompt : String) (p : OllamaProvider) (answer : Json)
      : Type 0 where
    pub after : OllamaProvider
    pub is_available : available server p ≡ (ok true, after)
    pub text : String
    pub received :
        http_post_streaming server after (build_prompt server system_prompt user_prompt) ≡ ok text
    pub filled : is_blank (codes text) ≡ false
    pub parsed : server.loads text ≡ ok answer

  mini_text-answer :
      (r : Result String) (answer : Json)
      → mini_text server r ≡ ok answer
      → (text : String) × (r ≡ ok text)
        × (is_blank (codes text) ≡ false)
        × (server.loads text ≡ ok answer)
  unfolding mini_text mini_answer
  mini_text-answer (ok text) answer h = (text, refl, ground arith, ground arith)
  mini_text-answer (raised e) answer h = absurd (cc)

  after_mini_check-Answered :
      (system_prompt user_prompt : String) (p : OllamaProvider) (a : Result Bool × OllamaProvider)
      (answer : Json)
      → available server p ≡ a
      → (after_mini_check server system_prompt user_prompt a).0 ≡ ok answer
      → Answered system_prompt user_prompt p answer
  unfolding after_mini_check
  after_mini_check-Answered system_prompt user_prompt p (ok true, q) answer c h =
      let (text, received, filled, parsed) =
        mini_text-answer
          (http_post_streaming server q (build_prompt server system_prompt user_prompt)) answer h in
      record {
        after = q;
        is_available = c;
        text = text;
        received = received;
        filled = filled;
        parsed = parsed;
      }
  after_mini_check-Answered system_prompt user_prompt p (ok false, q) answer c h = absurd (cc)
  after_mini_check-Answered system_prompt user_prompt p (raised e, q) answer c h = absurd (cc)

  pub generate_mini-Answered :
      (system_prompt user_prompt : String) (p : OllamaProvider) (answer : Json)
      → (generate_mini server system_prompt user_prompt p).0 ≡ ok answer
      → Answered system_prompt user_prompt p answer
  unfolding generate_mini
  generate_mini-Answered system_prompt user_prompt p answer h =
      after_mini_check-Answered system_prompt user_prompt p (available server p) answer refl h
