-- ===== src/Providers/Ollama/Stream.antt =====
-- The loop that receives the answer of the model.
use nitpicker_daemon.Prelude.{
  ℕ, ◌<◌, String, Bool, true, false, List, [], ◌∷◌, ◌++◌, ◌≡◌, arith, Bool-cases, inl, inr, All,
  ltb, ◌∙◌, ◌==◌,
}
use nitpicker_daemon.Python.Errors.{ok, raised, timeout_error, ◌>>=◌}
use nitpicker_daemon.Python.Json.{Json}
use nitpicker_daemon.Providers.Ollama.{
  Server, Reading, parsed_line, chunk_parts, after_chunk, after_line, add_token, receive,
}

module _ (server : Server) where
  -- what is read of a line that does not end the stream
  abbrev pub Chunk : Reading → Json → Bool → Type 0
  Chunk r token done =
      (line : String) × (r.line ≡ ok line)
      × (line == "" ≡ false)
      × ((parsed_line server (server.loads line) >>= chunk_parts server) ≡ ok (token, done))

  late-receive :
      (limit : ℕ) (r : Reading) (readings : List Reading)
      → ltb limit r.now ≡ true
      → receive server limit (r ∷ readings)
        ≡ raised (record { kind = timeout_error; message = "total timeout" })
  unfolding receive
  late-receive limit r readings h = rw h

  Chunk-receive :
      (limit : ℕ) (r : Reading) (token : Json) (readings : List Reading)
      → ltb limit r.now ≡ false
      → Chunk r token false
      → receive server limit (r ∷ readings) ≡ add_token server token (receive server limit readings)
  unfolding receive after_line after_chunk
  Chunk-receive limit r token readings h (line, read, more, parts) =
      rw h (rw read (rw more (rw parts)))

  -- If a reading of the answer comes after the total time, and every reading before it is a chunk
  -- that is not the last one, the loop raises a TimeoutError.
  pub receive-late :
      (limit : ℕ) (before : List Reading) (r : Reading) (after : List Reading)
      → limit < r.now
      → All (λ b. (token : Json) × Chunk b token false) before
      → receive server limit (before ++ r ∷ after)
        ≡ raised (record { kind = timeout_error; message = "total timeout" })
  receive-late limit [] r after late h = late-receive limit r after (ground arith)
  receive-late limit (b ∷ before) r after late ((token, chunk), h) =
      elim (Bool-cases (ltb limit b.now)) [
        | inl e ↦ late-receive limit b (before ++ r ∷ after) e
        | inr e ↦
            Chunk-receive limit b token (before ++ r ∷ after) e chunk
            ∙ rw (receive-late limit before r after late h)
      ]
