-- ===== src/Inference/Providers/Turns.antt =====
-- The contract of `InferenceProvider.generate`, and that the providers keep it.
use belgrade_os.Base.{
  String, ◌≡◌, ◌≢◌, ◌⊎◌, inl, inr, refl, Bool-cases, Option, none, some, List, [], ◌∷◌, ◌++◌,
  is_empty,
}
use belgrade_os.Wire.{Json}
use belgrade_os.World.{
  Result, Result-cases, ok, raised, ToolUse, Stream, text_chunk, stream_done, finished, broken,
}
use belgrade_os.Inference.Providers.{
  End, complete, fails, Chunk, FunctionCall, Delta, FinalMessage, tool_uses, close, say, gemini,
  ollama, anthropic, parse_calls, uses_of,
}

-- Texts, and then one StreamDone and nothing after it, or an exception. The reason is "tool_use"
-- exactly if there are tool calls, and else one of `reasons`.
abbrev pub IsTurn : (String → Type 0) → Stream → Type 0
IsTurn Ends (text_chunk content rest) = IsTurn Ends rest
IsTurn Ends (stream_done reason uses finished) =
    ((uses ≡ []) × Ends reason) ⊎ ((uses ≢ []) × (reason ≡ "tool_use"))
IsTurn Ends (stream_done reason uses _) = ⊥
IsTurn Ends finished = ⊥
IsTurn Ends (broken x) = Unit

pub close-IsTurn :
    (Ends : String → Type 0) (uses : List ToolUse) (reason : String)
    → Ends reason
    → IsTurn Ends (close uses reason)
close-IsTurn Ends [] reason e = inl (refl, e)
close-IsTurn Ends (u ∷ uses) reason e = inr (λ eq. cc, refl)

say-IsTurn :
    (Ends : String → Type 0) (content : Option String) (rest : Stream)
    → IsTurn Ends rest
    → IsTurn Ends (say content rest)
say-IsTurn Ends none rest h = h
say-IsTurn Ends (some content) rest h = elim (Bool-cases (is_empty content)) [
  | inl e ↦ rw e h
  | inr e ↦ rw e h
]

anthropic-IsTurn :
    (Ends : String → Type 0) (texts : List String) (final : Result FinalMessage)
    → ((m : FinalMessage) → final ≡ ok m → Ends m.stop_reason)
    → IsTurn Ends (anthropic texts final)
unfolding anthropic
anthropic-IsTurn Ends [] (ok final) h = close-IsTurn Ends (tool_uses final.content) _ (h final refl)
anthropic-IsTurn Ends [] (raised x) h = tt
anthropic-IsTurn Ends (content ∷ texts) final h = anthropic-IsTurn Ends texts final h

abbrev pub EndsTurn : String → Type 0
EndsTurn reason = reason ≡ "end_turn"

gemini-IsTurn :
    (fresh : FunctionCall → String) (uses : List ToolUse) (chunks : List Chunk) (end : End)
    → IsTurn EndsTurn (gemini fresh uses chunks end)
unfolding gemini
gemini-IsTurn fresh uses [] complete = close-IsTurn EndsTurn uses "end_turn" refl
gemini-IsTurn fresh uses [] (fails x) = tt
gemini-IsTurn fresh uses (chunk ∷ chunks) end =
    say-IsTurn EndsTurn chunk.text _ (elim (Result-cases (uses_of fresh chunk.function_calls)) [
      | inl (more, e) ↦ rw e (gemini-IsTurn fresh (uses ++ more) chunks end)
      | inr (x, e) ↦ rw e tt
    ])

ollama-IsTurn :
    (loads : String → Result Json) (uses : List ToolUse) (chunks : List (List Delta)) (end : End)
    → IsTurn EndsTurn (ollama loads uses chunks end)
unfolding ollama
ollama-IsTurn loads uses [] complete = close-IsTurn EndsTurn uses "end_turn" refl
ollama-IsTurn loads uses [] (fails x) = tt
ollama-IsTurn loads uses ([] ∷ chunks) end = tt
ollama-IsTurn loads uses ((delta ∷ _) ∷ chunks) end =
    say-IsTurn EndsTurn delta.content _ (elim (Result-cases (parse_calls loads delta.tool_calls)) [
      | inl (more, e) ↦ rw e (ollama-IsTurn loads (uses ++ more) chunks end)
      | inr (x, e) ↦ rw e tt
    ])

-- Each provider's stream is a turn, whatever the library's client yields and wherever it fails: texts,
-- then one StreamDone and nothing after it, or an exception; the reason is "tool_use" exactly with
-- tool calls. Without tool calls it is "end_turn" for Gemini and Ollama, and for Anthropic the
-- reason of the final message.
pub providers-IsTurn :
    (Ends : String → Type 0) (texts : List String) (final : Result FinalMessage)
    → ((m : FinalMessage) → final ≡ ok m → Ends m.stop_reason)
    → (fresh : FunctionCall → String) (chunks : List Chunk) (loads : String → Result Json)
      (deltas : List (List Delta)) (end : End)
    → IsTurn Ends (anthropic texts final)
      × IsTurn EndsTurn (gemini fresh [] chunks end)
      × IsTurn EndsTurn (ollama loads [] deltas end)
providers-IsTurn Ends texts final h fresh chunks loads deltas end = (
  anthropic-IsTurn Ends texts final h,
  gemini-IsTurn fresh [] chunks end,
  ollama-IsTurn loads [] deltas end,
)
